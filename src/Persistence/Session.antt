-- ===== src/Persistence/Session.antt =====
-- What the program uses of a SQLAlchemy session with `autoflush=False` and
-- `expire_on_commit=False`. The session is a parameter of everything that uses it: a state of any
-- type, these operations on it, and the laws that the program relies on, each documented by
-- SQLAlchemy or by the database. Every operation that talks to the database may raise.
use secure_file_service.Prelude.{
  inr, inl, ◌⊎◌, All, ℕ, Text, text_eq, Option, none, some, Bool, true, false, List, [], ◌∷◌, ◌++◌,
  map, if◌then◌else◌, ◌≡◌, ◌≢◌,
}
use secure_file_service.Exec.{Exec, Outcome}
use secure_file_service.Persistence.Models.{FileModel, AuditEventModel}

pub record Session (S : Type 0) : Type 0 where
  -- `session.add(model)`, then `session.flush()`
  pub insert_file : FileModel → Exec S Unit
  -- `session.add(model)`: the row waits for the next flush or commit.
  pub add_event : AuditEventModel → Exec S Unit
  -- `session.get(FileModel, id)`
  pub get_file : Text → Exec S (Option FileModel)
  -- `session.scalars(select(FileModel).where(...)).first()`
  pub first_file : (FileModel → Bool) → Exec S (Option FileModel)
  -- `select(func.count())` over `select(FileModel).where(...)`
  pub count_files : (FileModel → Bool) → Exec S ℕ
  -- The same with `order_by(created_at.desc(), id.desc()).limit(...).offset(...)`
  pub page_files : (FileModel → Bool) → ℕ → ℕ → Exec S (List FileModel)
  pub count_events : (AuditEventModel → Bool) → Exec S ℕ
  pub page_events : (AuditEventModel → Bool) → ℕ → ℕ → Exec S (List AuditEventModel)
  -- `session.execute(update(FileModel).where(...).values(...))`
  pub update_files : (FileModel → Bool) → (FileModel → FileModel) → Exec S Unit
  pub commit : Exec S Unit
  pub rollback : S → S

-- The rows as they bear on a session: what its queries see, what waits to be written, and what has
-- been committed to the database.
pub record View : Type 0 where
  pub files : List FileModel
  pub events : List AuditEventModel
  pub staged : List AuditEventModel
  pub durable_files : List FileModel
  pub durable_events : List AuditEventModel

abbrev pub update_where : (FileModel → Bool) → (FileModel → FileModel) → FileModel → FileModel
update_where p f m = if p m then f m else m

-- The state of the view after each operation that succeeds.
abbrev pub inserted : FileModel → View → View
inserted m v = record v { files = v.files ++ m ∷ []; events = v.events ++ v.staged; staged = [] }

abbrev pub staged_event : AuditEventModel → View → View
staged_event e v = record v { staged = v.staged ++ e ∷ [] }

abbrev pub updated : (FileModel → Bool) → (FileModel → FileModel) → View → View
updated p f v = record v { files = map (update_where p f) v.files }

abbrev pub committed : View → View
committed v = record {
  files = v.files;
  events = v.events ++ v.staged;
  staged = [];
  durable_files = v.files;
  durable_events = v.events ++ v.staged;
}

abbrev pub rolled_back : View → View
rolled_back v = record v { files = v.durable_files; events = v.durable_events; staged = [] }

-- An operation other than a commit that raises has made nothing durable.
abbrev pub SameDurable : View → View → Type 0
SameDurable v w = (w.durable_files ≡ v.durable_files) × (w.durable_events ≡ v.durable_events)

-- A commit that raises has made nothing durable, or all that it was asked for.
abbrev pub InDoubt : View → View → Type 0
InDoubt v w = SameDurable v w ⊎ SameDurable (committed v) w

-- A query for the first row: some row that fits, or none if none fits.
abbrev pub Found : (FileModel → Bool) → List FileModel → Option FileModel → Type 0
Found p [] none = Unit
Found p [] (some m) = ⊥
Found p (x ∷ xs) none = (p x ≡ false) × Found p xs none
Found p (x ∷ xs) (some m) = ((p x ≡ true) × (x ≡ m)) ⊎ Found p xs (some m)

-- Two rows that a unique constraint or the primary key of `files` forbids together.
abbrev pub Clashes : FileModel → FileModel → Type 0
Clashes m x =
    (m.id ≡ x.id)
    ⊎ (m.storage_key ≡ x.storage_key)
    ⊎ ((m.owner_id ≡ x.owner_id)
        × (m.idempotency_key ≡ x.idempotency_key)
        × (m.idempotency_key ≢ none))

pub record SessionLaws {S : Type 0} (db : Session S) : Type 0 where
  pub view : S → View
  pub insert_file_law :
      (m : FileModel) (s : S)
      → Outcome
          (λ _ t. (view t ≡ inserted m (view s)) × All (λ x. ¬ Clashes m x) (view s).files)
          (λ t. SameDurable (view s) (view t))
          (db.insert_file m s)
  pub add_event_law :
      (e : AuditEventModel) (s : S)
      → Outcome
          (λ _ t. view t ≡ staged_event e (view s))
          (λ t. SameDurable (view s) (view t))
          (db.add_event e s)
  pub get_file_law :
      (id : Text) (s : S)
      → Outcome
          (λ r t. Found (λ m. text_eq m.id id) (view s).files r × (view t ≡ view s))
          (λ t. SameDurable (view s) (view t))
          (db.get_file id s)
  pub first_file_law :
      (p : FileModel → Bool) (s : S)
      → Outcome
          (λ r t. Found p (view s).files r × (view t ≡ view s))
          (λ t. SameDurable (view s) (view t))
          (db.first_file p s)
  pub count_files_law :
      (p : FileModel → Bool) (s : S)
      → Outcome (λ n t. view t ≡ view s) (λ t. SameDurable (view s) (view t)) (db.count_files p s)
  -- Every row of a page fits.
  pub page_files_law :
      (p : FileModel → Bool) (limit offset : ℕ) (s : S)
      → Outcome
          (λ rows t. All (λ m. p m ≡ true) rows × (view t ≡ view s))
          (λ t. SameDurable (view s) (view t))
          (db.page_files p limit offset s)
  pub count_events_law :
      (p : AuditEventModel → Bool) (s : S)
      → Outcome (λ n t. view t ≡ view s) (λ t. SameDurable (view s) (view t)) (db.count_events p s)
  pub page_events_law :
      (p : AuditEventModel → Bool) (limit offset : ℕ) (s : S)
      → Outcome
          (λ rows t. All (λ m. p m ≡ true) rows × (view t ≡ view s))
          (λ t. SameDurable (view s) (view t))
          (db.page_events p limit offset s)
  pub update_files_law :
      (p : FileModel → Bool) (f : FileModel → FileModel) (s : S)
      → Outcome
          (λ _ t. view t ≡ updated p f (view s))
          (λ t. SameDurable (view s) (view t))
          (db.update_files p f s)
  -- A commit that raises may be in doubt: the connection can be lost after the database has committed.
  pub commit_law :
      (s : S)
      → Outcome (λ _ t. view t ≡ committed (view s)) (λ t. InDoubt (view s) (view t)) (db.commit s)
  pub rollback_law : (s : S) → view (db.rollback s) ≡ rolled_back (view s)

abbrev pub Occurs : FileModel → List FileModel → Type 0
Occurs m [] = ⊥
Occurs m (x ∷ xs) = (x ≡ m) ⊎ Occurs m xs

pub Found-Occurs :
    (p : FileModel → Bool) (xs : List FileModel) (m : FileModel)
    → Found p xs (some m)
    → (p m ≡ true) × Occurs m xs
Found-Occurs p (x ∷ xs) m (inl (fits, same)) = (rw same at fits, inl same)
Found-Occurs p (x ∷ xs) m (inr later) =
    let (fits, there) = Found-Occurs p xs m later in (fits, inr there)
Found-Occurs p [] m h = absurd h
