-- ===== src/Persistence/FileRepository.antt =====
-- `SqlAlchemyFileRepository` of app/infrastructure/repositories/file_repository.py, over a session.
pub mod Laws
use secure_file_service.Prelude.{
  ℕ, Text, text_eq, option_eq, Option, none, some, Bool, true, false, List, [], ◌∷◌, ◌&&◌,
  if◌then◌else◌, ◌≡◌, refl,
}
use secure_file_service.Prelude.Results.{Result, ok, err}
use secure_file_service.Exec.{Exec, pure, raise, lift, ◌>>=◌}
use secure_file_service.Domain.Errors.{Exception}
use secure_file_service.Domain.Entities.{
  Datetime, FileStatus, available, deleted, status_value, FileRecord,
}
use secure_file_service.Persistence.Models.{FileModel, file_entity, file_model}
use secure_file_service.Persistence.Session.{Session}

-- The `where` clauses.
abbrev pub has_id : Text → FileModel → Bool
has_id file_id m = text_eq m.id file_id

abbrev pub has_id_and_owner : Text → Text → FileModel → Bool
has_id_and_owner file_id owner_id m = text_eq m.id file_id && text_eq m.owner_id owner_id

abbrev pub has_owner : Text → FileModel → Bool
has_owner owner_id m = text_eq m.owner_id owner_id

abbrev pub has_owner_and_key : Text → Text → FileModel → Bool
has_owner_and_key owner_id key m =
    text_eq m.owner_id owner_id && option_eq m.idempotency_key (some key)

-- The `values` of `set_status`.
abbrev pub with_status : FileStatus → Datetime → FileModel → FileModel
with_status available at m = record m { status = status_value available; updated_at = at }
with_status deleted at m = record m {
  status = status_value deleted;
  updated_at = at;
  deleted_at = some at;
}

-- `_to_entity(model) if model else None`
unfoldable pub optional_entity : Option FileModel → Result Exception (Option FileRecord)
optional_entity none = ok none
optional_entity (some m) = elim (file_entity m) [ ok file ↦ ok (some file) | err e ↦ err e ]

-- `[_to_entity(m) for m in rows]`
unfoldable pub entities : List FileModel → Result Exception (List FileRecord)
entities [] = ok []
entities (m ∷ ms) = elim (file_entity m) [
  | err e ↦ err e
  | ok file ↦ elim (entities ms) [ err e ↦ err e | ok files ↦ ok (file ∷ files) ]
]

module _ {S : Type 0} (db : Session S) where
  unfoldable pub add : FileRecord → Exec S Unit
  add file = db.insert_file (file_model file)

  unfoldable pub get : Text → Exec S (Option FileRecord)
  get file_id = do model ← db.get_file file_id; lift (optional_entity model)

  unfoldable pub get_for_owner : Text → Text → Exec S (Option FileRecord)
  get_for_owner file_id owner_id = do
    model ← db.first_file (has_id_and_owner file_id owner_id)
    lift (optional_entity model)

  unfoldable pub find_by_idempotency_key : Text → Text → Exec S (Option FileRecord)
  find_by_idempotency_key owner_id key = do
    model ← db.first_file (has_owner_and_key owner_id key)
    lift (optional_entity model)

  unfoldable pub list_for_owner : Text → ℕ → ℕ → Exec S (List FileRecord × ℕ)
  list_for_owner owner_id limit offset = do
    total ← db.count_files (has_owner owner_id)
    rows ← db.page_files (has_owner owner_id) limit offset
    files ← lift (entities rows)
    pure (files, total)

  unfoldable pub set_status : Text → FileStatus → Datetime → Exec S Unit
  set_status file_id status at = db.update_files (has_id file_id) (with_status status at)
