-- ===== src/Persistence/FileRepository/Laws.antt =====
-- What the look-ups of the file repository find.
use secure_file_service.Prelude.{◌≡◌, refl, Text, text_eq_iff, arith, Option, none, some, inl, inr}
use secure_file_service.Prelude.Results.{ok}
use secure_file_service.Exec.{Outcome, Outcome-ok, run-cases}
use secure_file_service.Domain.Entities.{FileRecord}
use secure_file_service.Persistence.Models.{FileModel, file_entity}
use secure_file_service.Persistence.Session.{
  SameDurable, Session, SessionLaws, Found-Occurs, Occurs,
}
use secure_file_service.Persistence.FileRepository.{
  has_id, has_id_and_owner, optional_entity, get, get_for_owner,
}

optional_entity-none : (o : Option FileModel) → optional_entity o ≡ ok none → o ≡ none
unfolding optional_entity
optional_entity-none none h = refl
optional_entity-none (some m) h = ground arith

optional_entity-some :
    (o : Option FileModel) (file : FileRecord)
    → optional_entity o ≡ ok (some file)
    → (m : FileModel) × (o ≡ some m) × (file_entity m ≡ ok file)
unfolding optional_entity
optional_entity-some none file h = cc
optional_entity-some (some m) file h = (m, refl, ground arith)

module _ {S : Type 0} (db : Session S) (laws : SessionLaws db) where
  -- A row that `get` returns is a row of the file with that id.
  pub get-found :
      (id : Text) (s t : S) (file : FileRecord)
      → get db id s ≡ (ok (some file), t)
      → (m : FileModel) × Occurs m (laws.view s).files
        × (m.id ≡ id)
        × (file_entity m ≡ ok file)
        × (laws.view t ≡ laws.view s)
  unfolding get
  get-found id s t file h = elim (run-cases (db.get_file id s)) [
    | inl (o, x, e) ↦
        let (m, is_m, entity) = optional_entity-some o file (ground (arith, e)) in
        let (found, same) = Outcome-ok _ _ _ o x (laws.get_file_law id s) e in
        let (fits, there) = Found-Occurs (has_id id) (laws.view s).files m (rw is_m at found) in
        (m, there, (text_eq_iff m.id id).0 fits, entity, ground (arith, e))
    | inr (r, x, e) ↦ absurd (ground (arith, e))
  ]

  pub get_for_owner-found :
      (id owner : Text) (s t : S) (file : FileRecord)
      → get_for_owner db id owner s ≡ (ok (some file), t)
      → (m : FileModel) × Occurs m (laws.view s).files
        × (m.id ≡ id)
        × (m.owner_id ≡ owner)
        × (file_entity m ≡ ok file)
        × (laws.view t ≡ laws.view s)
  unfolding get_for_owner
  get_for_owner-found id owner s t file h =
      elim (run-cases (db.first_file (has_id_and_owner id owner) s)) [
        | inl (o, x, e) ↦
            let (m, is_m, entity) = optional_entity-some o file (ground (arith, e)) in
            let (found, same) =
              Outcome-ok _ _ _ o x (laws.first_file_law (has_id_and_owner id owner) s) e in
            let (fits, there) =
              Found-Occurs (has_id_and_owner id owner) (laws.view s).files m (rw is_m at found) in
            (
              m,
              there,
              ground (arith, text_eq_iff m.id id),
              ground (arith, text_eq_iff m.owner_id owner),
              entity,
              ground (arith, e),
            )
        | inr (r, x, e) ↦ absurd (ground (arith, e))
      ]

  -- A look-up changes nothing.
  pub get_for_owner-Outcome :
      (id owner : Text) (s : S)
      → Outcome
          (λ _ t. laws.view t ≡ laws.view s)
          (λ t. SameDurable (laws.view s) (laws.view t))
          (get_for_owner db id owner s)
  unfolding get_for_owner
  get_for_owner-Outcome id owner s =
      ground (arith, laws.first_file_law (has_id_and_owner id owner) s)
