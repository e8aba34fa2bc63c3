-- ===== src/Application/DeleteFile/Effects.antt =====
-- The two halves of a deletion: the metadata first, then the bytes.
use secure_file_service.Prelude.{
  true, true, ◌≡◌, Text, arith, none, some, [], ◌⊎◌, inl, inr, if◌then◌else◌,
}
use secure_file_service.Prelude.Results.{ok}
use secure_file_service.Exec.{Outcome, Outcome-ok, Outcome-err, run-cases}
use secure_file_service.Domain.Entities.{FileRecord, available, deleted}
use secure_file_service.Domain.Lifecycle.{transition}
use secure_file_service.Persistence.Models.{FileModel, file_entity, audit_model}
use secure_file_service.Persistence.Session.{
  Session, SessionLaws, View, SameDurable, Occurs, staged_event, committed, updated,
}
use secure_file_service.Persistence.FileRepository
use secure_file_service.Persistence.FileRepository.{has_id, with_status}
use secure_file_service.Persistence.FileRepository.Laws.{get_for_owner-found}
use secure_file_service.Persistence.AuditRepository
use secure_file_service.Storage.{FileStorage, StorageLaws}
use secure_file_service.Application.World.{World}
use secure_file_service.Application.DeleteFile.{
  DeleteFileCommand, DeleteDraws, deleted_event, mark_deleted, remove_bytes, execute,
}

module _ {S F : Type 0} (db : Session S) (fs : FileStorage F) (laws : SessionLaws db)
    {sha256 : Text → Text} (storage_laws : StorageLaws sha256 fs) where
  -- The view after the metadata change of a deletion: the rows of the file are marked, and one
  -- event is added.
  abbrev pub Marked : DeleteFileCommand → DeleteDraws → FileRecord → View → View
  Marked cmd draws file v = committed (
      staged_event (audit_model (deleted_event cmd draws file))
        (updated (has_id file.id) (with_status deleted draws.now) v))

  pub mark_deleted-Outcome :
      (cmd : DeleteFileCommand) (draws : DeleteDraws) (file : FileRecord) (w : World S F)
      → Outcome
          (λ _ x.
            (laws.view x.session ≡ Marked cmd draws file (laws.view w.session))
            × (x.storage ≡ w.storage))
          (λ x.
            (SameDurable (laws.view w.session) (laws.view x.session)
              ⊎ SameDurable (Marked cmd draws file (laws.view w.session)) (laws.view x.session))
            × (x.storage ≡ w.storage))
          (mark_deleted db fs cmd draws file w)
  unfolding mark_deleted FileRepository.set_status AuditRepository.add transition
  mark_deleted-Outcome cmd draws file w =
      let m = audit_model (deleted_event cmd draws file) in
      let p = has_id file.id in
      let f = with_status deleted draws.now in
      let law = laws.update_files_law p f w.session in
      elim (run-cases (db.update_files p f w.session)) [
        | inr (r, s, e) ↦ ground (arith, e, law)
        | inl (u, s, e) ↦
            let added = laws.add_event_law m s in
            elim (run-cases (db.add_event m s)) [
              | inr (r, t, e2) ↦ ground (arith, e, e2, law, added)
              | inl (v, t, e2) ↦ elim (run-cases (db.commit t)) [
                | inl (z, q, e3) ↦ ground (arith, e, e2, e3, law, added, laws.commit_law t)
                | inr (r, q, e3) ↦ ground (arith, e, e2, e3, law, added, laws.commit_law t)
              ]
            ]
      ]

  -- The bytes are gone, or the call that removes them failed and nothing has changed.
  pub remove_bytes-effect :
      (file : FileRecord) (w : World S F) (k : Text)
      → ((remove_bytes db fs file w).1.session ≡ w.session)
        × ((storage_laws.stored (remove_bytes db fs file w).1.storage k
              ≡ storage_laws.stored w.storage k)
            ⊎ (storage_laws.stored (remove_bytes db fs file w).1.storage k ≡ (
                if storage_laws.same_key file.storage_key k
                then none
                else storage_laws.stored w.storage k)))
  unfolding remove_bytes
  remove_bytes-effect file w k = elim (run-cases (fs.delete file.storage_key w.storage)) [
    | inl (u, g, e) ↦
        let gone = Outcome-ok _ _ _ u g (storage_laws.delete_law file.storage_key w.storage) e k in
        (ground (arith, e), inr (ground (arith, e, gone)))
    | inr (r, g, e) ↦
        let kept = Outcome-err _ _ _ r g (storage_laws.delete_law file.storage_key w.storage) e k in
        (ground (arith, e), inl (ground (arith, e, kept)))
  ]

  -- A deletion that returns has found a row with the requested id that the caller owns. Either the
  -- file was deleted before, and nothing has changed, or it was available, and its rows are marked
  -- durably, with one deletion event.
  pub execute-Marked :
      (cmd : DeleteFileCommand) (draws : DeleteDraws) (w x : World S F)
      → execute db fs cmd draws w ≡ (ok tt, x)
      → (file : FileRecord) × (m : FileModel) × Occurs m (laws.view w.session).files
        × (m.id ≡ cmd.file_id)
        × (m.owner_id ≡ cmd.owner_id)
        × (file_entity m ≡ ok file)
        × (((file.status ≡ deleted)
              × (laws.view x.session ≡ laws.view w.session)
              × (x.storage ≡ w.storage))
            ⊎ ((file.status ≡ available)
                × (laws.view x.session ≡ Marked cmd draws file (laws.view w.session))))
  unfolding execute
  execute-Marked cmd draws w x h =
      elim (run-cases (FileRepository.get_for_owner db cmd.file_id cmd.owner_id w.session)) [
        | inr (r, s, e) ↦ absurd (ground (arith, e))
        | inl (none, s, e) ↦ absurd (ground (arith, e))
        | inl (some file, s, e) ↦
            let (m, there, id, owner, entity, same) =
              get_for_owner-found db laws cmd.file_id cmd.owner_id w.session s file e in
            let y = record w { session = s } in
            (
              file,
              m,
              there,
              id,
              owner,
              entity,
              elim (run-cases (mark_deleted db fs cmd draws file y)) [
                | inr (r, z, e2) ↦ ground (arith, e, e2)
                | inl (u, z, e2) ↦ ground (
                  arith,
                  e,
                  e2,
                  mark_deleted-Outcome cmd draws file y,
                  remove_bytes-effect file z [],
                )
              ],
            )
      ]
