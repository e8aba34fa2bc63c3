-- ===== src/Application/DeleteFile/Ends.antt =====
-- How a deletion may end, for the database and the storage together: with nothing changed, or with
-- the rows marked durably and the bytes there or gone.
use secure_file_service.Domain.Lifecycle.{status_eq}
use secure_file_service.Prelude.Results.{ok}
use secure_file_service.Persistence.FileRepository.{has_id_and_owner}
use secure_file_service.Persistence.Models.{file_entity, FileModel}
use secure_file_service.Exec.{run-cases, Outcome-err}
use secure_file_service.Domain.Entities.{deleted, FileRecord}
use secure_file_service.Application.World.{World}
use secure_file_service.Storage.{StorageLaws, FileStorage}
use secure_file_service.Persistence.Session.{Occurs, SameDurable, SessionLaws, Session}
use secure_file_service.Prelude.{none, Bool-cases, some, inl, inr, arith, ◌⊎◌, Text, ◌≡◌}
use secure_file_service.Persistence.FileRepository
use secure_file_service.Persistence.FileRepository.Laws.{get_for_owner-found, get_for_owner-Outcome}
use secure_file_service.Application.DeleteFile.Effects.{Marked, mark_deleted-Outcome}
use secure_file_service.Application.DeleteFile.{
  execute, mark_deleted, remove_bytes, DeleteFileCommand, DeleteDraws,
}

module _ {S F : Type 0} (db : Session S) (laws : SessionLaws db) (fs : FileStorage F)
    {sha256 : Text → Text} (storage_laws : StorageLaws sha256 fs) where
  abbrev pub Ends : DeleteFileCommand → DeleteDraws → World S F → World S F → Type 0
  Ends cmd draws w x =
      (SameDurable (laws.view w.session) (laws.view x.session) × (x.storage ≡ w.storage))
      ⊎ ((file : FileRecord) × (m : FileModel) × Occurs m (laws.view w.session).files
          × (m.owner_id ≡ cmd.owner_id)
          × (file_entity m ≡ ok file)
          × SameDurable (Marked db fs laws storage_laws cmd draws file (laws.view w.session))
              (laws.view x.session)
          × ((x.storage ≡ w.storage) ⊎ (x.storage ≡ (fs.delete file.storage_key w.storage).1)))

  remove_bytes-storage :
      (file : FileRecord) (w : World S F)
      → ((remove_bytes db fs file w).1.session ≡ w.session)
        × ((remove_bytes db fs file w).1.storage ≡ (fs.delete file.storage_key w.storage).1)
  unfolding remove_bytes
  remove_bytes-storage file w = ground arith

  pub execute-Ends :
      (cmd : DeleteFileCommand) (draws : DeleteDraws) (w : World S F)
      → Ends cmd draws w (execute db fs cmd draws w).1
  unfolding execute
  execute-Ends cmd draws w =
      let durable = get_for_owner-Outcome db laws cmd.file_id cmd.owner_id w.session in
      elim (run-cases (FileRepository.get_for_owner db cmd.file_id cmd.owner_id w.session)) [
        | inr (r, s, e) ↦ inl (ground (arith, e, durable), ground (arith, e))
        | inl (none, s, e) ↦ inl (ground (arith, e, durable), ground (arith, e))
        | inl (some file, s, e) ↦
            let (m, there, id, owner, entity, same) =
              get_for_owner-found db laws cmd.file_id cmd.owner_id w.session s file e in
            let y : World S F = record w { session = s } in
            let law = mark_deleted-Outcome db fs laws storage_laws cmd draws file y in
            elim (Bool-cases (status_eq file.status deleted)) [
              | inl already ↦ inl (ground (arith, e, already, durable), ground (arith, e, already))
              | inr fresh ↦ elim (run-cases (mark_deleted db fs cmd draws file y)) [
                | inr (r, z, e2) ↦
                    let stopped : (execute db fs cmd draws w).1 ≡ z =
                      ground (arith, e, e2, fresh) in
                    let (outcome, kept) = Outcome-err _ _ _ r z law e2 in
                    elim outcome [
                      | inl nothing ↦ rw stopped (inl (ground (arith, nothing, same), kept))
                      | inr done ↦ rw stopped (
                          inr (file, m, there, owner, entity, ground (arith, done, same), inl kept))
                    ]
                | inl (u, z, e2) ↦
                    let removed = remove_bytes-storage file z in
                    inr (
                      file,
                      m,
                      there,
                      owner,
                      entity,
                      ground (arith, e, e2, fresh, law, removed, same),
                      inr (ground (arith, e, e2, fresh, law, removed)),
                    )
              ]
            ]
      ]
