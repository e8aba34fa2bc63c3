-- ===== src/Application/Upload/Branches.antt =====
-- The path on which an upload leaves bytes with no record.
use secure_file_service.Prelude.{ℕ, ◌≡◌, Text, arith, some}
use secure_file_service.Prelude.Results.{ok, err}
use secure_file_service.Exec.{Outcome-ok}
use secure_file_service.Domain.Errors.{Exception}
use secure_file_service.Domain.Entities.{StoredObject}
use secure_file_service.Persistence.Session.{Session}
use secure_file_service.Storage.{payload, FileStorage, StorageLaws}
use secure_file_service.Application.World.{World}
use secure_file_service.Application.Upload.Steps.{find_existing-storage}
use secure_file_service.Application.Upload.{
  UploadFileCommand, UploadDraws, find_existing, proceed, execute,
}

module _ {S F : Type 0} (db : Session S) (fs : FileStorage F) (max : ℕ) (cmd : UploadFileCommand)
    (draws : UploadDraws) (w : World S F) {o : StoredObject} {f : F}
    (written : fs.write cmd.stream max w.storage ≡ (ok o, f)) where
  -- If the lookup of the idempotency key raises, the upload raises the same exception, and the new
  -- bytes stay stored under their key: no later step of the call removes them.
  pub execute_leaves_orphan :
      {sha256 : Text → Text} (laws : StorageLaws sha256 fs) (e : Exception) {x : World S F}
      → find_existing db fs cmd.owner_id cmd.idempotency_key (record w { storage = f }) ≡ (err e, x)
      → ((execute db fs max cmd draws w).0 ≡ err e)
        × (laws.stored (execute db fs max cmd draws w).1.storage o.storage_key
            ≡ some (payload cmd.stream))
  unfolding execute proceed
  execute_leaves_orphan laws e lookup_raised =
      let same =
        rw lookup_raised at (
          find_existing-storage db fs cmd.owner_id cmd.idempotency_key
            (record w { storage = f })) in
      let (keyed, low, high, size, hash, put) =
        Outcome-ok _ _ _ o f (laws.write_law cmd.stream max w.storage) written in
      (ground arith, ground (arith, put o.storage_key keyed, laws.same_key_refl o.storage_key))
