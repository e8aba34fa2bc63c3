-- ===== src/Application/Upload/Steps.antt =====
-- The steps of an upload one by one: what each leaves alone, and how it goes on behind a call.
use secure_file_service.Prelude.{ℕ, ◌≡◌, refl, Text, [], ◌∷◌, ◌++◌, arith, Option, none, some}
use secure_file_service.Prelude.Results.{ok, err}
use secure_file_service.Domain.Errors.{Exception}
use secure_file_service.Domain.Entities.{FileRecord, StoredObject}
use secure_file_service.Persistence.Session.{Session}
use secure_file_service.Storage.{FileStorage}
use secure_file_service.Application.World.{World}
use secure_file_service.Application.Upload.{
  exception_type, upload_failures, UploadFileCommand, UploadDraws, new_record, replay,
  find_existing, on_failure, persist, store_new, proceed, execute,
}

module _ {S F : Type 0} (db : Session S) (fs : FileStorage F) where
  -- The database steps do not touch the storage.
  pub persist-storage :
      (cmd : UploadFileCommand) (draws : UploadDraws) (file : FileRecord) (w : World S F)
      → (persist db fs cmd draws file w).1.storage ≡ w.storage
  unfolding persist
  persist-storage cmd draws file w = refl

  pub find_existing-storage :
      (owner_id : Text) (key : Option Text) (w : World S F)
      → (find_existing db fs owner_id key w).1.storage ≡ w.storage
  unfolding find_existing
  find_existing-storage owner_id key w = ground arith

  -- One step of each method, by how the call that it waits for ends.
  pub store_new-err :
      (cmd : UploadFileCommand) (draws : UploadDraws) (o : StoredObject) (w x : World S F)
      (r : Exception)
      → persist db fs cmd draws (new_record cmd draws o) w ≡ (err r, x)
      → store_new db fs cmd draws o w ≡ on_failure db fs cmd o r x
  unfolding store_new
  store_new-err cmd draws o w x r e = ground arith

  pub proceed-found :
      (cmd : UploadFileCommand) (draws : UploadDraws) (o : StoredObject) (w x : World S F)
      (file : FileRecord)
      → find_existing db fs cmd.owner_id cmd.idempotency_key w ≡ (ok (some file), x)
      → proceed db fs cmd draws o w ≡ replay db fs file o x
  unfolding proceed
  proceed-found cmd draws o w x file e = ground arith

  pub proceed-absent :
      (cmd : UploadFileCommand) (draws : UploadDraws) (o : StoredObject) (w x : World S F)
      → find_existing db fs cmd.owner_id cmd.idempotency_key w ≡ (ok none, x)
      → proceed db fs cmd draws o w ≡ store_new db fs cmd draws o x
  unfolding proceed
  proceed-absent cmd draws o w x e = ground arith

  pub execute-written :
      (max : ℕ) (cmd : UploadFileCommand) (draws : UploadDraws) (w : World S F) (o : StoredObject)
      (f : F)
      → fs.write cmd.stream max w.storage ≡ (ok o, f)
      → execute db fs max cmd draws w ≡ proceed db fs cmd draws o (record w { storage = f })
  unfolding execute
  execute-written max cmd draws w o f e = ground arith

  pub execute-unwritten :
      (max : ℕ) (cmd : UploadFileCommand) (draws : UploadDraws) (w : World S F) (r : Exception)
      (f : F)
      → fs.write cmd.stream max w.storage ≡ (err r, f)
      → (x : World S F) × (execute db fs max cmd draws w ≡ (err r, x)) × (x.storage ≡ f)
  unfolding execute
  execute-unwritten max cmd draws w r f e = (
    record w { storage = f; metrics = w.metrics ++ upload_failures (exception_type r) ∷ [] },
    ground arith,
    refl,
  )
