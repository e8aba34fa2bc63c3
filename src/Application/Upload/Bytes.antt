-- ===== src/Application/Upload/Bytes.antt =====
-- Which bytes an upload leaves in the storage.
use secure_file_service.Prelude.{
  ◌≤◌, ℕ, ◌≡◌, Text, none, some, true, false, ◌⊎◌, length, if◌then◌else◌,
}
use secure_file_service.Prelude.Results.{Result, ok, err}
use secure_file_service.Domain.Errors.{Exception}
use secure_file_service.Domain.Entities.{StoredObject}
use secure_file_service.Persistence.Session.{Session}
use secure_file_service.Storage.{payload, FileStorage, StorageLaws}
use secure_file_service.Application.World.{World}
use secure_file_service.Application.Upload.{UploadFileCommand, UploadFileResult, find_existing}

module _ {S F : Type 0} (db : Session S) (fs : FileStorage F) {sha256 : Text → Text}
    (laws : StorageLaws sha256 fs) where
  abbrev pub Same : F → F → Type 0
  Same f g = (k : Text) → laws.stored g k ≡ laws.stored f k

  -- The object under the key is gone, and the others are as before.
  abbrev Removed : Text → F → F → Type 0
  Removed key f g =
      (k : Text) → laws.stored g k ≡ (if laws.same_key key k then none else laws.stored f k)

  -- The exception is one that the lookup of the command's idempotency key or the deletion of the key
  -- has raised.
  abbrev pub Trouble : UploadFileCommand → Text → Exception → Type 0
  Trouble cmd key r =
      ((y : World S F) × (z : World S F) × (find_existing db fs cmd.owner_id cmd.idempotency_key y
          ≡ (err r, z)))
      ⊎ ((g : F) × (h : F) × (fs.delete key g ≡ (err r, h)))

  -- The end of a run that takes the object of the call back.
  abbrev Taken :
      UploadFileCommand → Text → F → Result Exception UploadFileResult × World S F → Type 0
  Taken cmd key f (ok r, x) = (r.replayed ≡ true) × Removed key f x.storage
  Taken cmd key f (err r, x) = Removed key f x.storage ⊎ (Same f x.storage × Trouble cmd key r)

  -- The end of a run behind the write: the object of the call is the one of the new file that is
  -- returned, or it is taken back, or the call raised what kept it from that.
  abbrev Settled :
      UploadFileCommand → StoredObject → F → Result Exception UploadFileResult × World S F → Type 0
  Settled cmd o f (ok r, x) =
      ((r.replayed ≡ true) × Removed o.storage_key f x.storage)
      ⊎ ((r.replayed ≡ false)
          × (x.storage ≡ f)
          × (r.file.storage_key ≡ o.storage_key)
          × (r.file.sha256 ≡ o.sha256)
          × (r.file.size_bytes ≡ o.size_bytes))
  Settled cmd o f (err r, x) =
      Removed o.storage_key f x.storage ⊎ (Same f x.storage × Trouble cmd o.storage_key r)

  -- Nothing but the content is stored beside what was, under the key.
  abbrev pub Stored : Text → Text → F → F → Type 0
  Stored key content f g =
      (k : Text)
      → laws.is_key k ≡ true
      → laws.stored g k ≡ (if laws.same_key key k then some content else laws.stored f k)

  -- What holds of the storage after a write that returned an object.
  abbrev Written : Text → ℕ → StoredObject → F → F → Type 0
  Written content max o f g =
      (laws.is_key o.storage_key ≡ true)
      × (1 ≤ o.size_bytes)
      × (o.size_bytes ≤ max)
      × (o.size_bytes ≡ length content)
      × (o.sha256 ≡ sha256 content)
      × Stored o.storage_key content f g

  -- Of the keys that a write gives out: the object under the key is gone, and the others are as
  -- before.
  abbrev pub Cleared : Text → F → F → Type 0
  Cleared key f g =
      (k : Text)
      → laws.is_key k ≡ true
      → laws.stored g k ≡ (if laws.same_key key k then none else laws.stored f k)

  abbrev pub Leaves :
      UploadFileCommand → ℕ → F → Result Exception UploadFileResult × World S F → Type 0
  Leaves cmd max f (ok r, x) =
      ((r.replayed ≡ true) × ((key : Text) × Cleared key f x.storage))
      ⊎ ((r.replayed ≡ false)
          × (1 ≤ length (payload cmd.stream))
          × (length (payload cmd.stream) ≤ max)
          × (r.file.size_bytes ≡ length (payload cmd.stream))
          × (r.file.sha256 ≡ sha256 (payload cmd.stream))
          × Stored r.file.storage_key (payload cmd.stream) f x.storage)
  Leaves cmd max f (err r, x) =
      ((k : Text) → laws.is_key k ≡ true → laws.stored x.storage k ≡ laws.stored f k)
      ⊎ ((key : Text) × (Cleared key f x.storage
            ⊎ (Stored key (payload cmd.stream) f x.storage × Trouble cmd key r)))
