-- ===== src/Storage/Local.antt =====
-- `LocalFileStorage` of app/infrastructure/storage/local.py. The state holds the files, how many
-- random names have been drawn, and which calls of the operating system fail. `uuid4_hex i` is the
-- name that the draw `i` of `uuid.uuid4().hex` gives.
pub mod Writing
pub mod Refinement
pub mod Reading
pub mod Ready
use secure_file_service.Prelude.{
  ◌||◌, ℕ, suc, ◌+◌, Text, codes, arith, Option, none, some, List, [], ◌∷◌, ◌++◌, Bool, true, false,
  if◌then◌else◌, length, ltb, ◌==◌, is_none, not,
}
use secure_file_service.Prelude.Results.{Result, ok, err}
use secure_file_service.Exec.{Exec}
use secure_file_service.Domain.Errors.{Exception, domain, upload_too_large, empty_upload, os_error}
use secure_file_service.Domain.Entities.{StoredObject}
use secure_file_service.Storage.{FileStorage, Stream, Read, chunk, fails}
use secure_file_service.Storage.Paths.{show_path, new_key, path_for}
use secure_file_service.Storage.Files.{Files, content_of, put_file, remove_file}

-- `true` for a call that raises OSError.
pub record Faults : Type 0 where
  pub opening : Bool
  pub writing : ℕ → Bool
  pub syncing : Bool
  pub making_directory : Bool
  pub replacing : Bool
  pub unlinking : Bool

pub record Disk : Type 0 where
  pub files : Files
  pub drawn : ℕ
  pub faults : Faults

-- The copying loop: how it ends, and the bytes that the temporary file then holds. The digest is
-- updated with the same bytes.
unfoldable pub copy : ℕ → (ℕ → Bool) → ℕ → ℕ → Text → Stream → Result Exception Unit × Text
copy max writing i size written [] = (ok tt, written)
copy max writing i size written (fails e ∷ reads) = (err e, written)
copy max writing i size written (chunk [] ∷ reads) = (ok tt, written)
copy max writing i size written (chunk (b ∷ bytes) ∷ reads) =
    let size' = size + length (b ∷ bytes) in
    let rest = copy max writing (suc i) size' (written ++ b ∷ bytes) reads in
    if ltb max size'
    then (err (domain (upload_too_large max)), written)
    else if writing i
    then (err os_error, written)
    else rest

-- From the end of the loop to the rename: every step may fail, and an empty file is refused.
unfoldable pub finish : Faults → Result Exception Unit → Text → Result Exception Unit
finish faults (err e) written = err e
finish faults (ok _) written =
    if faults.syncing
    then err os_error
    else if length written == 0
    then err (domain empty_upload)
    else if faults.making_directory || faults.replacing
    then err os_error
    else ok tt

-- The body of the outer `try`: the result, and the files before the cleanup.
unfoldable pub write_body :
    ℕ → Faults → List Text → List Text → Stream → Files → Result Exception Text × Files
write_body max faults final part stream files =
    if faults.opening
    then (err os_error, files)
    else let (copied, written) = copy max faults.writing 0 0 [] stream in
      elim (finish faults copied written) [
        | ok _ ↦ (ok written, put_file final written (remove_file part files))
        | err e ↦ (err e, put_file part written files)
      ]

-- `except BaseException: tmp_path.unlink(missing_ok=True); raise`
unfoldable pub clean_up : Faults → List Text → Exception → Files → Exception × Files
clean_up faults part e files =
    if faults.unlinking then (os_error, files) else (e, remove_file part files)

-- `str(path)`
abbrev path_text : Result Exception (List Text) → Result Exception Text
path_text (ok path) = ok (show_path path)
path_text (err e) = err e

module _ (sha256 : Text → Text) (uuid4_hex : ℕ → Text) (root : List Text) where
  abbrev pub part_path : Text → List Text
  part_path hex = (hex ++ codes ".part") ∷ codes ".tmp" ∷ root

  abbrev after_body :
      Text
      → Faults
      → List Text
      → Result Exception Text × Files
      → Result Exception StoredObject × Files
  after_body key faults part (ok written, files) = (
    ok (record { storage_key = key; size_bytes = length written; sha256 = sha256 written }),
    files,
  )
  after_body key faults part (err e, files) =
      let (raised, files') = clean_up faults part e files in (err raised, files')

  unfoldable pub write : Stream → ℕ → Exec Disk StoredObject
  write stream max d =
      let key = new_key (uuid4_hex d.drawn) in
      let part = part_path (uuid4_hex (suc d.drawn)) in
      elim (path_for root key) [
        | err e ↦ (err e, record d { drawn = suc d.drawn })
        | ok final ↦
            let (r, files) =
              after_body key d.faults part (write_body max d.faults final part stream d.files) in
            (r, record d { files = files; drawn = suc (suc d.drawn) })
      ]

  unfoldable pub exists : Text → Exec Disk Bool
  exists storage_key d = elim (path_for root storage_key) [
    | err e ↦ (err e, d)
    | ok path ↦ (ok (not (is_none (content_of d.files path))), d)
  ]

  -- `unlink(missing_ok=True)`
  unfoldable pub delete : Text → Exec Disk Unit
  delete storage_key d = elim (path_for root storage_key) [
    | err e ↦ (err e, d)
    | ok path ↦
        if d.faults.unlinking
        then (err os_error, d)
        else (ok tt, record d { files = remove_file path d.files })
  ]

  -- The class as an implementation of the port.
  unfoldable pub local_storage : FileStorage Disk
  local_storage = record {
    write = write;
    path_for = λ key. path_text (path_for root key);
    exists = exists;
    delete = delete;
  }
