-- ===== src/Storage/Local/Ready.antt =====
-- The probes of app/infrastructure/storage/local.py: `ensure_ready` at start-up, and `check`.
use secure_file_service.Storage.Paths.{names_eq}
use secure_file_service.Storage.Files.{
  content_of-remove_file, content_of-put_file, remove_file, put_file, names_eq_iff, Files,
  content_of,
}
use secure_file_service.Storage.Local.{Faults, Disk}
use secure_file_service.Prelude.{
  sym, [], codes, if◌then◌else◌, Text, Bool, ℕ, List, ◌++◌, ◌∷◌, none, false, refl, ◌≡◌, ◌≢◌, arith,
  Bool-cases, inl, inr, suc, ◌||◌,
}
use secure_file_service.Prelude.Results.{ok, err, Result}

-- What they raise: StorageNotWritable, or the OSError of another call.
pub data ReadyError : Type 0 where
  storage_not_writable failed_call : ReadyError

abbrev pub probe_path : List Text → Text → List Text
probe_path root hex = (codes ".probe-" ++ hex) ∷ codes ".tmp" ∷ root

-- `probe.write_bytes(b"ok")`: what it leaves when opening or writing fails.
unfoldable pub write_probe : List Text → Faults → Files → Result ReadyError Unit × Files
write_probe probe faults files =
    if faults.opening
    then (err storage_not_writable, files)
    else if faults.writing 0
    then (err storage_not_writable, put_file probe [] files)
    else (ok tt, put_file probe (codes "ok") files)

-- `finally: probe.unlink(missing_ok=True)`
abbrev remove_probe :
    List Text → Faults → Result ReadyError Unit × Files → Result ReadyError Unit × Files
remove_probe probe faults (r, files) =
    if faults.unlinking then (err failed_call, files) else (r, remove_file probe files)

-- `ensure_ready`; directories are left out of the state, since writing to them needs no more of
-- them than that they can be made.
unfoldable pub ensure_ready : (ℕ → Text) → List Text → Disk → Result ReadyError Unit × Disk
ensure_ready uuid4_hex root d =
    let probe = probe_path root (uuid4_hex d.drawn) in
    let (r, files) = remove_probe probe d.faults (write_probe probe d.faults d.files) in
    if d.faults.making_directory
    then (err failed_call, d)
    else (r, record d { files = files; drawn = suc d.drawn })

-- `check`, with what `os.access` says of the root.
unfoldable pub check : Bool → Result ReadyError Unit
check accessible = if accessible then ok tt else err storage_not_writable

module _ (uuid4_hex : ℕ → Text) (root : List Text) (d : Disk) where
  abbrev probe : List Text
  probe = probe_path root (uuid4_hex d.drawn)

  -- Whatever fails, the probe at start-up leaves every other file as it is.
  pub ensure_ready-leaves :
      (p : List Text)
      → p ≢ probe
      → content_of (ensure_ready uuid4_hex root d).1.files p ≡ content_of d.files p
  unfolding ensure_ready write_probe
  ensure_ready-leaves p other =
      let empty = content_of-put_file probe p [] d.files in
      let written = content_of-put_file probe p (codes "ok") d.files in
      let r0 = content_of-remove_file probe p d.files in
      let r1 = content_of-remove_file probe p (put_file probe [] d.files) in
      let r2 = content_of-remove_file probe p (put_file probe (codes "ok") d.files) in
      let apart : names_eq probe p ≡ false = elim (Bool-cases (names_eq probe p)) [
        | inl same ↦ absurd (other (sym ((names_eq_iff probe p).0 same)))
        | inr differ ↦ differ
      ] in
      ground (arith, empty, written, r0, r1, r2, apart)

  -- If it returns, a file could be written under the root, and the probe is gone.
  pub ensure_ready-proves :
      (ensure_ready uuid4_hex root d).0 ≡ ok tt
      → (content_of (ensure_ready uuid4_hex root d).1.files probe ≡ none)
        × ((d.faults.opening || (d.faults.writing 0 || d.faults.making_directory)) ≡ false)
  unfolding ensure_ready write_probe
  ensure_ready-proves h =
      let gone = content_of-remove_file probe probe (put_file probe (codes "ok") d.files) in
      ground (arith, h, gone, (names_eq_iff probe probe).1 refl)
