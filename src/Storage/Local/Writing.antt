-- ===== src/Storage/Local/Writing.antt =====
-- What `LocalFileStorage.write` of app/infrastructure/storage/local.py leaves on the disk.
use secure_file_service.Prelude.{
  All, refl, inl, none, false, some, inr, append_assoc, length-append, ◌+◌, append-nil, arith, ◌++◌,
  if◌then◌else◌, [], suc, length, ◌∷◌, Text, List, Bool, ℕ, ◌≡◌, ◌≤◌,
}
use secure_file_service.Exec.{Outcome, run-cases}
use secure_file_service.Storage.{payload, Exception, chunk, fails, StoredObject, ok, Stream}
use secure_file_service.Storage.Local.{
  new_key, path_for, copy, Disk, Faults, write, finish, write_body, clean_up, part_path,
}
use secure_file_service.Storage.Paths.{names_eq, path_for, new_key}
use secure_file_service.Prelude.Results.{err, Result-cases}
use secure_file_service.Storage.Paths.Containment.{path_for-new_key, IsHex, names_eq_refl}
use secure_file_service.Storage.Files.{
  put_file, remove_file, content_of, Files, content_of-remove_file, content_of-put_file,
}

-- A loop that ends well has written the whole payload, within the limit.
copy-ok :
    (max : ℕ) (writing : ℕ → Bool) (i : ℕ) (size : ℕ) (written content : Text) (stream : Stream)
    → size ≡ length written
    → size ≤ max
    → copy max writing i size written stream ≡ (ok tt, content)
    → (content ≡ written ++ payload stream) × (length content ≤ max)
unfolding copy payload
copy-ok max writing i size written content [] hs hm e =
    (ground (arith, append-nil written), ground arith)
copy-ok max writing i size written content (fails x ∷ reads) hs hm e = absurd (ground arith)
copy-ok max writing i size written content (chunk [] ∷ reads) hs hm e =
    (ground (arith, append-nil written), ground arith)
copy-ok max writing i size written content (chunk (b ∷ bytes) ∷ reads) hs hm e =
    let more =
      copy-ok max writing (suc i) (size + length (b ∷ bytes)) (written ++ b ∷ bytes) content
        reads in
    let grown = length-append written (b ∷ bytes) in
    let joined = append_assoc written (b ∷ bytes) (payload reads) in
    ground (arith, more, grown, joined)

-- What a write that returns `o` has done to the files.
abbrev pub Written :
    (Text → Text) → List Text → List Text → ℕ → Text → Files → StoredObject → Files → Type 0
Written sha256 root part max content before o after =
    (final : List Text) × (path_for root o.storage_key ≡ ok final)
    × (1 ≤ o.size_bytes)
    × (o.size_bytes ≤ max)
    × (o.size_bytes ≡ length content)
    × (o.sha256 ≡ sha256 content)
    × ((p : List Text)
        → content_of after p ≡ (
            if names_eq final p
            then some content
            else if names_eq part p
            then none
            else content_of before p))

-- What a write that raises may have done to the files.
abbrev pub Undone : Faults → List Text → Files → Files → Type 0
Undone faults part before after =
    ((p : List Text) → names_eq part p ≡ false → content_of after p ≡ content_of before p)
    × (faults.unlinking ≡ false → content_of before part ≡ none → content_of after part ≡ none)

write_body-ok :
    (max : ℕ) (faults : Faults) (final part : List Text) (stream : Stream) (files : Files)
    (content : Text) (after : Files)
    → write_body max faults final part stream files ≡ (ok content, after)
    → (content ≡ payload stream)
      × (1 ≤ length content)
      × (length content ≤ max)
      × (after ≡ put_file final content (remove_file part files))
unfolding write_body finish
write_body-ok max faults final part stream files content after h =
    elim (run-cases (copy max faults.writing 0 0 [] stream)) [
      | inl (u, written, e) ↦
          let copied = copy-ok max faults.writing 0 0 [] written stream refl (ground arith) e in
          ground (arith, e, h, copied)
      | inr (x, written, e) ↦ absurd (ground (arith, e, h))
    ]

write_body-err :
    (max : ℕ) (faults : Faults) (final part : List Text) (stream : Stream) (files : Files)
    (x : Exception) (after : Files)
    → write_body max faults final part stream files ≡ (err x, after)
    → (p : List Text) → names_eq part p ≡ false
    → content_of after p ≡ content_of files p
unfolding write_body finish
write_body-err max faults final part stream files x after h p apart =
    elim (run-cases (copy max faults.writing 0 0 [] stream)) [
      | inl (u, written, e) ↦ ground (arith, e, h, apart, content_of-put_file part p written files)
      | inr (y, written, e) ↦ ground (arith, e, h, apart, content_of-put_file part p written files)
    ]

clean_up-Undone :
    (faults : Faults) (part : List Text) (x : Exception) (before after : Files)
    → ((p : List Text) → names_eq part p ≡ false → content_of after p ≡ content_of before p)
    → Undone faults part before (clean_up faults part x after).1
unfolding clean_up
clean_up-Undone faults part x before after same = (
  (λ p apart. ground (arith, content_of-remove_file part p after, same p apart)),
  (λ works absent. ground (arith, content_of-remove_file part part after, names_eq_refl part)),
)

module _ (sha256 : Text → Text) (uuid4_hex : ℕ → Text) (root : List Text) where
  -- However its calls fail, a write that returns has stored the bytes of its stream, from 1 to `max`
  -- of them, whole under the path of the key it reports, with their length and digest, and has
  -- removed the temporary file; a write that raises has changed no other file than the temporary
  -- one, and that one is absent afterwards if it was before and `unlink` works.
  pub write-Written :
      (stream : Stream) (max : ℕ) (d : Disk)
      → let part = part_path sha256 uuid4_hex root (uuid4_hex (suc d.drawn)) in
        Outcome
          (λ o e. Written sha256 root part max (payload stream) d.files o e.files)
          (λ e. Undone d.faults part d.files e.files)
          (write sha256 uuid4_hex root stream max d)
  unfolding write
  write-Written stream max d =
      let key = new_key (uuid4_hex d.drawn) in
      let part = part_path sha256 uuid4_hex root (uuid4_hex (suc d.drawn)) in
      elim (Result-cases (path_for root key)) [
        | inr (x, e) ↦ ground (arith, e)
        | inl (final, e) ↦ elim (run-cases (write_body max d.faults final part stream d.files)) [
          | inl (content, after, eb) ↦
              let body = write_body-ok max d.faults final part stream d.files content after eb in
              let same =
                λ (p : List Text). content_of-put_file final p content (remove_file part d.files) in
              let gone = λ (p : List Text). content_of-remove_file part p d.files in
              ground (arith, e, eb, body, same, gone)
          | inr (x, after, eb) ↦
              let undone =
                clean_up-Undone d.faults part x d.files after
                  (write_body-err max d.faults final part stream d.files x after eb) in
              ground (arith, e, eb, undone)
        ]
      ]

-- A stream whose reads all return.
abbrev pub NeverFails : Stream → Type 0
NeverFails [] = Unit
NeverFails (fails e ∷ reads) = ⊥
NeverFails (chunk bytes ∷ reads) = NeverFails reads

-- A disk on which no call raises.
abbrev pub Works : Faults → Type 0
Works f =
    (f.opening ≡ false)
    × ((i : ℕ) → f.writing i ≡ false)
    × (f.syncing ≡ false)
    × (f.making_directory ≡ false)
    × (f.replacing ≡ false)

copy-returns :
    (max : ℕ) (writing : ℕ → Bool) (i : ℕ) (size : ℕ) (written : Text) (stream : Stream)
    → NeverFails stream
    → ((i : ℕ) → writing i ≡ false)
    → size + length (payload stream) ≤ max
    → (content : Text) × (copy max writing i size written stream ≡ (ok tt, content))
unfolding copy payload
copy-returns max writing i size written [] h works fits = (written, refl)
copy-returns max writing i size written (fails x ∷ reads) h works fits = absurd h
copy-returns max writing i size written (chunk [] ∷ reads) h works fits = (written, refl)
copy-returns max writing i size written (chunk (b ∷ bytes) ∷ reads) h works fits =
    let grown = length-append (b ∷ bytes) (payload reads) in
    let (content, e) =
      copy-returns max writing (suc i) (size + length (b ∷ bytes)) (written ++ b ∷ bytes) reads h
        works (ground (arith, fits, grown)) in
    (content, ground (arith, e, works i, fits, grown))

module _ (sha256 : Text → Text) (uuid4_hex : ℕ → Text) (root : List Text) where
  -- A write returns if no call fails, the stream gives from 1 to `max` bytes and the random name of
  -- the key is made of hexadecimal digits.
  pub write-returns :
      (stream : Stream) (max : ℕ) (d : Disk) (a b : ℕ) (rest : Text)
      → uuid4_hex d.drawn ≡ a ∷ b ∷ rest
      → All IsHex (a ∷ b ∷ rest)
      → Works d.faults
      → NeverFails stream
      → 1 ≤ length (payload stream)
      → length (payload stream) ≤ max
      → (o : StoredObject) × (e : Disk) × (write sha256 uuid4_hex root stream max d ≡ (ok o, e))
  unfolding write write_body finish
  write-returns stream max d a b rest drawn hex works never some_bytes fits =
      let placed : path_for root (new_key (uuid4_hex d.drawn))
          ≡ ok ((a ∷ b ∷ rest) ∷ (a ∷ b ∷ []) ∷ root) =
        rw drawn (path_for-new_key root a b rest hex) in
      let (content, e) =
        copy-returns max d.faults.writing 0 0 [] stream never works.1 (ground (arith, fits)) in
      let all = copy-ok max d.faults.writing 0 0 [] content stream refl (ground arith) e in
      elim (run-cases (write sha256 uuid4_hex root stream max d)) [
        | inl (o, after, ok_run) ↦ (o, after, ok_run)
        | inr (x, after, err_run) ↦
            absurd (ground (arith, placed, e, all, works, some_bytes, err_run))
      ]
