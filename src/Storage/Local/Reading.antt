-- ===== src/Storage/Local/Reading.antt =====
-- `LocalFileStorage.open`: the bytes of an object, chunk by chunk.
use secure_file_service.Storage.Paths.Containment.{names_eq_refl}
use secure_file_service.Exec.{Outcome-ok}
use secure_file_service.Domain.Entities.{StoredObject}
use secure_file_service.Storage.Files.{content_of}
use secure_file_service.Storage.Paths.{resolve_key, path_for}
use secure_file_service.Domain.Errors.{os_error, Exception}
use secure_file_service.Prelude.Results.{Result-cases, ok, err, Result}
use secure_file_service.Storage.{payload, Stream}
use secure_file_service.Storage.Local.{write, Disk}
use secure_file_service.Storage.Local.Refinement.{stored, local_write_law, IsUuidHex}
use secure_file_service.Prelude.{
  inr, inl, refl, zero, length-take-le, ◌==◌, All, arith, ap, if◌then◌else◌, ◌<◌, ◌≡◌, drop, suc,
  length, ◌++◌, ◌≤◌, take, ◌∷◌, [], Option, Text, List, ℕ, none, some,
}

-- `while chunk := fh.read(self._chunk)`, which ends at the first empty chunk; the fuel bounds the
-- calls of `read`.
unfoldable pub read_chunks : ℕ → ℕ → Text → List Text
read_chunks zero size content = []
read_chunks (suc fuel) size content =
    let rest = read_chunks fuel size (drop size content) in
    if length (take size content) == 0 then [] else take size content ∷ rest

abbrev pub concat : List Text → Text
concat [] = []
concat (s ∷ ss) = s ++ concat ss

abbrev of_content : ℕ → Option Text → Result Exception (List Text)
of_content size none = err os_error
of_content size (some content) = ok (read_chunks (suc (length content)) size content)

module _ (root : List Text) (chunk_size : ℕ) where
  -- `open`: a missing file raises FileNotFoundError, an OSError.
  unfoldable pub open_object : Text → Disk → Result Exception (List Text)
  open_object storage_key d = elim (path_for root storage_key) [
    | err e ↦ err e
    | ok path ↦ of_content chunk_size (content_of d.files path)
  ]

take-drop : (n : ℕ) (s : Text) → take n s ++ drop n s ≡ s
take-drop zero s = refl
take-drop (suc n) [] = refl
take-drop (suc n) (c ∷ s) = ap (λ t. c ∷ t) (take-drop n s)

length-drop-lt : (n : ℕ) (c : ℕ) (s : Text) → 1 ≤ n → length (drop n (c ∷ s)) < length (c ∷ s)
length-drop-lt zero c s h = absurd (omega arith)
length-drop-lt (suc n) c s h = le n s
  where
    le : (k : ℕ) (t : Text) → length (drop k t) < suc (length t)
    le zero t = omega arith
    le (suc k) [] = omega arith
    le (suc k) (x ∷ t) = omega (arith, le k t)

-- A chunk is not empty and no longer than was asked for.
abbrev pub IsChunk : ℕ → Text → Type 0
IsChunk size s = (1 ≤ length s) × (length s ≤ size)

read_chunks-step :
    (fuel size c : ℕ) (s : Text)
    → 1 ≤ size
    → (read_chunks (suc fuel) size (c ∷ s)
        ≡ take size (c ∷ s) ∷ read_chunks fuel size (drop size (c ∷ s)))
      × IsChunk size (take size (c ∷ s))
unfolding read_chunks
read_chunks-step fuel zero c s h = absurd (omega arith)
read_chunks-step fuel (suc size) c s h =
    (ground arith, (omega (arith, length-take-le size s), omega (arith, length-take-le size s)))

read_chunks-empty : (fuel size : ℕ) → read_chunks fuel size [] ≡ []
unfolding read_chunks
read_chunks-empty zero size = refl
read_chunks-empty (suc fuel) zero = refl
read_chunks-empty (suc fuel) (suc size) = refl

read_chunks-content :
    (fuel size : ℕ) (content : Text)
    → 1 ≤ size
    → length content < fuel
    → (concat (read_chunks fuel size content) ≡ content)
      × All (IsChunk size) (read_chunks fuel size content)
read_chunks-content zero size content h enough = absurd (omega arith)
read_chunks-content (suc fuel) size [] h enough = rw (read_chunks-empty (suc fuel) size) (refl, tt)
read_chunks-content (suc fuel) size (c ∷ s) h enough =
    let less = length-drop-lt size c s h in
    let (step, is) = read_chunks-step fuel size c s h in
    let (whole, all) = read_chunks-content fuel size (drop size (c ∷ s)) h (omega (arith, less)) in
    rw (step, whole) (take-drop size (c ∷ s), (is, all))

module _ (sha256 : Text → Text) (uuid4_hex : ℕ → Text) (uuid4 : (i : ℕ) → IsUuidHex (uuid4_hex i))
    (root : List Text) (chunk_size : ℕ) where
  open_object-stored :
      (key content : Text) (d : Disk)
      → stored sha256 uuid4_hex uuid4 root d key ≡ some content
      → open_object root chunk_size key d
        ≡ ok (read_chunks (suc (length content)) chunk_size content)
  unfolding open_object
  open_object-stored key content d h = elim (Result-cases (path_for root key)) [
    | inl (p, e) ↦ ground (arith, e, h)
    | inr (x, e) ↦ absurd (ground (arith, e, h))
  ]

  -- What a write that returns has stored is read back: opening its key gives non-empty chunks of at
  -- most the chunk size that together are the bytes of the stream.
  pub open_object-write :
      (stream : Stream) (max : ℕ) (d e : Disk) (o : StoredObject)
      → 1 ≤ chunk_size
      → write sha256 uuid4_hex root stream max d ≡ (ok o, e)
      → (chunks : List Text) × (open_object root chunk_size o.storage_key e ≡ ok chunks)
        × (concat chunks ≡ payload stream)
        × All (IsChunk chunk_size) chunks
  open_object-write stream max d e o h written =
      let (is_key, some_bytes, bounded, size, hash, law) =
        Outcome-ok _ _ _ o e (local_write_law sha256 uuid4_hex uuid4 root stream max d) written in
      let content = payload stream in
      let there : stored sha256 uuid4_hex uuid4 root e o.storage_key ≡ some content =
        ground (arith, law o.storage_key is_key, names_eq_refl (resolve_key root o.storage_key)) in
      let (whole, all) =
        read_chunks-content (suc (length content)) chunk_size content h (omega arith) in
      (
        read_chunks (suc (length content)) chunk_size content,
        open_object-stored o.storage_key content e there,
        whole,
        all,
      )
