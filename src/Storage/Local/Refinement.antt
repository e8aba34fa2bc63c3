-- ===== src/Storage/Local/Refinement.antt =====
-- `LocalFileStorage` does what the handlers rely on: it is an implementation of the port, with its
-- laws.
use secure_file_service.Domain.Entities.{StoredObject}
use secure_file_service.Exec.{Outcome-err, Outcome-ok, run-cases, Outcome}
use secure_file_service.Storage.{StorageLaws, payload, Stream}
use secure_file_service.Storage.Local.{
  local_storage, write_body, write, delete, exists, part_path, Disk,
}
use secure_file_service.Storage.Files.{content_of-remove_file, remove_file, content_of, Files}
use secure_file_service.Domain.Errors.{os_error, Exception}
use secure_file_service.Prelude.Results.{Result-cases, err, ok, Result}
use secure_file_service.Storage.Paths.{resolve_key, names_eq, path_for, new_key}
use secure_file_service.Prelude.{
  ◌⊎◌, Bool-cases, suc, inr, inl, is_none, some, if◌then◌else◌, not, false, ap, none, refl, Option,
  ◌||◌, sym, [], text_eq_iff, arith, text_eq, ◌&&◌, ◌∙◌, ◌∷◌, text_eq_refl, drop, ◌∷◌, leb, length,
  ◌≤◌, true, Bool, All, List, ℕ, Text, ◌≡◌,
}
use secure_file_service.Storage.Local.Writing.{write-Written}
use secure_file_service.Storage.Paths.Containment.{
  path_for-new_key, IsHex, names_eq_refl, names_eq_sound,
}

-- The names that `uuid.uuid4().hex` gives: at least two hexadecimal digits.
abbrev pub IsUuidHex : Text → Type 0
IsUuidHex s = All IsHex s × (2 ≤ length s)

abbrev pub is_hex : ℕ → Bool
is_hex c = (leb b'0' c && leb c b'9') || (leb b'a' c && leb c b'f')

abbrev pub all_hex : Text → Bool
all_hex [] = true
all_hex (c ∷ s) = is_hex c && all_hex s

-- The keys that `new_key` makes.
unfoldable pub is_generated : Text → Bool
is_generated key =
    let name = drop 3 key in text_eq key (new_key name) && (all_hex name && leb 2 (length name))

all_hex-All : (s : Text) → all_hex s ≡ true → All IsHex s
all_hex-All [] h = tt
all_hex-All (c ∷ s) h = (ground arith, all_hex-All s (ground arith))

All-all_hex : (s : Text) → All IsHex s → all_hex s ≡ true
All-all_hex [] h = refl
All-all_hex (c ∷ s) (hc, h) = ground (arith, All-all_hex s h)

drop-new_key : (name : Text) → 2 ≤ length name → drop 3 (new_key name) ≡ name
unfolding new_key
drop-new_key [] h = absurd (omega arith)
drop-new_key (a ∷ []) h = absurd (omega arith)
drop-new_key (a ∷ b ∷ name) h = refl

new_key-is_generated : (name : Text) → IsUuidHex name → is_generated (new_key name) ≡ true
unfolding is_generated
new_key-is_generated name (hex, long) =
    let back = drop-new_key name long in
    rw (back, text_eq_refl, All-all_hex name hex) (ground arith)

is_generated-parts :
    (key : Text) → is_generated key ≡ true → (name : Text) × (key ≡ new_key name) × IsUuidHex name
unfolding is_generated
is_generated-parts key h =
    let name = drop 3 key in
    (
      name,
      (text_eq_iff key (new_key name)).0 (ground arith),
      (all_hex-All name (ground arith), ground arith),
    )

two_letters : (name : Text) → 2 ≤ length name → (a b : ℕ) × (rest : Text) × (name ≡ a ∷ b ∷ rest)
two_letters [] h = absurd (omega arith)
two_letters (a ∷ []) h = absurd (omega arith)
two_letters (a ∷ b ∷ rest) h = (a, b, rest, refl)

module _ (root : List Text) where
  path_for-resolve_key :
      (key : Text) (p : List Text) → path_for root key ≡ ok p → p ≡ resolve_key root key
  unfolding path_for
  path_for-resolve_key key p h = ground arith

  abbrev pub same_object : Text → Text → Bool
  same_object j k = names_eq (resolve_key root j) (resolve_key root k)

  -- A generated key lies two levels below the root, under a directory with a name of two letters.
  generated_path :
      (key : Text)
      → is_generated key ≡ true
      → (a b : ℕ) × (rest : Text) × (key ≡ new_key (a ∷ b ∷ rest))
        × (path_for root key ≡ ok ((a ∷ b ∷ rest) ∷ (a ∷ b ∷ []) ∷ root))
  generated_path key h =
      let (name, same, (hex, long)) = is_generated-parts key h in
      let (a, b, rest, split) = two_letters name long in
      (
        a,
        b,
        rest,
        same ∙ ap new_key split,
        rw (same, split) (path_for-new_key root a b rest (rw split at hex)),
      )

  same_object_eq :
      (j k : Text) → is_generated j ≡ true → is_generated k ≡ true → same_object j k ≡ true → j ≡ k
  same_object_eq j k hj hk same =
      let (a, b, r, ej, pj) = generated_path j hj in
      let (c, d, s, ek, pk) = generated_path k hk in
      let meet = names_eq_sound _ _ same in
      let path = path_for-resolve_key j _ pj ∙ meet ∙ sym (path_for-resolve_key k _ pk) in
      let name : a ∷ b ∷ r ≡ c ∷ d ∷ s = ground (arith, path) in ej ∙ ap new_key name ∙ sym ek

  abbrev pub stored_at : Result Exception (List Text) → Files → Option Text
  stored_at (ok p) files = content_of files p
  stored_at (err e) files = none

module _ (sha256 : Text → Text) (uuid4_hex : ℕ → Text) (uuid4 : (i : ℕ) → IsUuidHex (uuid4_hex i))
    (root : List Text) where
  abbrev pub stored : Disk → Text → Option Text
  stored d key = stored_at root (path_for root key) d.files

  -- The temporary file is not one of the objects.
  part_path-apart :
      (hex : Text) (key : Text) (p : List Text)
      → is_generated key ≡ true
      → path_for root key ≡ ok p
      → names_eq (part_path sha256 uuid4_hex root hex) p ≡ false
  unfolding names_eq text_eq
  part_path-apart hex key p is e =
      let (a, b, rest, same, path) = generated_path root key is in
      let place : p ≡ (a ∷ b ∷ rest) ∷ (a ∷ b ∷ []) ∷ root = ground (arith, e, path) in
      rw place (ground arith)

  write-storage_key :
      (stream : Stream) (max : ℕ) (d e : Disk) (o : StoredObject)
      → write sha256 uuid4_hex root stream max d ≡ (ok o, e)
      → o.storage_key ≡ new_key (uuid4_hex d.drawn)
  unfolding write
  write-storage_key stream max d e o h =
      elim (Result-cases (path_for root (new_key (uuid4_hex d.drawn)))) [
        | inr (x, bad) ↦ absurd (ground (arith, bad, h))
        | inl (final, at) ↦
            let part = part_path sha256 uuid4_hex root (uuid4_hex (suc d.drawn)) in
            elim (run-cases (write_body max d.faults final part stream d.files)) [
              | inl (content, after, body) ↦ ground (arith, at, body, h)
              | inr (x, after, body) ↦ absurd (ground (arith, at, body, h))
            ]
      ]

  -- The object under a generated key, by the file at its path.
  stored-content_of :
      (d : Disk) (key : Text) (p : List Text)
      → path_for root key ≡ ok p
      → stored d key ≡ content_of d.files p
  stored-content_of d key p e = rw e refl

  pub local_write_law :
      (stream : Stream) (max : ℕ) (d : Disk)
      → Outcome
          (λ o e.
            (is_generated o.storage_key ≡ true)
            × (1 ≤ o.size_bytes)
            × (o.size_bytes ≤ max)
            × (o.size_bytes ≡ length (payload stream))
            × (o.sha256 ≡ sha256 (payload stream))
            × ((k : Text)
                → is_generated k ≡ true
                → stored e k ≡ (
                    if same_object root o.storage_key k
                    then some (payload stream)
                    else stored d k)))
          (λ e. (k : Text) → is_generated k ≡ true → stored e k ≡ stored d k)
          (write sha256 uuid4_hex root stream max d)
  local_write_law stream max d =
      let law = write-Written sha256 uuid4_hex root stream max d in
      elim (run-cases (write sha256 uuid4_hex root stream max d)) [
        | inl (o, e, run) ↦
            let (final, at, low, high, size, hash, put) = Outcome-ok _ _ _ o e law run in
            let named = write-storage_key stream max d e o run in
            let keyed : is_generated o.storage_key ≡ true =
              rw named (new_key-is_generated (uuid4_hex d.drawn) (uuid4 d.drawn)) in
            let resolved = path_for-resolve_key root o.storage_key final at in
            rw run (
              keyed,
              low,
              high,
              size,
              hash,
              λ k is.
                  let (a, b, rest, same, path) = generated_path root k is in
                  let p = (a ∷ b ∷ rest) ∷ (a ∷ b ∷ []) ∷ root in
                  let apart = part_path-apart (uuid4_hex (suc d.drawn)) k p is path in
                  let place = path_for-resolve_key root k p path in
                  stored-content_of e k p path ∙ put p ∙ rw (apart, path, ← resolved, ← place) refl,
            )
        | inr (x, e, run) ↦
            let (same, gone) = Outcome-err _ _ _ x e law run in
            rw run (λ k is.
              let (a, b, rest, named, path) = generated_path root k is in
              let p = (a ∷ b ∷ rest) ∷ (a ∷ b ∷ []) ∷ root in
              let apart = part_path-apart (uuid4_hex (suc d.drawn)) k p is path in
              stored-content_of e k p path ∙ same p apart ∙ sym (stored-content_of d k p path))
      ]

  local_exists_law :
      (key : Text) (d : Disk)
      → Outcome
          (λ b e. (b ≡ not (is_none (stored d key))) × (e ≡ d))
          (λ e. e ≡ d)
          (exists sha256 uuid4_hex root key d)
  unfolding exists
  local_exists_law key d = elim (Result-cases (path_for root key)) [
    | inl (p, e) ↦ ground (arith, e)
    | inr (x, e) ↦ ground (arith, e)
  ]

  stored-remove_file :
      (key k : Text) (p : List Text) (d : Disk)
      → path_for root key ≡ ok p
      → stored_at root (path_for root k) (remove_file p d.files)
        ≡ (if same_object root key k then none else stored d k)
  stored-remove_file key k p d e =
      let here = path_for-resolve_key root key p e in
      elim (Result-cases (path_for root k)) [
        | inr (x, bad) ↦ rw bad (ground arith)
        | inl (q, at) ↦
            let there = path_for-resolve_key root k q at in
            let gone = content_of-remove_file p q d.files in rw (at, ← here, ← there) gone
      ]

  -- A deletion removes the file at the path of its key, or it raises and changes nothing.
  delete_cases :
      (key : Text) (d : Disk)
      → ((p : List Text) × (path_for root key ≡ ok p)
          × (delete sha256 uuid4_hex root key d
              ≡ (ok tt, record d { files = remove_file p d.files })))
        ⊎ ((x : Exception) × (delete sha256 uuid4_hex root key d ≡ (err x, d)))
  unfolding delete
  delete_cases key d = elim (Result-cases (path_for root key)) [
    | inr (x, e) ↦ inr (x, ground (arith, e))
    | inl (p, e) ↦ elim (Bool-cases d.faults.unlinking) [
      | inl fails_to ↦ inr (os_error, ground (arith, e, fails_to))
      | inr works ↦ inl (p, e, ground (arith, e, works))
    ]
  ]

  local_delete_law :
      (key : Text) (d : Disk)
      → Outcome
          (λ _ e. (k : Text) → stored e k ≡ (if same_object root key k then none else stored d k))
          (λ e. (k : Text) → stored e k ≡ stored d k)
          (delete sha256 uuid4_hex root key d)
  local_delete_law key d = elim (delete_cases key d) [
    | inl (p, e, run) ↦ rw run (λ k. stored-remove_file key k p d e)
    | inr (x, run) ↦ rw run (λ k. refl)
  ]

  pub local_storage-laws : StorageLaws sha256 (local_storage sha256 uuid4_hex root)
  unfolding local_storage
  local_storage-laws = record {
    stored = stored;
    same_key = same_object root;
    is_key = is_generated;
    same_key_refl = λ key. names_eq_refl (resolve_key root key);
    same_key_eq = same_object_eq root;
    write_law = local_write_law;
    exists_law = local_exists_law;
    delete_law = local_delete_law;
  }

  -- `LocalFileStorage` implements the port with all the laws that the handlers rely on, whatever
  -- calls of the operating system fail, if `uuid4` gives names of at least two hexadecimal digits.
  -- The object under a key is the content of the file at its path, and there is none if the key has
  -- no path below the root.
  pub local_storage-Implements :
      (laws : StorageLaws sha256 (local_storage sha256 uuid4_hex root)) × ((d : Disk) (key : Text)
        → laws.stored d key ≡ stored_at root (path_for root key) d.files)
  unfolding local_storage-laws
  local_storage-Implements = (local_storage-laws, λ d key. refl)
