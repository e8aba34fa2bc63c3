-- ===== src/Tests/Memory.antt =====
-- A session and a storage in memory, which satisfy the laws that the handlers rely on, and stand-ins
-- for the cryptographic functions.
use secure_file_service.Prelude.{
  All-drop, All-take, Option-cases, inr, true, Bool-cases, inl, is_none, not, text_eq_iff, drop,
  suc, option_eq, refl, [], ◌&&◌, ◌==◌, text_eq_refl, keep, find, ◌∷◌, ◌≤◌, arith, map, take, ◌||◌,
  ltb, length, ◌++◌, All, Text, Bool, false, if◌then◌else◌, List, text_eq, Option, none, some, ℕ,
  ◌≡◌,
}
use secure_file_service.Prelude.Results.{ok, err}
use secure_file_service.Prelude.Utf8.{IsAscii}
use secure_file_service.Prelude.Decimal.{decimal}
use secure_file_service.Exec.{Outcome}
use secure_file_service.Domain.Errors.{integrity_error, domain, empty_upload}
use secure_file_service.Persistence.Models.{FileModel}
use secure_file_service.Persistence.Session.{
  SameDurable, Session, SessionLaws, View, Clashes, Found, inserted, staged_event, updated,
  committed, rolled_back,
}
use secure_file_service.Storage.{Stream, FileStorage, StorageLaws}
use secure_file_service.Storage.{payload}

abbrev pub clashes : FileModel → FileModel → Bool
clashes m x =
    text_eq m.id x.id
    || text_eq m.storage_key x.storage_key
    || (text_eq m.owner_id x.owner_id
        && option_eq m.idempotency_key x.idempotency_key
        && not (is_none m.idempotency_key))

abbrev pub has_clash : FileModel → List FileModel → Bool
has_clash m [] = false
has_clash m (x ∷ xs) = clashes m x || has_clash m xs

unfoldable pub memory : Session View
memory = record {
  insert_file =
      λ m v. if has_clash m v.files then (err integrity_error, v) else (ok tt, inserted m v);
  add_event = λ e v. (ok tt, staged_event e v);
  get_file = λ id v. (ok (find (λ m. text_eq m.id id) v.files), v);
  first_file = λ p v. (ok (find p v.files), v);
  count_files = λ p v. (ok (length (keep p v.files)), v);
  page_files = λ p limit offset v. (ok (take limit (drop offset (keep p v.files))), v);
  count_events = λ p v. (ok (length (keep p v.events)), v);
  page_events = λ p limit offset v. (ok (take limit (drop offset (keep p v.events))), v);
  update_files = λ p f v. (ok tt, updated p f v);
  commit = λ v. (ok tt, committed v);
  rollback = λ v. rolled_back v;
}

option_eq_refl : (o : Option Text) → option_eq o o ≡ true
option_eq_refl none = refl
option_eq_refl (some s) = text_eq_refl s

clashes-false : (m x : FileModel) → clashes m x ≡ false → ¬ Clashes m x
clashes-false m x h (inl same) = ground (arith, text_eq_iff m.id x.id)
clashes-false m x h (inr (inl same)) = ground (arith, text_eq_iff m.storage_key x.storage_key)
clashes-false m x h (inr (inr (owner, key, given))) =
    let keys = rw key at (option_eq_refl m.idempotency_key) in
    elim (Option-cases m.idempotency_key) [
      | inl absent ↦ absurd (given absent)
      | inr (k, present) ↦ ground (arith, keys, present, text_eq_iff m.owner_id x.owner_id)
    ]

has_clash-false :
    (m : FileModel) (xs : List FileModel) → has_clash m xs ≡ false → All (λ x. ¬ Clashes m x) xs
has_clash-false m [] h = tt
has_clash-false m (x ∷ xs) h =
    (clashes-false m x (ground arith), has_clash-false m xs (ground arith))

pub find-Found : (p : FileModel → Bool) (xs : List FileModel) → Found p xs (find p xs)
find-Found p [] = tt
find-Found p (x ∷ xs) = elim (Bool-cases (p x)) [
  | inl fits ↦ ground (arith, fits)
  | inr other ↦ elim (Option-cases (find p xs)) [
    | inl none_left ↦ ground (arith, other, none_left, find-Found p xs)
    | inr (m, found) ↦ ground (arith, other, found, find-Found p xs)
  ]
]

pub insert-law :
    (m : FileModel) (v : View)
    → Outcome
        (λ _ t. (t ≡ inserted m v) × All (λ x. ¬ Clashes m x) v.files)
        (λ t. SameDurable v t)
        (memory.insert_file m v)
unfolding memory
insert-law m v = ground (arith, has_clash-false m v.files)

keep-fits : {A : Type 0} (p : A → Bool) (xs : List A) → All (λ x. p x ≡ true) (keep p xs)
keep-fits p [] = tt
keep-fits p (x ∷ xs) = elim (Bool-cases (p x)) [
  | inl fits ↦ ground (arith, fits, keep-fits p xs)
  | inr other ↦ ground (arith, other, keep-fits p xs)
]

pub page-fits :
    {A : Type 0} (p : A → Bool) (limit offset : ℕ) (xs : List A)
    → All (λ x. p x ≡ true) (take limit (drop offset (keep p xs)))
page-fits p limit offset xs =
    All-take (λ x. p x ≡ true) limit _ (All-drop (λ x. p x ≡ true) offset _ (keep-fits p xs))

unfoldable pub memory_laws : SessionLaws memory
unfolding memory
memory_laws = record {
  view = λ v. v;
  insert_file_law = insert-law;
  add_event_law = λ e s. refl;
  get_file_law = λ id s. (find-Found (λ m. text_eq m.id id) s.files, refl);
  first_file_law = λ p s. (find-Found p s.files, refl);
  count_files_law = λ p s. refl;
  page_files_law = λ p limit offset s. (page-fits p limit offset s.files, refl);
  count_events_law = λ p s. refl;
  page_events_law = λ p limit offset s. (page-fits p limit offset s.events, refl);
  update_files_law = λ p f s. refl;
  commit_law = λ s. refl;
  rollback_law = λ s. refl;
}

-- A storage: how many keys were drawn, and the object under each.
pub record Objects : Type 0 where
  pub drawn : ℕ
  pub object : Text → Option Text

abbrev pub digest : Text → Text
digest bytes = take 4 bytes

unfoldable pub objects : FileStorage Objects
objects = record {
  write = λ stream max f.
      let content = payload stream in
      let key = decimal f.drawn in
      if length content == 0 || ltb max (length content) then (err (domain empty_upload), f) else (
        ok (record { storage_key = key; size_bytes = length content; sha256 = digest content }),
        record {
          drawn = suc f.drawn;
          object = λ k. if text_eq key k then some content else f.object k;
        },
      );
  path_for = λ key. ok (b'/' ∷ key);
  exists = λ key f. (ok (not (is_none (f.object key))), f);
  delete = λ key f. (ok tt, record f { object = λ k. if text_eq key k then none else f.object k });
}

pub write-law :
    (stream : Stream) (max : ℕ) (f : Objects)
    → Outcome
        (λ o g.
          (true ≡ true)
          × (1 ≤ o.size_bytes)
          × (o.size_bytes ≤ max)
          × (o.size_bytes ≡ length (payload stream))
          × (o.sha256 ≡ digest (payload stream))
          × ((k : Text)
              → true ≡ true
              → g.object k
                ≡ (if text_eq o.storage_key k then some (payload stream) else f.object k)))
        (λ g. (k : Text) → true ≡ true → g.object k ≡ f.object k)
        (objects.write stream max f)
unfolding objects
write-law stream max f =
    elim (Bool-cases (length (payload stream) == 0 || ltb max (length (payload stream)))) [
      | inl refused ↦ rw refused (λ k is. refl)
      | inr fits ↦
          rw fits (refl, ground (arith, fits), ground (arith, fits), refl, refl, λ k is. refl)
    ]

unfoldable pub object_laws : StorageLaws digest objects
unfolding objects
object_laws = record {
  stored = λ f. f.object;
  same_key = text_eq;
  is_key = λ k. true;
  same_key_refl = text_eq_refl;
  same_key_eq = λ j k hj hk same. (text_eq_iff j k).0 same;
  write_law = write-law;
  exists_law = λ key f. (refl, refl);
  delete_law = λ key f. λ k. refl;
}

-- Stand-ins for HMAC-SHA256 and for base64.
abbrev pub toy_hmac : Text → Text → Text
toy_hmac key bytes = key ++ bytes

abbrev pub ascii_of : ℕ → ℕ
ascii_of c = if ltb c 0x80 then c else b'0'

abbrev pub toy_b64 : Text → Text
toy_b64 bytes = map ascii_of bytes

pub toy_b64-IsAscii : (bytes : Text) → All IsAscii (toy_b64 bytes)
toy_b64-IsAscii [] = tt
toy_b64-IsAscii (c ∷ cs) = (ground arith, toy_b64-IsAscii cs)
