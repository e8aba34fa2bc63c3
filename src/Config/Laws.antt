-- ===== src/Config/Laws.antt =====
-- What settings that pass the validation guarantee to the rest of the program.
use secure_file_service.Prelude.Utf8.{utf8}
use secure_file_service.Domain.Ttl.{validate_ttl_iff, validate_ttl}
use secure_file_service.Prelude.Results.{Result-cases, ok}
use secure_file_service.Security.Signer.{make_signer}
use secure_file_service.Prelude.{
  Bool-cases, inr, refl, inl, is_space, split_once, text_eq_iff, split, strip, Option-cases, sym,
  true, ◌∷◌, arith, ◌++◌, ◌≤◌, none, some, All, [], ◌≢◌, Option, List, Text, ◌≡◌,
}
use secure_file_service.Config.{
  api_key_map, stripped, active_key, has_key, first_key, active_signing_key_id, Settings,
  checked_entry, validate, signing_key_ring, encode_values, entry_of, parse_chunks, parse_pairs,
}
use secure_file_service.Prelude.Dict.{lookup-none_iff, IsFresh, Dict, lookup, HasDistinctKeys}

abbrev pub HasText : Text × Text → Type 0
HasText (k, v) = (k ≢ []) × (v ≢ [])

IsFresh-append : (k j v : Text) (d : Dict Text) → IsFresh k d → j ≢ k → IsFresh k (d ++ (j, v) ∷ [])
IsFresh-append k j v [] h apart = (apart, tt)
IsFresh-append k j v (e ∷ d) (h, hs) apart = (h, IsFresh-append k j v d hs apart)

HasDistinctKeys-append :
    (k v : Text) (d : Dict Text)
    → HasDistinctKeys d
    → IsFresh k d
    → HasDistinctKeys (d ++ (k, v) ∷ [])
HasDistinctKeys-append k v [] distinct fresh = (tt, tt)
HasDistinctKeys-append k v ((j, w) ∷ d) (h, distinct) (apart, fresh) =
    (IsFresh-append j k v d h (λ e. apart (sym e)), HasDistinctKeys-append k v d distinct fresh)

All_snoc : (e : Text × Text) (d : Dict Text) → All HasText d → HasText e → All HasText (d ++ e ∷ [])
All_snoc e [] h he = (he, tt)
All_snoc e (x ∷ d) (hx, h) he = (hx, All_snoc e d h he)

checked_entry-HasText : (e f : Text × Text) → checked_entry e ≡ ok (some f) → HasText f
checked_entry-HasText ([], v) f h = absurd (ground arith)
checked_entry-HasText (c ∷ k, []) f h = absurd (ground arith)
checked_entry-HasText (c ∷ k, d ∷ v) f h = ground arith

entry_of-HasText : (chunk : Text) (f : Text × Text) → entry_of chunk ≡ ok (some f) → HasText f
unfolding entry_of
entry_of-HasText [] f h = absurd (ground arith)
entry_of-HasText (c ∷ chunk) f h = elim (Option-cases (split_once b':' (c ∷ chunk))) [
  | inl absent ↦ absurd (ground (arith, absent))
  | inr (e, found) ↦ checked_entry-HasText (stripped e) f (ground (arith, found))
]

parse_chunks-IsKeyMap :
    (chunks : List Text) (result d : Dict Text)
    → HasDistinctKeys result
    → All HasText result
    → parse_chunks chunks result ≡ ok d
    → HasDistinctKeys d × All HasText d
unfolding parse_chunks
parse_chunks-IsKeyMap [] result d distinct full h = (ground arith, ground arith)
parse_chunks-IsKeyMap (chunk ∷ chunks) result d distinct full h =
    elim (Result-cases (entry_of (strip is_space chunk))) [
      | inr (x, e) ↦ absurd (ground (arith, e))
      | inl (none, e) ↦ parse_chunks-IsKeyMap chunks result d distinct full (ground (arith, e))
      | inl (some (k, v), e) ↦ elim (Option-cases (lookup k result)) [
        | inr (w, known) ↦ absurd (ground (arith, e, known))
        | inl fresh ↦
            parse_chunks-IsKeyMap chunks (result ++ (k, v) ∷ []) d
              (HasDistinctKeys-append k v result distinct ((lookup-none_iff k result).0 fresh))
              (All_snoc (k, v) result full (entry_of-HasText (strip is_space chunk) (k, v) e))
              (ground (arith, e, fresh))
      ]
    ]

-- Whatever the text, a key map that the parser accepts is not empty, has no key twice, and has no
-- empty key and no empty value.
pub parse_pairs-IsKeyMap :
    (raw : Text) (d : Dict Text)
    → parse_pairs raw ≡ ok d
    → (d ≢ []) × HasDistinctKeys d × All HasText d
unfolding parse_pairs
parse_pairs-IsKeyMap raw d h = elim (Result-cases (parse_chunks (split b',' raw) [])) [
  | inr (x, e) ↦ absurd (ground (arith, e))
  | inl ([], e) ↦ absurd (ground (arith, e))
  | inl (entry ∷ rest, e) ↦
      let same : d ≡ entry ∷ rest = ground (arith, e) in
      let (distinct, full) = parse_chunks-IsKeyMap (split b',' raw) [] (entry ∷ rest) tt tt e in
      rw same ((λ empty. absurd (ground arith)), distinct, full)
]

first_key-lookup : (ring : Dict Text) (k : Text) → first_key ring ≡ ok k → lookup k ring ≢ none
unfolding lookup
first_key-lookup [] k h = absurd (ground arith)
first_key-lookup ((j, v) ∷ d) k h = ground (arith, text_eq_iff j k)

make_signer-known :
    (ring : Dict Text) (k : Text)
    → lookup k ring ≢ none
    → make_signer ring k ≡ ok (record { keys = ring; active = k })
unfolding make_signer lookup
make_signer-known [] k h = absurd (h refl)
make_signer-known (e ∷ ring) k h = elim (Option-cases (lookup k (e ∷ ring))) [
  | inl absent ↦ absurd (h absent)
  | inr (v, found) ↦ ground (arith, found)
]

active_key-make_signer :
    (key_id : Option Text) (ring : Dict Text)
    → has_key key_id ring ≡ true
    → ring ≢ []
    → (k : Text) × (active_key key_id ring ≡ ok k)
      × (make_signer ring k ≡ ok (record { keys = ring; active = k }))
active_key-make_signer none [] h full = absurd (full refl)
active_key-make_signer none ((j, v) ∷ ring) h full =
    (j, refl, make_signer-known ((j, v) ∷ ring) j (first_key-lookup ((j, v) ∷ ring) j refl))
active_key-make_signer (some k) ring h full = (k, refl, make_signer-known ring k (ground arith))

encode_values-nonempty : (d ring : Dict Text) → encode_values d ≡ ok ring → d ≢ [] → ring ≢ []
unfolding encode_values
encode_values-nonempty [] ring h full empty = absurd (full refl)
encode_values-nonempty ((k, v) ∷ d) ring h full empty = elim (Option-cases (utf8 v)) [
  | inl absent ↦ ground (arith, absent)
  | inr (b, found) ↦ elim (Result-cases (encode_values d)) [
    | inr (x, e) ↦ ground (arith, found, e)
    | inl (rest, e) ↦ ground (arith, found, e)
  ]
]

signing_key_ring-nonempty :
    (s : Settings) (ring : Dict Text) → signing_key_ring s ≡ ok ring → ring ≢ []
unfolding signing_key_ring
signing_key_ring-nonempty s ring h = elim (Result-cases (parse_pairs s.signing_keys)) [
  | inr (x, e) ↦ absurd (ground (arith, e))
  | inl (d, e) ↦
      encode_values-nonempty d ring (ground (arith, e)) (parse_pairs-IsKeyMap s.signing_keys d e).0
]

-- Settings that pass the validation give a signer: the key ring can be parsed, the active key,
-- configured or by default, is in it, and the constructor of the signer accepts the two. A link
-- without a requested TTL then gets the default TTL, if that is at least 1.
pub validate-make_signer :
    (s : Settings)
    → validate s ≡ ok tt
    → 1 ≤ s.default_link_ttl_seconds
    → (ring : Dict Text) × (k : Text) × (signing_key_ring s ≡ ok ring)
      × (active_signing_key_id s ≡ ok k)
      × (make_signer ring k ≡ ok (record { keys = ring; active = k }))
      × (validate_ttl none s.default_link_ttl_seconds s.max_link_ttl_seconds
          ≡ ok s.default_link_ttl_seconds)
unfolding validate active_signing_key_id
validate-make_signer s h positive = elim (Result-cases (signing_key_ring s)) [
  | inr (x, e) ↦ absurd (ground (arith, e))
  | inl (ring, e) ↦ elim (Bool-cases (has_key s.signing_active_key_id ring)) [
    | inr missing ↦ absurd (ground (arith, e, missing))
    | inl known ↦ elim (Result-cases (api_key_map s)) [
      | inr (x, ea) ↦ absurd (ground (arith, e, known, ea))
      | inl (users, ea) ↦
          let (k, active, made) =
            active_key-make_signer s.signing_active_key_id ring known
              (signing_key_ring-nonempty s ring e) in
          let low : s.default_link_ttl_seconds ≤ s.max_link_ttl_seconds =
            ground (arith, e, known, ea) in
          (
            ring,
            k,
            e,
            ground (arith, e, active),
            made,
            (validate_ttl_iff none s.default_link_ttl_seconds s.max_link_ttl_seconds
                  s.default_link_ttl_seconds).1
                (refl, positive, low),
          )
    ]
  ]
]
