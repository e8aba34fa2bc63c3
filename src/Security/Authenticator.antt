-- ===== src/Security/Authenticator.antt =====
-- `ApiKeyAuthenticator` of app/core/security.py: static API keys, each compared with the presented
-- one.
use secure_file_service.Prelude.{
  ◌≢◌, ap, is_truthy, text_eq_iff, inr, inl, Bool-cases, text_eq, is_none, arith, if◌then◌else◌,
  Option, List, ◌≡◌, refl, [], ◌∷◌, none, some, true, false, Text,
}
use secure_file_service.Prelude.Dict.{Dict, lookup, HasDistinctKeys, lookup-none_iff}
use secure_file_service.Prelude.Utf8.{utf8, utf8_replace, utf8-injective, utf8_replace_of_utf8}

abbrev pub cons_entry :
    Option Text → Text → Option (List (Text × Text)) → Option (List (Text × Text))
cons_entry (some bytes) user (some rest) = some ((bytes, user) ∷ rest)
cons_entry _ _ _ = none

-- `ApiKeyAuthenticator.__init__`: `none` is the UnicodeEncodeError of a key that has no encoding.
unfoldable pub make_entries : Dict Text → Option (List (Text × Text))
make_entries [] = some []
make_entries ((k, u) ∷ d) = cons_entry (utf8 k) u (make_entries d)

-- The loop over the entries: no early exit, so the last match would win.
unfoldable pub match_entries : Text → List (Text × Text) → Option Text → Option Text
match_entries candidate [] matched = matched
match_entries candidate ((key, user) ∷ rest) matched =
    match_entries candidate rest (if text_eq key candidate then some user else matched)

unfoldable pub authenticate : List (Text × Text) → Option Text → Option Text
unfolding match_entries
authenticate entries none = none
authenticate entries (some []) = none
authenticate entries (some (c ∷ s)) = match_entries (utf8_replace (c ∷ s)) entries none

cons_entry-parts :
    (a : Option Text) (u : Text) (r : Option (List (Text × Text))) {es : List (Text × Text)}
    → cons_entry a u r ≡ some es
    → (b : Text) × (rest : List (Text × Text)) × (a ≡ some b)
      × (r ≡ some rest)
      × (es ≡ (b, u) ∷ rest)
cons_entry-parts none u r h = cc
cons_entry-parts (some b) u none h = cc
cons_entry-parts (some b) u (some rest) h = (b, rest, refl, refl, ground arith)

-- With the keys of a dictionary at most one entry matches, so the loop gives what was matched
-- before if the key is unknown, and its user otherwise.
match_entries-lookup :
    (d : Dict Text) (entries : List (Text × Text)) (k b : Text) (matched : Option Text)
    → HasDistinctKeys d
    → make_entries d ≡ some entries
    → utf8 k ≡ some b
    → match_entries b entries matched ≡ (if is_none (lookup k d) then matched else lookup k d)
unfolding match_entries make_entries lookup
match_entries-lookup [] entries k b matched distinct h e = ground arith
match_entries-lookup ((j, u) ∷ d) entries k b matched (fresh, distinct) h e =
    let (x, rest, ex, er, split) = cons_entry-parts (utf8 j) u (make_entries d) h in
    elim (Bool-cases (text_eq j k)) [
      | inl same ↦
          let jk = (text_eq_iff j k).0 same in
          let absent = (lookup-none_iff k d).1 (rw jk at fresh) in
          let ih = match_entries-lookup d rest k b (some u) distinct er e in
          let equal : text_eq x b ≡ true = ground (arith, text_eq_iff x b, ap utf8 jk) in
          ground (arith, ih, absent, equal)
      | inr other ↦
          let ih = match_entries-lookup d rest k b matched distinct er e in
          let jk : j ≢ k = ground (arith, text_eq_iff j k) in
          let differ : text_eq x b ≡ false =
            ground (arith, text_eq_iff x b, utf8-injective j k b) in
          ground (arith, ih, differ)
    ]

-- The loop in constant time is the dictionary's lookup: for a key map with distinct keys that can
-- be encoded and a presented key that can be encoded, the result is the user that the map has for
-- the presented key, and None if it has none or the presented key is empty or missing.
pub authenticate-lookup :
    (d : Dict Text) (entries : List (Text × Text)) (k b : Text)
    → HasDistinctKeys d
    → make_entries d ≡ some entries
    → utf8 k ≡ some b
    → (authenticate entries (some k) ≡ (if is_truthy (some k) then lookup k d else none))
      × (authenticate entries none ≡ none)
unfolding authenticate
authenticate-lookup d entries [] b distinct h e = (refl, refl)
authenticate-lookup d entries (c ∷ s) b distinct h e = (
  rw (utf8_replace_of_utf8 (c ∷ s) b e, match_entries-lookup d entries (c ∷ s) b none distinct h e)
      (ground arith),
  refl,
)
