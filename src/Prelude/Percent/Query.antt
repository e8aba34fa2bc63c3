-- ===== src/Prelude/Percent/Query.antt =====
-- A query string as its reader takes it apart: `urllib.parse.parse_qsl`, with the values as bytes.
use secure_file_service.Prelude.{
  inr, refl, inl, ◌∙◌, map-append, All_mono, ap, Bool-cases, All-append, arith, ◌≡◌, ◌==◌, ◌++◌,
  All, ◌≢◌, List, map, if◌then◌else◌, split_once, split, Text, ℕ, none, some, [], ◌∷◌,
}
use secure_file_service.Prelude.Percent.{
  quote_byte, plus_byte, plus_bytes, is_unreserved, hex_digit,
}
use secure_file_service.Prelude.Percent.Decoding.{
  unquote-quote_byte, unquote-plain, unquote, IsByte,
}

abbrev pub space_of : ℕ → ℕ
space_of c = if c == b'+' then b' ' else c

unfoldable pub unquote_plus : Text → Text
unquote_plus s = unquote (map space_of s)

-- One field: the name in front of the first `=`, and the value behind it.
abbrev pub field : Text → Text × Text
field s = elim (split_once b'=' s) [
  | none ↦ (s, [])
  | some (name, value) ↦ (name, unquote_plus value)
]

unfoldable pub fields : Text → List (Text × Text)
fields query = map field (split b'&' query)

-- The characters of a quoted value.
abbrev pub IsPlain : ℕ → Type 0
IsPlain c = (c ≢ b'&') × (c ≢ b'=')

quote_byte-unspaced : (b : ℕ) → IsByte b → map space_of (quote_byte b) ≡ quote_byte b
unfolding quote_byte is_unreserved hex_digit
quote_byte-unspaced b h = ground arith

unquote_plus-plus_byte :
    (b : ℕ) (s : Text) → IsByte b → unquote (map space_of (plus_byte b) ++ s) ≡ b ∷ unquote s
unfolding plus_byte
unquote_plus-plus_byte b s h = elim (Bool-cases (b == b' ')) [
  | inl space ↦ ground (arith, space, unquote-plain b s)
  | inr other ↦
      let same : map space_of (plus_byte b) ≡ quote_byte b = rw other (quote_byte-unspaced b h) in
      rw same (unquote-quote_byte b s h)
]

pub unquote_plus-plus_bytes : (bs : Text) → All IsByte bs → unquote_plus (plus_bytes bs) ≡ bs
unfolding unquote_plus plus_bytes unquote
unquote_plus-plus_bytes [] h = refl
unquote_plus-plus_bytes (b ∷ bs) (is, h) =
    ap unquote (map-append space_of (plus_byte b) (plus_bytes bs))
    ∙ unquote_plus-plus_byte b (map space_of (plus_bytes bs)) is
    ∙ ap (λ s. b ∷ s) (unquote_plus-plus_bytes bs h)

plus_byte-IsPlain : (b : ℕ) → IsByte b → All IsPlain (plus_byte b)
unfolding plus_byte quote_byte is_unreserved hex_digit
plus_byte-IsPlain b h = ground arith

pub plus_bytes-IsPlain : (bs : Text) → All IsByte bs → All IsPlain (plus_bytes bs)
unfolding plus_bytes
plus_bytes-IsPlain [] h = tt
plus_bytes-IsPlain (b ∷ bs) (is, h) =
    All-append IsPlain (plus_byte b) (plus_bytes bs) (plus_byte-IsPlain b is)
      (plus_bytes-IsPlain bs h)

split-plain : (sep : ℕ) (s : Text) → All (λ c. c ≢ sep) s → split sep s ≡ s ∷ []
unfolding split
split-plain sep [] h = refl
split-plain sep (c ∷ s) (ne, h) = ground (arith, ne, split-plain sep s h)

split-separated :
    (sep : ℕ) (s t : Text) → All (λ c. c ≢ sep) s → split sep (s ++ sep ∷ t) ≡ s ∷ split sep t
unfolding split
split-separated sep [] t h = ground arith
split-separated sep (c ∷ s) t (ne, h) = ground (arith, ne, split-separated sep s t h)

split_once-separated :
    (sep : ℕ) (s t : Text) → All (λ c. c ≢ sep) s → split_once sep (s ++ sep ∷ t) ≡ some (s, t)
unfolding split_once
split_once-separated sep [] t h = ground arith
split_once-separated sep (c ∷ s) t (ne, h) = ground (arith, ne, split_once-separated sep s t h)

-- A field as `urlencode` writes it.
abbrev pub written : Text → Text → Text
written name bytes = name ++ b'=' ∷ plus_bytes bytes

field-written :
    (name bytes : Text)
    → All (λ c. c ≢ b'=') name
    → All IsByte bytes
    → field (written name bytes) ≡ (name, bytes)
field-written name bytes h k =
    ground
      (arith, split_once-separated b'=' name (plus_bytes bytes) h, unquote_plus-plus_bytes bytes k)

-- No field reaches into the next one.
written-one :
    (name bytes : Text)
    → All IsPlain name
    → All IsByte bytes
    → All (λ c. c ≢ b'&') (written name bytes)
written-one name bytes h k =
    All-append (λ c. c ≢ b'&') name _ (All_mono IsPlain (λ c. c ≢ b'&') (λ c is. is.0) name h)
      (
        (λ e. ground (arith, e)),
        All_mono IsPlain (λ c. c ≢ b'&') (λ c is. is.0) (plus_bytes bytes)
            (plus_bytes-IsPlain bytes k),
      )

pub fields-last :
    (name bytes : Text)
    → All IsPlain name
    → All IsByte bytes
    → fields (written name bytes) ≡ (name, bytes) ∷ []
unfolding fields
fields-last name bytes h k =
    ap (map field) (split-plain b'&' (written name bytes) (written-one name bytes h k))
    ∙ ap (λ f. f ∷ [])
        (field-written name bytes (All_mono IsPlain (λ c. c ≢ b'=') (λ c is. is.1) name h) k)

pub fields-first :
    (name bytes rest : Text)
    → All IsPlain name
    → All IsByte bytes
    → fields (written name bytes ++ b'&' ∷ rest) ≡ (name, bytes) ∷ fields rest
unfolding fields
fields-first name bytes rest h k =
    ap (map field) (split-separated b'&' (written name bytes) rest (written-one name bytes h k))
    ∙ ap (λ f. f ∷ map field (split b'&' rest))
        (field-written name bytes (All_mono IsPlain (λ c. c ≢ b'=') (λ c is. is.1) name h) k)
