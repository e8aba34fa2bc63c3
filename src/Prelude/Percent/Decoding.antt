-- ===== src/Prelude/Percent/Decoding.antt =====
-- Percent decoding, as the reader of a header or of a URL does it, and what it makes of quoted bytes.
use secure_file_service.Prelude.Utf8.{append_encoded-parts, utf8, encode_char}
use secure_file_service.Prelude.{
  subst, some, inr, inl, refl, Bool-cases, ◌%◌, ◌/◌, ap, ◌⊎◌, ◌∙◌, [], ◌+◌, ◌-◌, All-append, ◌≢◌,
  true, ◌*◌, false, arith, leb, All, ◌++◌, ◌≡◌, ◌∷◌, ◌==◌, ◌<◌, ◌∷◌, if◌then◌else◌, Text, ℕ,
}
use secure_file_service.Prelude.Percent.{is_unreserved, hex_digit, quote_byte, quote_bytes}

-- The value of an upper-case hexadecimal digit.
abbrev pub hex_value : ℕ → ℕ
hex_value c = if leb c b'9' then c - b'0' else c - b'A' + 10

-- A per cent sign and two digits stand for a byte, every other character for itself.
unfoldable pub unquote : Text → Text
unquote [] = []
unquote (c ∷ []) = c ∷ []
unquote (c ∷ a ∷ []) = c ∷ a ∷ []
unquote (c ∷ a ∷ b ∷ s) = elim (c == b'%') [
  | true ↦ (16 * hex_value a + hex_value b) ∷ unquote s
  | false ↦ c ∷ unquote (a ∷ b ∷ s)
]

abbrev pub IsByte : ℕ → Type 0
IsByte b = b < 256

hex_value-hex_digit : (n : ℕ) → n < 16 → hex_value (hex_digit n) ≡ n
unfolding hex_digit
hex_value-hex_digit n h = ground arith

pub unquote-plain : (c : ℕ) (s : Text) → (c == b'%') ≡ false → unquote (c ∷ s) ≡ c ∷ unquote s
unfolding unquote
unquote-plain c [] h = refl
unquote-plain c (a ∷ []) h = refl
unquote-plain c (a ∷ b ∷ s) h = rw (h, unquote) refl

unquote-escape :
    (a b : ℕ) (s : Text) → unquote (b'%' ∷ a ∷ b ∷ s) ≡ (16 * hex_value a + hex_value b) ∷ unquote s
unfolding unquote
unquote-escape a b s = refl

unreserved-plain : (c : ℕ) → is_unreserved c ≡ true → (c == b'%') ≡ false
unfolding is_unreserved
unreserved-plain c h = ground arith

quote_byte-cases :
    (b : ℕ)
    → ((is_unreserved b ≡ true) × (quote_byte b ≡ b ∷ []))
      ⊎ (quote_byte b ≡ b'%' ∷ hex_digit (b / 16) ∷ hex_digit (b % 16) ∷ [])
unfolding quote_byte
quote_byte-cases b = elim (Bool-cases (is_unreserved b)) [
  | inl plain ↦ inl (plain, rw plain refl)
  | inr special ↦ inr (rw special refl)
]

pub unquote-quote_byte : (b : ℕ) (s : Text) → IsByte b → unquote (quote_byte b ++ s) ≡ b ∷ unquote s
unquote-quote_byte b s h = elim (quote_byte-cases b) [
  | inl (plain, e) ↦ rw e (unquote-plain b s (unreserved-plain b plain))
  | inr e ↦
      let high = hex_value-hex_digit (b / 16) (omega arith) in
      let low = hex_value-hex_digit (b % 16) (omega arith) in
      rw (e, unquote-escape (hex_digit (b / 16)) (hex_digit (b % 16)) s, high, low)
        (ap (λ (n : ℕ). n ∷ unquote s) (omega arith))
]

-- Quoted bytes are read back.
pub unquote-quote_bytes : (bs : Text) → All IsByte bs → unquote (quote_bytes bs) ≡ bs
unfolding quote_bytes unquote
unquote-quote_bytes [] h = refl
unquote-quote_bytes (b ∷ bs) (is, h) =
    unquote-quote_byte b (quote_bytes bs) is ∙ ap (λ s. b ∷ s) (unquote-quote_bytes bs h)

-- Letters, digits and `_.-~%`.
abbrev pub IsQuoted : ℕ → Type 0
IsQuoted c = (32 < c) × (c < 0x7f) × (c ≢ 0x27)

quote_byte-IsQuoted : (b : ℕ) → IsByte b → All IsQuoted (quote_byte b)
unfolding quote_byte is_unreserved hex_digit
quote_byte-IsQuoted b h = ground arith

pub quote_bytes-IsQuoted : (bs : Text) → All IsByte bs → All IsQuoted (quote_bytes bs)
unfolding quote_bytes
quote_bytes-IsQuoted [] h = tt
quote_bytes-IsQuoted (b ∷ bs) (is, h) =
    All-append IsQuoted (quote_byte b) (quote_bytes bs) (quote_byte-IsQuoted b is)
      (quote_bytes-IsQuoted bs h)

abbrev pub IsCodePoint : ℕ → Type 0
IsCodePoint c = c < 0x110000

encode_char-IsByte : (c : ℕ) (x : Text) → IsCodePoint c → encode_char c ≡ some x → All IsByte x
unfolding encode_char
encode_char-IsByte c x h e = ground arith

-- The encoding of a text is bytes.
pub utf8-IsByte : (s bytes : Text) → All IsCodePoint s → utf8 s ≡ some bytes → All IsByte bytes
unfolding utf8
utf8-IsByte [] bytes h e = ground arith
utf8-IsByte (c ∷ s) bytes (high, h) e =
    let (x, y, ex, ey, j) = append_encoded-parts (encode_char c) (utf8 s) e in
    subst (λ (bs : Text). All IsByte bs) j
      (All-append IsByte x y (encode_char-IsByte c x high ex) (utf8-IsByte s y h ey))
