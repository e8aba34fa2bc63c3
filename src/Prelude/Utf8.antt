-- ===== src/Prelude/Utf8.antt =====
-- `str.encode("utf-8")`: the bytes of a text; `none` is UnicodeEncodeError, which a lone surrogate
-- raises.
use secure_file_service.Prelude.{
  ◌<◌, All, get_or, refl, ap₂, sym, ◌∙◌, ◌≢◌, ◌%◌, ◌/◌, ◌+◌, [], ltb, ◌&&◌, none, arith,
  if◌then◌else◌, ◌++◌, leb, ◌∷◌, some, Bool, Option, ℕ, ◌≡◌, Text,
}

abbrev pub is_surrogate : ℕ → Bool
is_surrogate c = leb 0xd800 c && leb c 0xdfff

unfoldable pub encode_char : ℕ → Option Text
encode_char c =
    if ltb c 0x80
    then some (c ∷ [])
    else if ltb c 0x800
    then some ((0xc0 + c / 64) ∷ (0x80 + c % 64) ∷ [])
    else if is_surrogate c
    then none
    else if ltb c 0x10000
    then some ((0xe0 + c / 4096) ∷ (0x80 + c / 64 % 64) ∷ (0x80 + c % 64) ∷ [])
    else some
        ((0xf0 + c / 262144) ∷ (0x80 + c / 4096 % 64) ∷ (0x80 + c / 64 % 64) ∷ (0x80 + c % 64) ∷ [])

abbrev pub append_encoded : Option Text → Option Text → Option Text
append_encoded (some x) (some y) = some (x ++ y)
append_encoded _ _ = none

unfoldable pub utf8 : Text → Option Text
unfolding encode_char
utf8 [] = some []
utf8 (c ∷ s) = append_encoded (encode_char c) (utf8 s)

-- The encoding of one code point can be told from what follows it.
encode_char-cancel :
    (c d : ℕ) (x y u v : Text)
    → encode_char c ≡ some x
    → encode_char d ≡ some y
    → x ++ u ≡ y ++ v
    → (c ≡ d) × (u ≡ v)
unfolding encode_char
encode_char-cancel c d x y u v h k e = ground arith

encode_char-nonempty : (c : ℕ) (x u : Text) → encode_char c ≡ some x → x ++ u ≢ []
unfolding encode_char
encode_char-nonempty c x u h e = ground arith

pub append_encoded-parts :
    (a b : Option Text) {r : Text}
    → append_encoded a b ≡ some r
    → (x : Text) × (y : Text) × (a ≡ some x) × (b ≡ some y) × (x ++ y ≡ r)
append_encoded-parts none b h = cc
append_encoded-parts (some x) none h = cc
append_encoded-parts (some x) (some y) h = (x, y, refl, refl, ground arith)

-- Two texts with the same bytes are the same text.
pub utf8-injective : (s t r : Text) → utf8 s ≡ some r → utf8 t ≡ some r → s ≡ t
unfolding utf8
utf8-injective [] [] r h k = refl
utf8-injective [] (d ∷ t) r h k =
    let (x, y, ex, ey, j) = append_encoded-parts (encode_char d) (utf8 t) k in
    absurd (encode_char-nonempty d x y ex (ground arith))
utf8-injective (c ∷ s) [] r h k =
    let (x, y, ex, ey, j) = append_encoded-parts (encode_char c) (utf8 s) h in
    absurd (encode_char-nonempty c x y ex (ground arith))
utf8-injective (c ∷ s) (d ∷ t) r h k =
    let (x, u, ex, eu, j) = append_encoded-parts (encode_char c) (utf8 s) h in
    let (y, v, ey, ev, l) = append_encoded-parts (encode_char d) (utf8 t) k in
    let (same, rest) = encode_char-cancel c d x y u v ex ey (j ∙ sym l) in
    ap₂ (λ (a : ℕ) (b : Text). a ∷ b) same (utf8-injective s t u eu (rw rest ev))

-- `str.encode("utf-8", "replace")`: a lone surrogate becomes a question mark.
unfoldable pub utf8_replace : Text → Text
unfolding encode_char
utf8_replace [] = []
utf8_replace (c ∷ s) = get_or (encode_char c) (b'?' ∷ []) ++ utf8_replace s

abbrev pub IsAscii : ℕ → Type 0
IsAscii c = c < 0x80

pub utf8_replace_of_ascii : (s : Text) → All IsAscii s → utf8_replace s ≡ s
unfolding utf8_replace
utf8_replace_of_ascii [] h = refl
utf8_replace_of_ascii (c ∷ s) (k, h) = rw (utf8_replace_of_ascii s h) (ground arith)

pub utf8_replace_of_utf8 : (s r : Text) → utf8 s ≡ some r → utf8_replace s ≡ r
unfolding utf8 utf8_replace
utf8_replace_of_utf8 [] r h = ground arith
utf8_replace_of_utf8 (c ∷ s) r h =
    let (x, y, ex, ey, j) = append_encoded-parts (encode_char c) (utf8 s) h in
    rw (ex, utf8_replace_of_utf8 s y ey) j
