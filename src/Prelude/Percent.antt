-- ===== src/Prelude/Percent.antt =====
-- Percent encoding: `urllib.parse.quote` with no safe characters, `quote_plus`, and `urlencode`.
pub mod Decoding
pub mod Query
use mathlib.Core.Option
use secure_file_service.Prelude.{
  ◌||◌, ◌-◌, ◌%◌, ◌/◌, ◌&&◌, ◌+◌, ltb, ◌++◌, [], leb, ◌==◌, ◌∷◌, Bool, Option, Option,
  if◌then◌else◌, ℕ, Text,
}
use secure_file_service.Prelude.Utf8.{utf8}

-- Letters, digits and `_.-~`.
unfoldable pub is_unreserved : ℕ → Bool
is_unreserved c =
    (leb b'a' c && leb c b'z')
    || (leb b'A' c && leb c b'Z')
    || (leb b'0' c && leb c b'9')
    || (c == b'_')
    || (c == b'.')
    || (c == b'-')
    || (c == b'~')

-- A digit of `%02X`.
unfoldable pub hex_digit : ℕ → ℕ
hex_digit n = if ltb n 10 then b'0' + n else b'A' + (n - 10)

unfoldable pub quote_byte : ℕ → Text
unfolding is_unreserved hex_digit
quote_byte b =
    if is_unreserved b then b ∷ [] else b'%' ∷ hex_digit (b / 16) ∷ hex_digit (b % 16) ∷ []

unfoldable pub quote_bytes : Text → Text
unfolding quote_byte
quote_bytes [] = []
quote_bytes (b ∷ bs) = quote_byte b ++ quote_bytes bs

-- quote(s, safe="")
unfoldable pub quote : Text → Option Text
unfolding utf8 quote_bytes
quote s = Option.map quote_bytes (utf8 s)

-- A space is written as a plus sign.
unfoldable pub plus_byte : ℕ → Text
unfolding quote_byte
plus_byte b = if b == b' ' then b'+' ∷ [] else quote_byte b

unfoldable pub plus_bytes : Text → Text
unfolding plus_byte
plus_bytes [] = []
plus_bytes (b ∷ bs) = plus_byte b ++ plus_bytes bs

unfoldable pub quote_plus : Text → Option Text
unfolding utf8 plus_bytes
quote_plus s = Option.map plus_bytes (utf8 s)
