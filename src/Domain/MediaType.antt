-- ===== src/Domain/MediaType.antt =====
-- `normalize_content_type` of app/domain/files/services.py, with the regular expression
-- `_CONTENT_TYPE` as a matcher: its parts are delimited by code points that they cannot hold, so
-- one walk from the left finds the only way to match.
pub mod Laws
use secure_file_service.Prelude.{
  ℕ, ◌+◌, ◌≤◌, ◌≡◌, ◌≢◌, refl, Bool, true, false, not, ◌&&◌, ◌||◌, Option, none, some, List, [],
  ◌∷◌, ◌++◌, inl, inr, ◌⊎◌, Text, codes, strip, is_space, is_truthy, length, All, leb, ltb, ◌==◌,
  if◌then◌else◌, arith, Bool-cases,
}
use secure_file_service.Domain.Filename.{text_or_empty}

abbrev pub default_content_type : Text
default_content_type = codes "application/octet-stream"

-- `[a-zA-Z0-9]`
abbrev pub is_alnum : ℕ → Bool
is_alnum c = (leb b'a' c && leb c b'z') || (leb b'A' c && leb c b'Z') || (leb b'0' c && leb c b'9')

abbrev pub elem : ℕ → Text → Bool
elem c [] = false
elem c (d ∷ s) = (c == d) || elem c s

-- `[a-zA-Z0-9!#$&^_.+-]`
unfoldable pub is_token : ℕ → Bool
is_token c = is_alnum c || elem c (codes "!#$&^_.+-")

-- The longest prefix of token code points, and the rest.
abbrev pub span : (ℕ → Bool) → Text → Text × Text
span p [] = ([], [])
span p (c ∷ s) = let (a, b) = span p s in if p c then (c ∷ a, b) else ([], c ∷ s)

-- `.*$`: no line feed but one at the very end.
unfoldable pub is_line : Text → Bool
is_line [] = true
is_line (c ∷ []) = true
is_line (c ∷ d ∷ s) = not (c == 0x0a) && is_line (d ∷ s)

-- `(;.*)?$`
unfoldable pub is_parameters : Text → Bool
unfolding is_line
is_parameters [] = true
is_parameters (c ∷ []) = (c == b';') || (c == 0x0a)
is_parameters (c ∷ d ∷ s) = (c == b';') && is_line (d ∷ s)

abbrev pub within : ℕ → ℕ → ℕ → Bool
within lo hi n = leb lo n && leb n hi

-- `/[a-zA-Z0-9!#$&^_.+-]{1,127}(;.*)?$`
unfoldable pub matches_subtype : Text → Bool
unfolding is_parameters is_token
matches_subtype [] = false
matches_subtype (c ∷ s) =
    let (sub, rest) = span is_token s in
    (c == b'/') && within 1 127 (length sub) && is_parameters rest

-- `_CONTENT_TYPE.match(value)`
unfoldable pub matches_content_type : Text → Bool
unfolding matches_subtype is_token
matches_content_type s =
    let (main, rest) = span is_token s in within 1 64 (length main) && matches_subtype rest

unfoldable pub normalize_content_type : Option Text → Text
normalize_content_type raw =
    if not (is_truthy raw)
    then default_content_type
    else let value = strip is_space (text_or_empty raw) in
      if ltb 255 (length value) || not (matches_content_type value)
      then default_content_type
      else value
