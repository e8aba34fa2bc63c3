-- ===== src/Api/Validation.antt =====
-- What the signatures of the endpoints require of their inputs: app/api/v1/files.py,
-- app/api/v1/downloads.py and `CreateLinkRequest` of app/schemas/files.py.
use secure_file_service.Prelude.Int.{negsuc, pos, ℤ}
use secure_file_service.Prelude.{
  false, ◌*◌, none, some, [], ◌∷◌, length, Option, true, ◌==◌, leb, ℕ, Text, Bool, ◌&&◌, ◌||◌,
}

-- LimitQuery, OffsetQuery
unfoldable pub limit_ok : ℕ → Bool
limit_ok limit = leb 1 limit && leb limit 100

unfoldable pub offset_ok : ℕ → Bool
offset_ok offset = leb offset 1000000

abbrev pub is_alphanumeric : ℕ → Bool
is_alphanumeric c =
    (leb b'A' c && leb c b'Z') || (leb b'a' c && leb c b'z') || (leb b'0' c && leb c b'9')

-- `[A-Za-z0-9_.:\-]`
abbrev pub is_key_char : ℕ → Bool
is_key_char c = is_alphanumeric c || (c == b'_') || (c == b'.') || (c == b':') || (c == b'-')

-- `[A-Za-z0-9_\-]`
abbrev pub is_sig_char : ℕ → Bool
is_sig_char c = is_alphanumeric c || (c == b'_') || (c == b'-')

unfoldable pub all_chars : (ℕ → Bool) → Text → Bool
all_chars p [] = true
all_chars p (c ∷ s) = p c && all_chars p s

-- IdempotencyKeyHeader
unfoldable pub idempotency_key_ok : Option Text → Bool
unfolding all_chars
idempotency_key_ok none = true
idempotency_key_ok (some key) =
    leb 1 (length key) && leb (length key) 255 && all_chars is_key_char key

-- `lid` and `kid`
unfoldable pub link_part_ok : Text → Bool
link_part_ok s = leb 1 (length s) && leb (length s) 64

-- `_SIG_PATTERN`
unfoldable pub sig_ok : Text → Bool
unfolding all_chars
sig_ok sig = (length sig == 43) && all_chars is_sig_char sig

-- `ttl_seconds` of `CreateLinkRequest`
unfoldable pub ttl_ok : Option ℤ → Bool
ttl_ok none = true
ttl_ok (some (pos ttl)) = leb 1 ttl && leb ttl (365 * 24 * 3600)
ttl_ok (some (negsuc ttl)) = false
