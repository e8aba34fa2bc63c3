-- ===== src/Domain/Disposition.antt =====
-- `content_disposition` of app/domain/files/services.py.
pub mod Laws
use secure_file_service.Prelude.{◌++◌, ◌==◌, ltb, Option, codes, map, if◌then◌else◌, Text, ℕ}
use mathlib.Core.Option
use secure_file_service.Prelude.Percent.{quote}

-- filename.encode("ascii", "replace").decode("ascii")
abbrev pub ascii_of : ℕ → ℕ
ascii_of c = if ltb c 0x80 then c else b'?'

-- .replace('"', "'").replace("\\", "_")
abbrev pub quotable_of : ℕ → ℕ
quotable_of c = if c == 0x22 then 0x27 else if c == 0x5c then b'_' else c

unfoldable pub ascii_fallback : Text → Text
ascii_fallback filename = map (λ c. quotable_of (ascii_of c)) filename

-- The header for a quoted name and its fallback.
unfoldable pub attachment : Text → Text → Text
attachment fallback encoded =
    codes "attachment; filename=\"" ++ (fallback ++ (codes "\"; filename*=UTF-8''" ++ encoded))

-- `none` is the UnicodeEncodeError of `quote`.
unfoldable pub content_disposition : Text → Option Text
content_disposition filename = Option.map (attachment (ascii_fallback filename)) (quote filename)
