-- ===== src/Domain/Filename.antt =====
-- `sanitize_filename` of app/domain/files/services.py. `unicodedata.normalize("NFC", …)` reads the
-- Unicode tables of the interpreter, so it is the parameter `nfc`.
pub mod Laws
use secure_file_service.Prelude.{
  ℕ, ◌+◌, ◌-◌, ◌≤◌, Bool, true, false, not, ◌&&◌, ◌||◌, Option, none, some, List, [], ◌∷◌, ◌++◌,
  Text, codes, text_eq, is_truthy, strip, is_space, split_last, keep, take, length, map, ltb, leb,
  ◌==◌, if◌then◌else◌,
}

abbrev pub max_filename_length : ℕ
max_filename_length = 255

abbrev pub default_filename : Text
default_filename = codes "upload.bin"

-- `[\x00-\x1f\x7f]`
abbrev pub is_control : ℕ → Bool
is_control c = leb c 0x1f || (c == 0x7f)

-- name.replace("\\", "/")
abbrev pub slash_of : ℕ → ℕ
slash_of c = if c == 0x5c then b'/' else c

-- posixpath.basename: what stands behind the last slash.
unfoldable pub basename : Text → Text
basename s = elim (split_last b'/' s) [ none ↦ s | some (dir, base) ↦ base ]

-- The name before the tests on it: one line of the source for each step.
unfoldable pub clean : Text → Text
unfolding basename
clean s =
    let unescaped = map slash_of s in
    let name = basename unescaped in
    strip (λ c. c == b'.') (strip is_space (keep (λ c. not (is_control c)) name))

-- The cut of a name that is too long, which keeps an extension of at most 16 code points.
abbrev pub cut_at : Text → Option (Text × Text) → Text
cut_at name none = take max_filename_length name
cut_at name (some (stem, ext)) =
    if leb (length ext) 16
    then take (max_filename_length - length ext - 1) stem ++ b'.' ∷ ext
    else take max_filename_length name

unfoldable pub shorten : Text → Text
shorten name = cut_at name (split_last b'.' name)

unfoldable pub finish : Text → Text
finish name =
    if text_eq name [] || text_eq name (codes ".") || text_eq name (codes "..")
    then default_filename
    else if ltb max_filename_length (length name)
    then shorten name
    else name

abbrev pub text_or_empty : Option Text → Text
text_or_empty none = []
text_or_empty (some s) = s

unfoldable pub sanitize_filename : (Text → Text) → Option Text → Text
sanitize_filename nfc raw =
    if not (is_truthy raw) then default_filename else finish (clean (nfc (text_or_empty raw)))
