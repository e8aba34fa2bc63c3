-- ===== src/Storage/Paths.antt =====
-- `new_key` and `path_for` of app/infrastructure/storage/local.py. A resolved path is the list of
-- its names below the file system's root; symbolic links are left out, so `resolve` is the removal
-- of empty names, "." and "..".
pub mod Containment
use secure_file_service.Prelude.{
  ℕ, Text, codes, text_eq, text_eq_iff, split, take, Option, none, some, List, [], ◌∷◌, ◌++◌, Bool,
  true, false, not, ◌&&◌, ◌||◌, if◌then◌else◌, starts_with, ◌==◌,
}
use secure_file_service.Prelude.Results.{Result, ok, err}
use secure_file_service.Domain.Errors.{Exception, value_error}

abbrev pub ResolvedPath : Type 0
ResolvedPath = List Text

-- The names from the innermost to the outermost: ".." drops one.
abbrev pub parent_of : List Text → List Text
parent_of [] = []
parent_of (x ∷ xs) = xs

unfoldable pub enter : List Text → Text → List Text
enter stack name =
    if text_eq name [] || text_eq name (codes ".")
    then stack
    else if text_eq name (codes "..")
    then parent_of stack
    else name ∷ stack

unfoldable pub enter_all : List Text → List Text → List Text
enter_all stack [] = stack
enter_all stack (name ∷ names) = enter_all (enter stack name) names

-- `(root / key).resolve()`, innermost name first: an absolute key replaces the root.
unfoldable pub resolve_key : List Text → Text → List Text
resolve_key root [] = root
resolve_key root (c ∷ key) =
    if c == b'/' then enter_all [] (split b'/' (c ∷ key)) else enter_all root (split b'/' (c ∷ key))

-- `path in other.parents`: a proper suffix, as the innermost name stands first.
unfoldable pub names_eq : List Text → List Text → Bool
names_eq [] [] = true
names_eq [] (y ∷ ys) = false
names_eq (x ∷ xs) [] = false
names_eq (x ∷ xs) (y ∷ ys) = text_eq x y && names_eq xs ys

unfoldable pub is_parent : List Text → List Text → Bool
is_parent root [] = false
is_parent root (x ∷ xs) = names_eq root xs || is_parent root xs

-- `str(path)`, innermost name first.
unfoldable pub show_path : List Text → Text
show_path [] = []
show_path (x ∷ xs) = show_path xs ++ b'/' ∷ x

unfoldable pub path_for : List Text → Text → Result Exception (List Text)
path_for root storage_key =
    let path = resolve_key root storage_key in
    if not (is_parent root path) then err value_error else ok path

-- `f"{key[:2]}/{key}"` for the 32 hexadecimal digits of a random UUID.
unfoldable pub new_key : Text → Text
new_key hex = take 2 hex ++ b'/' ∷ hex
