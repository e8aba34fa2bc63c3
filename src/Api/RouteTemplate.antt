-- ===== src/Api/RouteTemplate.antt =====
-- `_route_template` of app/api/middleware.py.
pub mod Laws
use secure_file_service.Prelude.{
  split, ◌||◌, codes, [], text_eq, if◌then◌else◌, ◌++◌, Bool, ◌∷◌, List, Text, Option, none, some,
}

-- "/".join(segments)
unfoldable pub join_slashes : List Text → Text
join_slashes [] = []
join_slashes (s ∷ []) = s
join_slashes (s ∷ t ∷ ss) = s ++ b'/' ∷ join_slashes (t ∷ ss)

-- "{" + name + "}"
abbrev pub placeholder : Text → Text
placeholder name = b'{' ∷ name ++ codes "}"

-- The inner loop: the first segment that is the value.
unfoldable pub replace_first : Text → Text → List Text → List Text
replace_first literal name [] = []
replace_first literal name (s ∷ ss) =
    if text_eq s literal then placeholder name ∷ ss else s ∷ replace_first literal name ss

unfoldable pub replace_params : List (Text × Text) → List Text → List Text
replace_params [] segments = segments
replace_params ((name, value) ∷ params) segments =
    replace_params params (replace_first value name segments)

abbrev pub is_static : Text → Bool
is_static path = text_eq path (codes "/openapi.json") || text_eq path (codes "/docs")

-- `none` for a path that no route matches.
unfoldable pub route_template : Text → Option (List (Text × Text)) → Text
route_template path none = if is_static path then path else codes "unmatched"
route_template path (some []) = path
route_template path (some (param ∷ params)) =
    join_slashes (replace_params (param ∷ params) (split b'/' path))
