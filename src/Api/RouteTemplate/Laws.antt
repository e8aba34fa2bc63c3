-- ===== src/Api/RouteTemplate/Laws.antt =====
-- The label of a route does not depend on the value of its parameter.
use secure_file_service.Prelude.{
  text_eq_iff, text_eq_refl, ap, arith, ◌∙◌, ◌≡◌, ◌∷◌, ◌++◌, split, ◌≢◌, All, List, Text, [], some,
}
use secure_file_service.Api.RouteTemplate.{
  join_slashes, placeholder, replace_first, replace_params, route_template,
}
use secure_file_service.Storage.Paths.Containment.{split_of_plain, split-append}

abbrev pub HasNoSlash : Text → Type 0
HasNoSlash s = All (λ c. c ≢ b'/') s

split-join_slashes :
    (s : Text) (ss : List Text)
    → HasNoSlash s
    → All HasNoSlash ss
    → split b'/' (join_slashes (s ∷ ss)) ≡ s ∷ ss
unfolding join_slashes
split-join_slashes s [] h hs = split_of_plain s h
split-join_slashes s (t ∷ ss) h (ht, hs) =
    split-append s (join_slashes (t ∷ ss)) h ∙ ap (λ r. s ∷ r) (split-join_slashes t ss ht hs)

replace_first-append :
    (value name : Text) (pre post : List Text)
    → All (λ s. s ≢ value) pre
    → replace_first value name (pre ++ value ∷ post) ≡ pre ++ placeholder name ∷ post
unfolding replace_first
replace_first-append value name [] post h = ground (arith, text_eq_refl value)
replace_first-append value name (s ∷ pre) post (ne, h) =
    ground (arith, text_eq_iff s value, ne, replace_first-append value name pre post h)

split-route :
    (pre post : List Text) (value : Text)
    → All HasNoSlash (pre ++ value ∷ post)
    → split b'/' (join_slashes (pre ++ value ∷ post)) ≡ pre ++ value ∷ post
split-route [] post value (h, hs) = split-join_slashes value post h hs
split-route (s ∷ pre) post value (h, hs) = split-join_slashes s (pre ++ value ∷ post) h hs

-- For a route with one parameter, the label is the template of the route, whatever the value, if no
-- segment before the value is equal to it. So a label does not grow with the ids of files.
pub route_template-one :
    (name value : Text) (pre post : List Text)
    → All HasNoSlash (pre ++ value ∷ post)
    → All (λ s. s ≢ value) pre
    → route_template (join_slashes (pre ++ value ∷ post)) (some ((name, value) ∷ []))
      ≡ join_slashes (pre ++ placeholder name ∷ post)
unfolding route_template replace_params
route_template-one name value pre post plain apart =
    ap (λ ss. join_slashes (replace_first value name ss)) (split-route pre post value plain)
    ∙ ap join_slashes (replace_first-append value name pre post apart)
