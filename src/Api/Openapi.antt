-- ===== src/Api/Openapi.antt =====
-- `_use_error_envelope_in_openapi` of app/main.py. `J` stands for the parts of the schema that it
-- does not look into.
use mathlib.Core.Option
use secure_file_service.Prelude.{
  Option-cases, text_eq_iff, text_eq, Option, if◌then◌else◌, codes, Text, [], ◌∷◌, none, some, refl,
  ◌≡◌, arith, inl, inr,
}
use secure_file_service.Prelude.Dict.{
  Dict, lookup, map_values, remove, lookup-map_values, lookup-remove,
}

pub record ApiResponse (J : Type 0) : Type 0 where
  pub description : Text
  pub content : J
  pub other : J

-- The responses by their status codes.
pub record Operation (J : Type 0) : Type 0 where
  pub responses : Dict (ApiResponse J)
  pub other : J

pub record OpenapiSchema (J : Type 0) : Type 0 where
  pub paths : Dict (Dict (Operation J))
  pub schemas : Dict J
  pub other : J

module _ {J : Type 0} where
  -- The response of a failed validation, with the reference to ErrorResponse as its content.
  abbrev pub truthful : J → ApiResponse J → ApiResponse J
  truthful envelope r = record r { description = codes "Validation error"; content = envelope }

  unfoldable pub correct_responses : J → Dict (ApiResponse J) → Dict (ApiResponse J)
  correct_responses envelope [] = []
  correct_responses envelope ((status, r) ∷ responses) =
      let rest = correct_responses envelope responses in
      if text_eq status (codes "422")
      then (status, truthful envelope r) ∷ responses
      else (status, r) ∷ rest

  unfoldable pub correct_operation : J → Operation J → Operation J
  correct_operation envelope o = record o { responses = correct_responses envelope o.responses }

  unfoldable pub corrected : J → OpenapiSchema J → OpenapiSchema J
  corrected envelope s = record s {
    paths = map_values (map_values (correct_operation envelope)) s.paths;
    schemas = remove (codes "ValidationError") (remove (codes "HTTPValidationError") s.schemas);
  }

  -- `custom_openapi`: the schema, and what `app.openapi_schema` then holds.
  unfoldable pub custom_openapi :
      J → OpenapiSchema J → Option (OpenapiSchema J) → OpenapiSchema J × Option (OpenapiSchema J)
  custom_openapi envelope original (some cached) = (cached, some cached)
  custom_openapi envelope original none = let s = corrected envelope original in (s, some s)

  correct_responses-lookup :
      (envelope : J) (status : Text) (responses : Dict (ApiResponse J))
      → lookup status (correct_responses envelope responses) ≡ (
          if text_eq (codes "422") status
          then Option.map (truthful envelope) (lookup status responses)
          else lookup status responses)
  unfolding lookup correct_responses
  correct_responses-lookup envelope status [] = ground arith
  correct_responses-lookup envelope status ((s, r) ∷ responses) = ground (
    arith,
    correct_responses-lookup envelope status responses,
    text_eq_iff s (codes "422"),
    text_eq_iff s status,
    text_eq_iff (codes "422") status,
  )

  -- The response that a schema documents for a path, a method and a status.
  unfoldable pub documented : Text → Text → Text → OpenapiSchema J → Option (ApiResponse J)
  documented path method status s = elim (lookup path s.paths) [
    | none ↦ none
    | some operations ↦ elim (lookup method operations) [
      | none ↦ none
      | some o ↦ lookup status o.responses
    ]
  ]

  -- The schema that is served first documents the same responses as FastAPI's, but for the status
  -- 422, whose description and content are those of the error envelope; the two schemas of FastAPI's
  -- validation errors are gone from the components, and no other; and it is served again afterwards.
  pub custom_openapi-IsTruthful :
      (envelope : J) (original later : OpenapiSchema J) (path method status name : Text)
      → let (s, cached) = custom_openapi envelope original none in
        (documented path method status s ≡ (
          if text_eq (codes "422") status
          then Option.map (truthful envelope) (documented path method status original)
          else documented path method status original))
        × (lookup name s.schemas ≡ (
            if text_eq (codes "ValidationError") name
            then none
            else if text_eq (codes "HTTPValidationError") name
            then none
            else lookup name original.schemas))
        × (custom_openapi envelope later cached ≡ (s, cached))
  unfolding custom_openapi corrected documented correct_operation
  custom_openapi-IsTruthful envelope original later path method status name =
      let operations =
        lookup-map_values (map_values (correct_operation envelope)) path original.paths in
      let one = lookup-remove (codes "HTTPValidationError") name original.schemas in
      let two =
        lookup-remove (codes "ValidationError") name
          (remove (codes "HTTPValidationError") original.schemas) in
      (
        (elim (Option-cases (lookup path original.paths)) [
          | inl absent ↦ ground (arith, operations, absent)
          | inr (os, found) ↦
              let operation = lookup-map_values (correct_operation envelope) method os in
              elim (Option-cases (lookup method os)) [
                | inl missing ↦ ground (arith, operations, found, operation, missing)
                | inr (o, there) ↦ ground (
                  arith,
                  operations,
                  found,
                  operation,
                  there,
                  correct_responses-lookup envelope status o.responses,
                )
              ]
        ]),
        ground (arith, one, two),
        refl,
      )
