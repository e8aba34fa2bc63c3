-- ===== src/Api/Asgi.antt =====
-- What the middleware of app/api/middleware.py sees of a request, and what running an application on
-- it gives. Header values are bytes, read as Latin-1.
use secure_file_service.Prelude.{text_eq, if◌then◌else◌, none, Option, List, Text, ℕ, Bool}
use secure_file_service.Prelude.{[], ◌∷◌, none, some}
use secure_file_service.Api.BodyLimit.{Message}

pub record Scope : Type 0 where
  -- scope["type"] == "http"
  pub is_http : Bool
  pub method : Text
  pub path : Text
  pub headers : List (Text × Text)
  -- scope["state"]["request_id"]
  pub request_id : Option Text

pub data Sent : Type 0 where
  response_start : ℕ → List (Text × Text) → Sent
  response_body : Text → Sent

-- The calls on the HTTP metrics.
pub data HttpMetric : Type 0 where
  in_progress_inc : Text → HttpMetric
  in_progress_dec : Text → HttpMetric
  requests_total : Text → Text → ℕ → HttpMetric
  duration_observed : Text → Text → HttpMetric

-- A run: what was sent, whether it raised, the calls on the metrics, and the route that was matched
-- with the values of its parameters.
pub record Run : Type 0 where
  pub sent : List Sent
  pub raised : Bool
  pub calls : List HttpMetric
  pub path_params : Option (List (Text × Text))

-- An application: it receives messages, after which receiving may raise.
abbrev pub App : Type 0
App = Scope → List Message → Bool → Run

-- `_header`: the first value.
unfoldable pub header : List (Text × Text) → Text → Option Text
header [] name = none
header ((key, value) ∷ rest) name = if text_eq key name then some value else header rest name
