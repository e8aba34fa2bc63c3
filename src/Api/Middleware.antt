-- ===== src/Api/Middleware.antt =====
-- The middleware of app/api/middleware.py, and the order in which app/main.py stacks it.
pub mod Laws
use secure_file_service.Api.Validation.{is_key_char, all_chars}
use secure_file_service.Prelude.Decimal.{decimal}
use secure_file_service.Prelude.{
  ◌-◌, ◌+◌, text_eq, ◌*◌, ◌==◌, false, length, ltb, is_truthy, split_last, leb, starts_with, true,
  Option, ◌∷◌, List, map, ◌++◌, Bool, codes, [], if◌then◌else◌, ℕ, Text, none, some, ◌&&◌, ◌||◌,
}
use secure_file_service.Api.Asgi.{
  Scope, Sent, response_start, response_body, HttpMetric, in_progress_inc, in_progress_dec,
  requests_total, duration_observed, Run, App, header,
}
use secure_file_service.Api.RouteTemplate.{route_template}
use secure_file_service.Api.BodyLimit.{Message, BodyLimits, limit_for, limited_receive}

-- `new_request_id`; `hex` is what `uuid.uuid4().hex` gives.
abbrev pub new_request_id : Text → Text
new_request_id hex = codes "req_" ++ hex

abbrev pub is_request_id : Text → Bool
is_request_id s = leb 8 (length s) && leb (length s) 128 && all_chars is_key_char s

-- `^[A-Za-z0-9_.:-]{8,128}$`: the end may be in front of a last newline.
unfoldable pub valid_request_id : Text → Bool
valid_request_id s = is_request_id s || (elim (split_last 10 s) [
  | none ↦ false
  | some (line, rest) ↦ text_eq rest [] && is_request_id line
])

unfoldable pub request_id_for : Text → Scope → Text
request_id_for hex scope = elim (header scope.headers (codes "x-request-id")) [
  | none ↦ new_request_id hex
  | some incoming ↦
      if is_truthy (some incoming) && valid_request_id incoming
      then incoming
      else new_request_id hex
]

-- `send_with_id`
unfoldable pub add_request_id : Text → Sent → Sent
add_request_id id (response_start status headers) =
    response_start status (headers ++ (codes "x-request-id", id) ∷ [])
add_request_id id (response_body bytes) = response_body bytes

-- `RequestIdMiddleware.__call__`
unfoldable pub request_id_middleware : Text → App → App
request_id_middleware hex app scope messages raises =
    let id = request_id_for hex scope in
    if scope.is_http
    then (let r = app (record scope { request_id = some id }) messages raises in
        record r { sent = map (add_request_id id) r.sent })
    else app scope messages raises

-- `status_holder`: the status of the last response that was started.
unfoldable pub status_of : ℕ → List Sent → ℕ
status_of status [] = status
status_of status (response_start s headers ∷ sent) = status_of s sent
status_of status (response_body bytes ∷ sent) = status_of status sent

-- `AccessLogMiddleware.__call__`: the calls before and after the application, whether it raises or
-- not. The log line is that of Logging/Calls.
unfoldable pub access_log_middleware : App → App
access_log_middleware app scope messages raises =
    if scope.is_http
    then (let r = app scope messages raises in
        let route = route_template scope.path r.path_params in
        record r {
          calls =
              in_progress_inc scope.method ∷ r.calls
              ++ in_progress_dec scope.method
                ∷ requests_total scope.method route (status_of 500 r.sent)
                ∷ duration_observed scope.method route
                ∷ [];
        })
    else app scope messages raises

-- The characters of Latin-1 for which `str.isdigit` holds.
abbrev pub is_digit : ℕ → Bool
is_digit c = (leb b'0' c && leb c b'9') || (c == 0xb2) || (c == 0xb3) || (c == 0xb9)

unfoldable pub number_from : ℕ → Text → Option ℕ
number_from n [] = some n
number_from n (c ∷ s) =
    if leb b'0' c && leb c b'9' then number_from (n * 10 + (c - b'0')) s else none

-- `int(s)` of such characters: it refuses superscript digits, and more than 4300 characters.
unfoldable pub int_of : Text → Option ℕ
int_of s = if ltb 4300 (length s) then none else number_from 0 s

-- How the declared length bears on the request: it is refused, testing it raises ValueError, or the
-- application runs.
pub data Admission : Type 0 where
  refused raises_error admitted : Admission

-- `int(declared) > limit`
abbrev pub compare_length : ℕ → Option ℕ → Admission
compare_length limit none = raises_error
compare_length limit (some n) = if ltb limit n then refused else admitted

unfoldable pub admission : ℕ → Option Text → Admission
admission limit none = admitted
admission limit (some declared) =
    if is_truthy (some declared) && all_chars is_digit declared
    then compare_length limit (int_of declared)
    else admitted

-- What `_send_json` sends: `json` is the text of the error envelope.
abbrev pub too_large : Text → Run
too_large json = record {
  sent =
      response_start 413 (
        (codes "content-type", codes "application/json")
        ∷ (codes "content-length", decimal (length json))
        ∷ [])
      ∷ response_body json
      ∷ [];
  raised = false;
  calls = [];
  path_params = none;
}

abbrev pub failed_run : Run
failed_run = record { sent = []; raised = true; calls = []; path_params = none }

-- `BodySizeLimitMiddleware.__call__`
unfoldable pub body_size_middleware : (ℕ → Option Text → Text) → BodyLimits → App → App
body_size_middleware json limits app scope messages raises =
    let limit = limit_for limits scope.method scope.path in
    if scope.is_http
    then elim (admission limit (header scope.headers (codes "content-length"))) [
      | refused ↦ too_large (json limit scope.request_id)
      | raises_error ↦ failed_run
      | admitted ↦
          let (passed, over) = limited_receive limit 0 messages in app scope passed (over || raises)
    ]
    else app scope messages raises

-- `ProbeFriendlyTrustedHostMiddleware.__call__`; `trusted_host` is the middleware that it extends.
unfoldable pub trusted_host_middleware : (App → App) → App → App
trusted_host_middleware trusted_host app scope messages raises =
    if scope.is_http && starts_with (codes "/health/") scope.path
    then app scope messages raises
    else trusted_host app scope messages raises

-- The stack of `create_app`, outermost first. `inner` is the application with its CORS middleware,
-- and with the trusted hosts if they are restricted.
unfoldable pub stack : Text → (ℕ → Option Text → Text) → BodyLimits → App → App
stack hex json limits inner =
    request_id_middleware hex (access_log_middleware (body_size_middleware json limits inner))
