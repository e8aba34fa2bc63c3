-- ===== src/Logging/Calls.antt =====
-- The calls of the loggers: in app/application, app/api, app/health and app/core, what each passes in
-- `extra`.
pub mod Shown
use secure_file_service.Api.Middleware.{status_of}
use secure_file_service.Api.RouteTemplate.{route_template}
use secure_file_service.Prelude.Dict.{Dict}
use secure_file_service.Logging.{is_one_of, LogRecord}
use secure_file_service.Api.Asgi.{Scope, Run, header}
use secure_file_service.Prelude.{
  leb, not, if◌then◌else◌, codes, ℕ, List, Option, Text, [], ◌∷◌, none, some, true, false, ◌&&◌,
  ◌||◌,
}

-- The values that are passed: texts, texts that may be None, and numbers; the duration of a request
-- is in hundredths of a millisecond.
pub data Value : Type 0 where
  text_value : Text → Value
  optional_text : Option Text → Value
  number hundredths : ℕ → Value

-- One constructor for each call that passes fields.
pub data LogCall : Type 0 where
  file_uploaded : Text → ℕ → Text → LogCall
  upload_replayed : Text → LogCall
  link_generated : Text → Text → ℕ → Text → LogCall
  object_kept file_deleted : Text → LogCall
  object_missing : Text → Text → LogCall
  download_served : Text → Text → LogCall
  domain_failure : Text → Text → LogCall
  request_completed : Text → Text → Text → ℕ → ℕ → Option Text → Option Text → Option Text → LogCall
  check_failed : Text → LogCall
  tracing_enabled : Option Text → LogCall
  service_started : Text → Text → ℕ → Text → LogCall

unfoldable pub log_extra : LogCall → Dict Value
log_extra (file_uploaded file_id size_bytes owner_id) =
    (codes "file_id", text_value file_id)
    ∷ (codes "size_bytes", number size_bytes)
    ∷ (codes "owner_id", text_value owner_id)
    ∷ []
log_extra (upload_replayed file_id) = (codes "file_id", text_value file_id) ∷ []
log_extra (link_generated file_id link_id ttl_seconds key_id) =
    (codes "file_id", text_value file_id)
    ∷ (codes "link_id", text_value link_id)
    ∷ (codes "ttl_seconds", number ttl_seconds)
    ∷ (codes "key_id", text_value key_id)
    ∷ []
log_extra (object_kept file_id) = (codes "file_id", text_value file_id) ∷ []
log_extra (file_deleted file_id) = (codes "file_id", text_value file_id) ∷ []
log_extra (object_missing file_id storage_key) =
    (codes "file_id", text_value file_id) ∷ (codes "storage_key", text_value storage_key) ∷ []
log_extra (download_served file_id link_id) =
    (codes "file_id", text_value file_id) ∷ (codes "link_id", text_value link_id) ∷ []
log_extra (domain_failure code file_id) =
    (codes "code", text_value code) ∷ (codes "file_id", text_value file_id) ∷ []
log_extra (request_completed method route path status duration client_ip user_agent user_id) =
    (codes "method", text_value method)
    ∷ (codes "route", text_value route)
    ∷ (codes "path", text_value path)
    ∷ (codes "status_code", number status)
    ∷ (codes "duration_ms", hundredths duration)
    ∷ (codes "client_ip", optional_text client_ip)
    ∷ (codes "user_agent", optional_text user_agent)
    ∷ (codes "user_id", optional_text user_id)
    ∷ []
log_extra (check_failed error) = (codes "error", text_value error) ∷ []
log_extra (tracing_enabled endpoint) = (codes "otel_endpoint", optional_text endpoint) ∷ []
log_extra (service_started environment storage_root pid active_signing_key) =
    (codes "environment", text_value environment)
    ∷ (codes "storage_root", text_value storage_root)
    ∷ (codes "pid", number pid)
    ∷ (codes "active_signing_key", text_value active_signing_key)
    ∷ []

-- `_client_ip`
unfoldable pub client_ip_of : Option (Text × ℕ) → Option Text
client_ip_of none = none
client_ip_of (some (host, port)) = some host

-- The routes whose success is not logged.
abbrev pub quiet_routes : List Text
quiet_routes = codes "/health/live" ∷ codes "/health/ready" ∷ codes "/metrics" ∷ []

-- The call at the end of `AccessLogMiddleware.__call__`; `client` is `scope["client"]`, `user_id` that
-- of `scope["state"]`.
unfoldable pub access_call : Scope → Option (Text × ℕ) → Option Text → ℕ → Run → Option LogCall
access_call scope client user_id duration r =
    let route = route_template scope.path r.path_params in
    let status = status_of 500 r.sent in
    if not (is_one_of route quiet_routes) || leb 400 status
    then some (
        request_completed scope.method route scope.path status duration (client_ip_of client)
          (header scope.headers (codes "user-agent")) user_id)
    else none
