-- ===== src/Tests/Logs.antt =====
-- Log lines and the calls on the metrics, at concrete inputs.
use secure_file_service.Logging.Calls.Shown.{log_call-IsShown, AllAccepted}
use secure_file_service.Logging.Payload.{json_payload-lookup}
use secure_file_service.Prelude.Dict.{lookup-none_iff, Dict, lookup, HasDistinctKeys}
use secure_file_service.Logging.{
  base_payload, json_payload, reserved, is_one_of, is_extra, LogContext, LogRecord,
}
use secure_file_service.Prelude.{
  drop, ◌++◌, starts_with, text_eq, Text, codes, none, some, [], ◌∷◌, refl, arith, true, ◌≡◌,
}
use secure_file_service.Api.Asgi.{requests_total}
use secure_file_service.Application.World.{downloads}
use secure_file_service.Logging.Calls.{log_extra, Value, LogCall, file_uploaded, text_value, number}
use secure_file_service.Telemetry.{
  families-accepts, engine_use, middleware_use, handler_use, families, accepts, query_observed,
}

-- A record with an extra field that replaces the formatter's, a reserved one, and an exception.
abbrev log_record : LogRecord Text Text
log_record = record {
  created = 0;
  levelname = codes "INFO";
  name = codes "app";
  message = codes "hello";
  exc_info = some (codes "boom");
  attributes = (codes "msg", codes "hello") ∷ (codes "service", codes "other") ∷ [];
}

abbrev log_context : LogContext
log_context = record { request_id = some (codes "r"); user_id = none }

log_record-HasDistinctKeys : HasDistinctKeys log_record.attributes
log_record-HasDistinctKeys = (((λ same. ground arith), tt), (tt, tt))

json_payload-lookup_example :
    HasDistinctKeys (
      json_payload
        (λ s. s)
        (λ t. [])
        (λ e. e)
        (codes "files")
        (codes "test")
        log_context
        log_record)
    × (lookup (codes "service") (
          json_payload
            (λ s. s)
            (λ t. [])
            (λ e. e)
            (codes "files")
            (codes "test")
            log_context
            log_record)
        ≡ some (codes "other"))
    × (lookup (codes "request_id") (
          base_payload
            (λ s. s)
            (λ t. [])
            (λ e. e)
            (codes "files")
            (codes "test")
            log_context
            log_record)
        ≡ some (codes "r"))
    × (lookup (codes "user_id") (
          base_payload
            (λ s. s)
            (λ t. [])
            (λ e. e)
            (codes "files")
            (codes "test")
            log_context
            log_record)
        ≡ none)
unfolding is_extra is_one_of reserved lookup text_eq starts_with
json_payload-lookup_example =
    json_payload-lookup (λ s. s) (λ t. []) (λ e. e) (codes "files") (codes "test") log_context
      log_record (codes "service") log_record-HasDistinctKeys

families-accepts_example :
    (accepts families (handler_use (λ r. codes "expired") downloads) ≡ true)
    × (accepts families (middleware_use (requests_total (codes "GET") (codes "/metrics") 200))
        ≡ true)
    × (accepts families (engine_use query_observed) ≡ true)
families-accepts_example =
    families-accepts (λ r. codes "expired") downloads
      (requests_total (codes "GET") (codes "/metrics") 200) query_observed

-- A line about an upload, with two attributes of its own record.
abbrev own_attributes : Dict Value
own_attributes =
    (codes "name", text_value (codes "app")) ∷ (codes "msg", text_value (codes "hi")) ∷ []

abbrev call : LogCall
call = file_uploaded (codes "f") 3 (codes "ann")

abbrev call_record : LogRecord Value Text
call_record = record {
  created = 0;
  levelname = codes "INFO";
  name = codes "app";
  message = codes "hi";
  exc_info = none;
  attributes = own_attributes ++ log_extra call;
}

call_record-HasDistinctKeys : HasDistinctKeys call_record.attributes
unfolding log_extra lookup text_eq
call_record-HasDistinctKeys = (
  (lookup-none_iff (codes "name") (drop 1 call_record.attributes)).0 refl,
  (
    (lookup-none_iff (codes "msg") (drop 2 call_record.attributes)).0 refl,
    (
      (lookup-none_iff (codes "file_id") (drop 3 call_record.attributes)).0 refl,
      (
        (lookup-none_iff (codes "size_bytes") (drop 4 call_record.attributes)).0 refl,
        ((lookup-none_iff (codes "owner_id") (drop 5 call_record.attributes)).0 refl, tt),
      ),
    ),
  ),
)

log_call-IsShown_example :
    (lookup (codes "size_bytes") (
        json_payload text_value
          (λ t. [])
          (λ e. e)
          (codes "files")
          (codes "test")
          log_context
          call_record)
      ≡ some (number 3))
    × AllAccepted (log_extra call)
unfolding log_extra lookup text_eq is_one_of reserved
log_call-IsShown_example =
    log_call-IsShown text_value (λ t. []) (λ e. e) (codes "files") (codes "test") log_context
      call_record call own_attributes (codes "size_bytes") (number 3) refl (refl, (refl, tt))
      call_record-HasDistinctKeys refl
