-- ===== src/Tests/Startup.antt =====
-- Settings that load, the application made of them, the columns of an upload and the script that
-- waits for the database, at concrete inputs.
use secure_file_service.Persistence.Engine.Timing.{
  execute_all_lem, execute_all, unfinished, Statement, durations, Timings,
}
use secure_file_service.Persistence.Schema.Fitting.{upload-takes}
use secure_file_service.Persistence.Models.{audit_model, file_model}
use secure_file_service.Persistence.Schema.{
  event_cells, audit_events_table, file_cells, files_table, takes_row,
}
use secure_file_service.Domain.Entities.{StoredObject}
use secure_file_service.Application.Upload.{
  uploaded_event, new_record, UploadDraws, UploadFileCommand,
}
use secure_file_service.Prelude.Utf8.{encode_char, utf8}
use secure_file_service.Api.Factory.Laws.{create_app-IsTransparent}
use secure_file_service.Api.Validation.{idempotency_key_ok, all_chars}
use secure_file_service.Api.Middleware.{
  access_log_middleware, request_id_middleware, number_from, int_of, admission,
}
use secure_file_service.Prelude.Dict.{lookup}
use secure_file_service.Api.Factory.{guarded, create_app, body_limits}
use secure_file_service.Config.{
  entry_of, parse_chunks, parse_pairs, encode_values, signing_key_ring, api_key_map, is_production,
  validate_production, validate, normalize_database_url, Settings,
}
use secure_file_service.Tests.Settings.{settings}
use secure_file_service.Config.Fields.{
  strip_trailing_slash, fields_ok, upper_level, load_settings, load_settings-IsUsable, IsUsable,
}
use secure_file_service.Prelude.{
  List, is_space, strip, split_once, split, strip_end, starts_with, ◌==◌, text_eq, ℕ, Option, Text,
  codes, none, some, [], ◌∷◌, refl, arith, true, false, ◌≡◌,
}
use secure_file_service.Prelude.Results.{ok}
use secure_file_service.Api.Asgi.{header, App, Scope, response_start}
use secure_file_service.Api.BodyLimit.{body_size, limit_for, make_limits, http_request}
use secure_file_service.Scripts.WaitForDb.{main, main-Ends, engine_for, Attempt, IsEnd, End}

-- The settings as they are after the field validators.
abbrev loaded : Settings
loaded = record settings { database_url = codes "postgresql+psycopg://db" }

settings_load : load_settings (λ s. s) settings ≡ ok loaded
unfolding load_settings upper_level fields_ok strip_trailing_slash normalize_database_url validate
    validate_production is_production api_key_map signing_key_ring encode_values parse_pairs
    parse_chunks entry_of split split_once strip strip_end is_space lookup text_eq utf8 encode_char
    starts_with
settings_load = refl

load_settings-IsUsable_example : IsUsable loaded
load_settings-IsUsable_example = load_settings-IsUsable (λ s. s) settings loaded settings_load

-- An upload of three bytes, to routes that answer 201.
abbrev routes : App
routes scope messages raises = record {
  sent = response_start 201 [] ∷ [];
  raised = raises;
  calls = [];
  path_params = none;
}

abbrev scope : Scope
scope = record {
  is_http = true;
  method = codes "POST";
  path = codes "/v1/files";
  headers = (codes "content-length", codes "3") ∷ [];
  request_id = none;
}

create_app-IsTransparent_example :
    (create_app loaded
        (codes "0")
        (λ n id. [])
        (λ options app. app)
        (λ hosts app. app)
        routes
        scope
        (http_request (codes "abc") ∷ [])
        false
      ≡ request_id_middleware
          (codes "0")
          (access_log_middleware (guarded loaded (λ options app. app) (λ hosts app. app) routes))
          scope
          (http_request (codes "abc") ∷ [])
          false)
unfolding body_limits make_limits limit_for admission header int_of number_from all_chars body_size
    text_eq strip_end
create_app-IsTransparent_example =
    create_app-IsTransparent loaded (codes "0") (λ n id. []) (λ options app. app) (λ hosts app. app)
      routes scope (http_request (codes "abc") ∷ []) false refl (omega arith)

-- A statement that fails between two that succeed.
abbrev statements : List Statement
statements =
    record { start = 1; finish = 4; succeeds = true }
    ∷ record { start = 5; finish = 6; succeeds = false }
    ∷ record { start = 7; finish = 9; succeeds = true }
    ∷ []

abbrev no_timings : Timings
no_timings = record { query_start = []; observed = [] }

execute_all_lem_example :
    ((execute_all statements no_timings).observed ≡ 3 ∷ 2 ∷ [])
    × ((execute_all statements no_timings).query_start ≡ 5 ∷ [])
unfolding durations unfinished
execute_all_lem_example = execute_all_lem statements no_timings

-- A database that answers the third attempt.
abbrev third_answers : Text → Option ℕ → ℕ → Attempt
third_answers url timeout n = record { takes = some 1; answers = n == 3; oversleeps = 0 }

main-Ends_example :
    (end : End) × (main 61 third_answers 60 1 100 (some (codes "postgres://db")) ≡ some end)
    × IsEnd (engine_for third_answers (codes "postgres://db")) 1 160 100 end
main-Ends_example = main-Ends third_answers 60 1 100 b'p' (codes "ostgres://db") (omega arith)

abbrev upload_command : UploadFileCommand
upload_command = record {
  owner_id = codes "ann";
  filename = some (codes "a.txt");
  content_type = some (codes "text/plain");
  stream = [];
  idempotency_key = some (codes "key-0001");
  context = record { request_id = some (codes "req-00000001"); client_ip = none };
}

abbrev upload_draws : UploadDraws
upload_draws = record {
  now = 1000000;
  file_id = codes "00000000-0000-4000-8000-000000000000";
  event_id = codes "00000000-0000-4000-8000-000000000001";
  nfc = λ s. s;
}

abbrev stored : StoredObject
stored = record { storage_key = codes "ab/cd/abcd"; size_bytes = 3; sha256 = codes "abc" }

upload-takes_example :
    let file = new_record upload_command upload_draws stored in
    (takes_row files_table.columns (file_cells (file_model file)) ≡ true)
    × (takes_row audit_events_table.columns
          (event_cells (audit_model (uploaded_event upload_command upload_draws file)))
        ≡ true)
unfolding idempotency_key_ok all_chars
upload-takes_example =
    upload-takes upload_command upload_draws stored
      (record { owner = omega arith; request_id = omega arith; client_ip = tt })
      (record { digest = omega arith; key = omega arith; size = omega arith }) refl refl refl
