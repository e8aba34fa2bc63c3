-- ===== src/Tests/Http.antt =====
-- The middleware, the labels of routes, the download header and the reading of objects at concrete
-- inputs.

use secure_file_service.Api.Health.{run_checks}
use secure_file_service.Storage.Paths.{
  names_eq, enter, enter_all, new_key, resolve_key, is_parent, path_for,
}
use secure_file_service.Prelude.Percent.{hex_digit, is_unreserved, quote_byte, quote_bytes, quote}
use secure_file_service.Tests.Memory.{digest}
use secure_file_service.Domain.Errors.{Exception}
use secure_file_service.Storage.Local.Refinement.{IsUuidHex}
use secure_file_service.Domain.Disposition.Laws.{
  content_disposition-IsReadable, extended_name, IsFallbackChar, IsHeaderChar, IsPrintable,
}
use secure_file_service.Api.RouteTemplate.Laws.{HasNoSlash}
use secure_file_service.Api.Middleware.Laws.{stack-IsAccounted, Carries}
use secure_file_service.Prelude.Utf8.{encode_char, utf8, IsAscii}
use secure_file_service.Domain.Entities.{StoredObject}
use secure_file_service.Storage.Local.{finish, copy, write_body, write, Disk}
use secure_file_service.Storage.Local.Reading.{open_object-write, IsChunk, concat, open_object}
use secure_file_service.Domain.Disposition.{ascii_fallback, attachment, content_disposition}
use secure_file_service.Api.RouteTemplate.{
  replace_first, replace_params, join_slashes, route_template,
}
use secure_file_service.Api.Middleware.{status_of, request_id_for, stack}
use secure_file_service.Api.BodyLimit.{make_limits, BodyLimits}
use secure_file_service.Api.Health
use secure_file_service.Api.Lifecycle.{
  lifespan-IsSafe, probe_of, initial, take_steps, lifespan, readiness_after, is_taken, Step,
  engine_created, storage_ready, engine_disposed,
}
use secure_file_service.Prelude.{
  take, Bool, refl, text_eq, split, ◌++◌, arith, ◌≡◌, ◌≢◌, false, Option, List, All, true, codes, ℕ,
  Text, none, some, [], ◌∷◌,
}
use secure_file_service.Api.Asgi.{
  Scope, response_start, response_body, App, Run, in_progress_inc, in_progress_dec, requests_total,
  duration_observed,
}
use secure_file_service.Prelude.Results.{Result, ok}
use secure_file_service.Storage.{payload, Stream, chunk}

abbrev hex : Text
hex = codes "0af0af0af0af4af08af0af0af0af0af0"

abbrev json : ℕ → Option Text → Text
json limit id = codes "{}"

abbrev limits : BodyLimits
limits = make_limits 10 (codes "/v1/files" ∷ []) (some 20)

abbrev inner : App
inner scope messages raises = record {
  sent = response_start 200 [] ∷ response_body (codes "ok") ∷ [];
  raised = false;
  calls = [];
  path_params = some [];
}

abbrev scope : Scope
scope = record {
  is_http = true;
  method = codes "GET";
  path = codes "/health/live";
  headers = (codes "x-request-id", codes "client-0001") ∷ [];
  request_id = none;
}

abbrev answer : Run
answer = stack hex json limits inner scope [] false

hex-IsAscii : All IsAscii hex
hex-IsAscii = ground arith

stack-IsAccounted_example :
    All (Carries (request_id_for hex scope)) answer.sent
    × All IsAscii (request_id_for hex scope)
    × (answer.calls
        ≡ in_progress_inc scope.method
          ∷ in_progress_dec scope.method
          ∷ requests_total scope.method
              (route_template scope.path answer.path_params)
              (status_of 500 answer.sent)
          ∷ duration_observed scope.method (route_template scope.path answer.path_params)
          ∷ [])
stack-IsAccounted_example =
    stack-IsAccounted hex json limits inner scope [] false hex-IsAscii (λ s ms b. refl) refl

abbrev before_id : List Text
before_id = [] ∷ codes "v1" ∷ codes "files" ∷ []

after_slashes : All HasNoSlash (before_id ++ codes "f1" ∷ codes "links" ∷ [])
after_slashes = ground arith

apart_id : All (λ s. s ≢ codes "f1") before_id
apart_id = ((λ e. ground (arith, e)), ((λ e. ground (arith, e)), ((λ e. ground (arith, e)), tt)))

-- A segment of the route that is equal to the id is taken for it.
misplaced_label :
    route_template (codes "/v1/files/v1") (some ((codes "file_id", codes "v1") ∷ []))
    ≡ codes "/{file_id}/files/v1"
unfolding route_template replace_params replace_first join_slashes split text_eq
misplaced_label = refl

abbrev download_name : Text
download_name = 0xe9 ∷ codes "\"a.txt"

abbrev disposition : Text
disposition = codes "attachment; filename=\"?'a.txt\"; filename*=UTF-8''%C3%A9%22a.txt"

disposition_runs : content_disposition download_name ≡ some disposition
unfolding content_disposition attachment ascii_fallback quote utf8 encode_char quote_bytes
    quote_byte is_unreserved hex_digit
disposition_runs = refl

download_name-IsPrintable : All IsPrintable download_name
download_name-IsPrintable = ground arith

content_disposition-IsReadable_example :
    All IsHeaderChar disposition
    × All IsFallbackChar (ascii_fallback download_name)
    × ((bytes : Text) × (utf8 download_name ≡ some bytes)
        × (extended_name disposition ≡ some bytes)
        × (disposition ≡ attachment (ascii_fallback download_name) (quote_bytes bytes)))
content_disposition-IsReadable_example =
    content_disposition-IsReadable download_name disposition download_name-IsPrintable
      disposition_runs

abbrev uuid : ℕ → Text
uuid i = hex

uuid-IsUuidHex : (i : ℕ) → IsUuidHex (uuid i)
uuid-IsUuidHex i = ground arith

abbrev disk : Disk
disk = record {
  files = [];
  drawn = 0;
  faults = record {
    opening = false;
    writing = λ i. false;
    syncing = false;
    making_directory = false;
    replacing = false;
    unlinking = false;
  };
}

abbrev stream : Stream
stream = chunk (codes "ab") ∷ chunk (codes "c") ∷ []

abbrev written : Result Exception StoredObject × Disk
written = write digest uuid (codes "data" ∷ []) stream 10 disk

abbrev object : StoredObject
object = record {
  storage_key = codes "0a/0af0af0af0af4af08af0af0af0af0af0";
  size_bytes = 3;
  sha256 = codes "abc";
}

writes : written ≡ (ok object, written.1)
unfolding write path_for is_parent resolve_key new_key enter_all split enter text_eq names_eq
    write_body finish copy
writes = refl

open_object-write_example :
    (chunks : List Text) × (open_object (codes "data" ∷ []) 2 object.storage_key written.1
      ≡ ok chunks)
    × (concat chunks ≡ payload stream)
    × All (IsChunk 2) chunks
open_object-write_example =
    open_object-write digest uuid uuid-IsUuidHex (codes "data" ∷ []) 2 stream 10 disk written.1
      object (omega arith) writes

-- A process that serves requests.
abbrev raises_never : Step → Bool
raises_never step = false

serving_probe :
    (Health.ready
      (probe_of (readiness_after (take 7 (lifespan raises_never)) initial) true true)).status_code
    ≡ 200
unfolding Health.ready run_checks readiness_after lifespan take_steps
serving_probe = refl

lifespan-IsSafe_example :
    (is_taken engine_created (take 7 (lifespan raises_never)) ≡ true)
    × (is_taken storage_ready (take 7 (lifespan raises_never)) ≡ true)
    × (is_taken engine_disposed (take 7 (lifespan raises_never)) ≡ false)
    × ((readiness_after (take 7 (lifespan raises_never)) initial).shutting_down ≡ false)
lifespan-IsSafe_example = lifespan-IsSafe raises_never 7 true true serving_probe
