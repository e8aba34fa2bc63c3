-- ===== src/Api/Http.antt =====
-- Responses, and the rest of app/api/errors.py: the envelope of every failure.
use secure_file_service.Prelude.Decimal.{decimal}
use secure_file_service.Domain.Errors.{domain, Exception}
use secure_file_service.Prelude.{
  Bool, ◌==◌, ◌+◌, some, ◌&&◌, none, text_eq, ◌++◌, map, leb, is_truthy, not, ◌∷◌, codes, [],
  if◌then◌else◌, keep, List, Text, Option, ℕ,
}
use secure_file_service.Api.Schemas.{FileResponse, SignedLinkResponse, AuditEventResponse}
use secure_file_service.Domain.Errors.{domain, operational_error, integrity_error}
use secure_file_service.Api.Errors.{response_of}

pub record Response (B : Type 0) : Type 0 where
  pub status : ℕ
  pub headers : List (Text × Text)
  pub body : B

-- `PageMeta` and `ErrorDetail` of app/schemas/common.py.
pub record PageMeta : Type 0 where
  pub limit : ℕ
  pub offset : ℕ
  pub total : ℕ

pub record ErrorDetail : Type 0 where
  pub field : Option Text
  pub reason : Text

-- `ErrorBody` of app/schemas/common.py.
pub record ErrorBody : Type 0 where
  pub code : Text
  pub message : Text
  pub details : List ErrorDetail
  pub request_id : Option Text

-- What the endpoints answer: a model, no content, the file at a path with its media type, or an
-- error.
pub data Body : Type 0 where
  file_body : FileResponse → Body
  files_body : List FileResponse → PageMeta → Body
  link_body : SignedLinkResponse → Body
  events_body : List AuditEventResponse → PageMeta → Body
  no_content : Body
  stored_file : Text → Text → Body
  error_body : ErrorBody → Body

-- `_request_id`
unfoldable pub request_id_of : Option Text → Option Text
request_id_of value = if is_truthy value then value else none

unfoldable pub error_response :
    Option Text → ℕ → Text → Text → List ErrorDetail → List (Text × Text) → Response Body
error_response request_id status code message details headers = record {
  status = status;
  headers = headers;
  body = error_body (record {
    code = code;
    message = message;
    details = details;
    request_id = request_id_of request_id;
  });
}

-- The header that `_unexpected` adds.
abbrev pub correlation : Option Text → List (Text × Text)
correlation none = []
correlation (some request_id) = (codes "X-Request-ID", request_id) ∷ []

-- The headers of the response to an exception: `_unexpected` answers those that have no handler of
-- their own.
abbrev pub failure_headers : Option Text → Exception → List (Text × Text)
failure_headers request_id (domain e) = []
failure_headers request_id operational_error = []
failure_headers request_id integrity_error = []
failure_headers request_id other = correlation (request_id_of request_id)

-- The response to an exception that a handler raises.
unfoldable pub exception_response : Option Text → Exception → Response Body
exception_response request_id e =
    let r = response_of e in
    error_response request_id r.status r.code r.message [] (failure_headers request_id e)

-- `detail` of an HTTPException: a dictionary with a code and a message, or a text.
pub data HttpDetail : Type 0 where
  coded : Text → Text → HttpDetail
  plain : Text → HttpDetail

pub record HttpException : Type 0 where
  pub status_code : ℕ
  pub detail : HttpDetail
  -- FastAPI's class, not the one of Starlette that it extends.
  pub of_fastapi : Bool
  pub headers : List (Text × Text)

-- `_HTTP_CODES`
abbrev http_codes : List (ℕ × Text)
http_codes =
    (400, codes "BAD_REQUEST")
    ∷ (401, codes "UNAUTHORIZED")
    ∷ (403, codes "FORBIDDEN")
    ∷ (404, codes "NOT_FOUND")
    ∷ (405, codes "METHOD_NOT_ALLOWED")
    ∷ (409, codes "CONFLICT")
    ∷ (413, codes "PAYLOAD_TOO_LARGE")
    ∷ (415, codes "UNSUPPORTED_MEDIA_TYPE")
    ∷ (422, codes "VALIDATION_ERROR")
    ∷ (429, codes "RATE_LIMITED")
    ∷ (500, codes "INTERNAL_ERROR")
    ∷ (503, codes "SERVICE_UNAVAILABLE")
    ∷ []

-- `_HTTP_CODES.get(status, "HTTP_ERROR")`
abbrev code_in : ℕ → List (ℕ × Text) → Text
code_in status [] = codes "HTTP_ERROR"
code_in status ((n, code) ∷ rest) = if n == status then code else code_in status rest

unfoldable pub http_code : ℕ → Text
http_code status = code_in status http_codes

-- code.replace("_", " ").capitalize() + ".", for the codes above.
abbrev pub lower_of : ℕ → ℕ
lower_of c = if leb b'A' c && leb c b'Z' then c + 32 else if c == b'_' then b' ' else c

abbrev pub sentence : Text → Text
sentence [] = codes "."
sentence (c ∷ s) = c ∷ map lower_of s ++ codes "."

-- The headers of FastAPI's exceptions only.
abbrev kept_headers : HttpException → List (Text × Text)
kept_headers exc = if exc.of_fastapi then exc.headers else []

-- `_http`
unfoldable pub http_response : Option Text → HttpException → Response Body
http_response request_id exc = elim exc.detail [
  | coded code message ↦
      error_response request_id exc.status_code code message [] (kept_headers exc)
  | plain detail ↦
      let code = http_code exc.status_code in
      let message = if is_truthy (some detail) then detail else sentence code in
      error_response request_id exc.status_code code message [] (kept_headers exc)
]

-- `".".join(parts)`
unfoldable pub join_dots : List Text → Text
join_dots [] = []
join_dots (p ∷ []) = p
join_dots (p ∷ q ∷ ps) = p ++ b'.' ∷ join_dots (q ∷ ps)

-- One error of a RequestValidationError: where it is, and what it says.
pub record InputError : Type 0 where
  pub loc : List Text
  pub msg : Text

unfoldable pub input_detail : InputError → ErrorDetail
input_detail e =
    let field = join_dots (keep (λ p. not (text_eq p (codes "body"))) e.loc) in
    record { field = if is_truthy (some field) then some field else none; reason = e.msg }

-- `_validation`
unfoldable pub validation_response : Option Text → List InputError → Response Body
validation_response request_id errors =
    error_response request_id 422 (codes "VALIDATION_ERROR") (codes "Request validation failed.")
      (map input_detail errors) []

-- `_too_large`
unfoldable pub too_large_response : Option Text → ℕ → Response Body
too_large_response request_id limit =
    error_response request_id 413 (codes "PAYLOAD_TOO_LARGE")
      (codes "Request body exceeds " ++ (decimal limit ++ codes " bytes.")) [] []
