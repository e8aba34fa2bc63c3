-- ===== src/Api/Errors.antt =====
-- app/api/errors.py: the status, the code and the message of the envelope for each exception that a
-- handler raises. The details are empty for these, and the request id is that of the request.
use secure_file_service.Domain.Entities.{status_value}
use secure_file_service.Domain.Errors.{
  file_not_found, file_unavailable, empty_upload, upload_too_large, invalid_ttl,
  link_signature_invalid, link_expired, idempotency_conflict, storage_inconsistent,
  invalid_state_transition, domain, integrity_error, operational_error, os_error, value_error,
  overflow_error, key_error, error_code, DomainError, Exception,
}
use secure_file_service.Prelude.{
  refl, ◌++◌, inr, arith, inl, ◌⊎◌, leb, ◌≤◌, codes, if◌then◌else◌, Text, ℕ, ◌≡◌,
}
use secure_file_service.Prelude.Decimal.{decimal}

-- DOMAIN_STATUS
unfoldable pub domain_status : DomainError → ℕ
domain_status (file_not_found _) = 404
domain_status (file_unavailable _) = 410
domain_status empty_upload = 422
domain_status (upload_too_large _) = 413
domain_status (invalid_ttl _ _) = 422
domain_status (link_signature_invalid _ _) = 403
domain_status (link_expired _ _) = 410
domain_status (idempotency_conflict _) = 409
domain_status (storage_inconsistent _) = 500
domain_status (invalid_state_transition _ _) = 409

-- The class attribute `message`, or the text that the raise passes.
unfoldable pub error_message : DomainError → Text
error_message (file_not_found _) = codes "File not found."
error_message (file_unavailable _) = codes "File is no longer available."
error_message empty_upload = codes "Uploaded file is empty."
error_message (upload_too_large _) = codes "Uploaded file exceeds the maximum allowed size."
error_message (invalid_ttl _ maximum) =
    codes "ttl_seconds must be between 1 and " ++ decimal maximum
error_message (link_signature_invalid _ _) = codes "Signed link is invalid."
error_message (link_expired _ _) = codes "Signed link has expired."
error_message (idempotency_conflict _) =
    codes "Idempotency-Key was already used with a different payload."
error_message (storage_inconsistent _) =
    codes "File metadata exists but the stored object is missing."
error_message (invalid_state_transition current target) =
    codes "cannot move file from "
    ++ (status_value current ++ (codes " to " ++ status_value target))

pub record ErrorResponse : Type 0 where
  pub status : ℕ
  pub code : Text
  pub message : Text

abbrev pub internal_message : Text
internal_message = codes "Internal server error."

abbrev pub unavailable_message : Text
unavailable_message = codes "A dependency is unavailable. Retry later."

-- `_domain`
unfoldable pub domain_response : DomainError → ErrorResponse
domain_response e =
    let status = domain_status e in
    if leb 500 status
    then record { status = status; code = error_code e; message = internal_message }
    else record { status = status; code = error_code e; message = error_message e }

abbrev internal_error : ErrorResponse
internal_error = record { status = 500; code = codes "INTERNAL_ERROR"; message = internal_message }

-- The handler that the type of the exception selects: `_domain`, `_db_unavailable`, `_db_error` for
-- the other exceptions of SQLAlchemy, `_unexpected`.
unfoldable pub response_of : Exception → ErrorResponse
response_of (domain e) = domain_response e
response_of operational_error = record {
  status = 503;
  code = codes "SERVICE_UNAVAILABLE";
  message = unavailable_message;
}
response_of integrity_error = internal_error
response_of os_error = internal_error
response_of value_error = internal_error
response_of overflow_error = internal_error
response_of key_error = internal_error

-- Internal details never leak: a response with a status of 500 or more carries one of two fixed
-- messages, whatever the exception.
pub response_of-IsOpaque :
    (e : Exception)
    → 500 ≤ (response_of e).status
    → ((response_of e).message ≡ internal_message) ⊎ ((response_of e).message ≡ unavailable_message)
unfolding response_of domain_response
response_of-IsOpaque (domain e) h = inl (ground arith)
response_of-IsOpaque operational_error h = inr refl
response_of-IsOpaque integrity_error h = inl refl
response_of-IsOpaque os_error h = inl refl
response_of-IsOpaque value_error h = inl refl
response_of-IsOpaque overflow_error h = inl refl
response_of-IsOpaque key_error h = inl refl
