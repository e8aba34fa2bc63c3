-- ===== src/Domain/Errors.antt =====
-- app/domain/files/exceptions.py: a constructor for each class, with the context that the program
-- passes to it.
use secure_file_service.Prelude.{ℕ, Text, codes}
use secure_file_service.Prelude.Int.{ℤ}
use secure_file_service.Domain.Entities.{FileStatus}

pub data DomainError : Type 0 where
  file_not_found : Text → DomainError
  file_unavailable : Text → DomainError
  empty_upload : DomainError
  upload_too_large : ℕ → DomainError
  invalid_ttl : ℤ → ℕ → DomainError
  link_signature_invalid : Text → Text → DomainError
  link_expired : Text → ℕ → DomainError
  idempotency_conflict : Text → DomainError
  storage_inconsistent : Text → DomainError
  invalid_state_transition : FileStatus → FileStatus → DomainError

-- The class attribute `code`.
unfoldable pub error_code : DomainError → Text
error_code (file_not_found _) = codes "FILE_NOT_FOUND"
error_code (file_unavailable _) = codes "FILE_UNAVAILABLE"
error_code empty_upload = codes "EMPTY_UPLOAD"
error_code (upload_too_large _) = codes "PAYLOAD_TOO_LARGE"
error_code (invalid_ttl _ _) = codes "INVALID_TTL"
error_code (link_signature_invalid _ _) = codes "LINK_SIGNATURE_INVALID"
error_code (link_expired _ _) = codes "LINK_EXPIRED"
error_code (idempotency_conflict _) = codes "IDEMPOTENCY_KEY_REUSED"
error_code (storage_inconsistent _) = codes "STORAGE_INCONSISTENT"
error_code (invalid_state_transition _ _) = codes "INVALID_STATE_TRANSITION"

-- What a handler can raise: a `DomainError`, or an exception of the database or of Python.
pub data Exception : Type 0 where
  domain : DomainError → Exception
  integrity_error operational_error os_error value_error overflow_error key_error : Exception
