-- ===== src/Domain/Entities.antt =====
-- app/domain/files/entities.py, and the request context of app/application/context.py. Times are
-- microseconds since the Unix epoch, the resolution of `datetime`.
use secure_file_service.Prelude.{ℕ, Text, codes, Bool, true, false, Option, List}

pub data FileStatus : Type 0 where
  available deleted : FileStatus

-- The value of the StrEnum member, as it is stored.
unfoldable pub status_value : FileStatus → Text
status_value available = codes "available"
status_value deleted = codes "deleted"

pub data AuditEventType : Type 0 where
  file_uploaded link_generated file_downloaded file_deleted : AuditEventType

unfoldable pub event_type_value : AuditEventType → Text
event_type_value file_uploaded = codes "file.uploaded"
event_type_value link_generated = codes "link.generated"
event_type_value file_downloaded = codes "file.downloaded"
event_type_value file_deleted = codes "file.deleted"

abbrev pub Datetime : Type 0
Datetime = ℕ

pub record FileRecord : Type 0 where
  pub id : Text
  pub owner_id : Text
  pub original_filename : Text
  pub content_type : Text
  pub size_bytes : ℕ
  pub sha256 : Text
  pub storage_key : Text
  pub status : FileStatus
  pub created_at : Datetime
  pub updated_at : Datetime
  pub idempotency_key : Option Text
  pub deleted_at : Option Datetime

abbrev pub is_available_status : FileStatus → Bool
is_available_status available = true
is_available_status deleted = false

abbrev pub is_available : FileRecord → Bool
is_available record' = is_available_status record'.status

-- The values of `AuditEvent.metadata`, a dictionary.
pub data MetadataValue : Type 0 where
  number : ℕ → MetadataValue
  string : Text → MetadataValue

pub record AuditEvent : Type 0 where
  pub id : Text
  pub file_id : Text
  pub event_type : AuditEventType
  pub created_at : Datetime
  pub actor_id : Option Text
  pub link_id : Option Text
  pub expires_at : Option Datetime
  pub request_id : Option Text
  pub client_ip : Option Text
  pub metadata : List (Text × MetadataValue)

pub record SignedLink : Type 0 where
  pub link_id : Text
  pub file_id : Text
  pub url : Text
  pub expires_at : Datetime
  pub key_id : Text
  pub ttl_seconds : ℕ

pub record StoredObject : Type 0 where
  pub storage_key : Text
  pub size_bytes : ℕ
  pub sha256 : Text

pub record DownloadTarget : Type 0 where
  pub path : Text
  pub filename : Text
  pub content_type : Text
  pub size_bytes : ℕ
  pub sha256 : Text

pub record RequestContext : Type 0 where
  pub request_id : Option Text
  pub client_ip : Option Text
