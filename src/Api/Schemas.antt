-- ===== src/Api/Schemas.antt =====
-- The response models of app/schemas/files.py and their `from_entity` methods.
use secure_file_service.Prelude.{List, Option, ℕ, Text}
use secure_file_service.Domain.Entities.{
  MetadataValue, FileStatus, AuditEventType, AuditEvent, SignedLink, FileRecord, Datetime,
}

pub record FileResponse : Type 0 where
  pub id : Text
  pub owner_id : Text
  pub filename : Text
  pub content_type : Text
  pub size_bytes : ℕ
  pub sha256 : Text
  pub status : FileStatus
  pub created_at : Datetime
  pub updated_at : Datetime
  pub deleted_at : Option Datetime

unfoldable pub file_response : FileRecord → FileResponse
file_response r = record {
  id = r.id;
  owner_id = r.owner_id;
  filename = r.original_filename;
  content_type = r.content_type;
  size_bytes = r.size_bytes;
  sha256 = r.sha256;
  status = r.status;
  created_at = r.created_at;
  updated_at = r.updated_at;
  deleted_at = r.deleted_at;
}

pub record SignedLinkResponse : Type 0 where
  pub link_id : Text
  pub file_id : Text
  pub url : Text
  pub expires_at : Datetime
  pub ttl_seconds : ℕ
  pub key_id : Text

unfoldable pub link_response : SignedLink → SignedLinkResponse
link_response link = record {
  link_id = link.link_id;
  file_id = link.file_id;
  url = link.url;
  expires_at = link.expires_at;
  ttl_seconds = link.ttl_seconds;
  key_id = link.key_id;
}

pub record AuditEventResponse : Type 0 where
  pub id : Text
  pub file_id : Text
  pub event_type : AuditEventType
  pub actor_id : Option Text
  pub link_id : Option Text
  pub expires_at : Option Datetime
  pub request_id : Option Text
  pub client_ip : Option Text
  pub metadata : List (Text × MetadataValue)
  pub created_at : Datetime

unfoldable pub event_response : AuditEvent → AuditEventResponse
event_response e = record {
  id = e.id;
  file_id = e.file_id;
  event_type = e.event_type;
  actor_id = e.actor_id;
  link_id = e.link_id;
  expires_at = e.expires_at;
  request_id = e.request_id;
  client_ip = e.client_ip;
  metadata = e.metadata;
  created_at = e.created_at;
}
