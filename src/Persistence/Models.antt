-- ===== src/Persistence/Models.antt =====
-- The rows: app/infrastructure/database/models, and the `_to_entity` functions of the repositories.
-- Both databases give UTC times back, so `_aware` is the identity on `Datetime`.
use secure_file_service.Prelude.{
  inr, arith, inl, ℕ, Text, text_eq, Option, List, if◌then◌else◌, ◌≡◌, refl,
}
use secure_file_service.Prelude.Results.{Result-cases, Result, ok, err, ◌>>=◌}
use secure_file_service.Domain.Errors.{Exception, value_error}
use secure_file_service.Domain.Entities.{
  Datetime, FileStatus, available, deleted, status_value, AuditEventType, file_uploaded,
  link_generated, file_downloaded, file_deleted, event_type_value, FileRecord, AuditEvent,
  MetadataValue,
}

pub record FileModel : Type 0 where
  pub id : Text
  pub owner_id : Text
  pub original_filename : Text
  pub content_type : Text
  pub size_bytes : ℕ
  pub sha256 : Text
  pub storage_key : Text
  pub status : Text
  pub idempotency_key : Option Text
  pub created_at : Datetime
  pub updated_at : Datetime
  pub deleted_at : Option Datetime

pub record AuditEventModel : Type 0 where
  pub id : Text
  pub file_id : Text
  pub event_type : Text
  pub actor_id : Option Text
  pub link_id : Option Text
  pub expires_at : Option Datetime
  pub request_id : Option Text
  pub client_ip : Option Text
  pub metadata : List (Text × MetadataValue)
  pub created_at : Datetime

-- `FileStatus(value)` raises ValueError for a text that is no member's value.
unfoldable pub file_status : Text → Result Exception FileStatus
unfolding status_value
file_status value =
    if text_eq value (status_value available)
    then ok available
    else if text_eq value (status_value deleted)
    then ok deleted
    else err value_error

unfoldable pub audit_event_type : Text → Result Exception AuditEventType
unfolding event_type_value
audit_event_type value =
    if text_eq value (event_type_value file_uploaded)
    then ok file_uploaded
    else if text_eq value (event_type_value link_generated)
    then ok link_generated
    else if text_eq value (event_type_value file_downloaded)
    then ok file_downloaded
    else if text_eq value (event_type_value file_deleted)
    then ok file_deleted
    else err value_error

-- `_to_entity` of file_repository.py
unfoldable pub file_entity : FileModel → Result Exception FileRecord
file_entity model = do
  status ← file_status model.status
  ok (record {
    id = model.id;
    owner_id = model.owner_id;
    original_filename = model.original_filename;
    content_type = model.content_type;
    size_bytes = model.size_bytes;
    sha256 = model.sha256;
    storage_key = model.storage_key;
    status = status;
    created_at = model.created_at;
    updated_at = model.updated_at;
    idempotency_key = model.idempotency_key;
    deleted_at = model.deleted_at;
  })

-- The row that `SqlAlchemyFileRepository.add` makes.
unfoldable pub file_model : FileRecord → FileModel
file_model file = record {
  id = file.id;
  owner_id = file.owner_id;
  original_filename = file.original_filename;
  content_type = file.content_type;
  size_bytes = file.size_bytes;
  sha256 = file.sha256;
  storage_key = file.storage_key;
  status = status_value file.status;
  idempotency_key = file.idempotency_key;
  created_at = file.created_at;
  updated_at = file.updated_at;
  deleted_at = file.deleted_at;
}

-- `_to_entity` of audit_repository.py
unfoldable pub audit_entity : AuditEventModel → Result Exception AuditEvent
audit_entity model = do
  event_type ← audit_event_type model.event_type
  ok (record {
    id = model.id;
    file_id = model.file_id;
    event_type = event_type;
    created_at = model.created_at;
    actor_id = model.actor_id;
    link_id = model.link_id;
    expires_at = model.expires_at;
    request_id = model.request_id;
    client_ip = model.client_ip;
    metadata = model.metadata;
  })

-- The row that `SqlAlchemyAuditRepository.add` makes.
unfoldable pub audit_model : AuditEvent → AuditEventModel
audit_model event = record {
  id = event.id;
  file_id = event.file_id;
  event_type = event_type_value event.event_type;
  actor_id = event.actor_id;
  link_id = event.link_id;
  expires_at = event.expires_at;
  request_id = event.request_id;
  client_ip = event.client_ip;
  metadata = event.metadata;
  created_at = event.created_at;
}

pub file_status-status_value : (s : FileStatus) → file_status (status_value s) ≡ ok s
unfolding file_status status_value text_eq
file_status-status_value available = refl
file_status-status_value deleted = refl

audit_event_type-value : (t : AuditEventType) → audit_event_type (event_type_value t) ≡ ok t
unfolding audit_event_type event_type_value text_eq
audit_event_type-value file_uploaded = refl
audit_event_type-value link_generated = refl
audit_event_type-value file_downloaded = refl
audit_event_type-value file_deleted = refl

-- A stored file record is read back unchanged.
pub file_entity-file_model : (file : FileRecord) → file_entity (file_model file) ≡ ok file
unfolding file_entity file_model
file_entity-file_model file = simp file_status-status_value

-- A stored audit event is read back unchanged.
pub audit_entity-audit_model : (event : AuditEvent) → audit_entity (audit_model event) ≡ ok event
unfolding audit_entity audit_model
audit_entity-audit_model event = simp audit_event_type-value

-- What a row says of the record that it is read as.
pub file_entity-fields :
    (m : FileModel) (file : FileRecord)
    → file_entity m ≡ ok file
    → (file.id ≡ m.id)
      × (file.owner_id ≡ m.owner_id)
      × (file.storage_key ≡ m.storage_key)
      × (file_status m.status ≡ ok file.status)
unfolding file_entity
file_entity-fields m file h = elim (Result-cases (file_status m.status)) [
  | inl (s, e) ↦ ground (arith, e)
  | inr (x, e) ↦ absurd (ground (arith, e))
]
