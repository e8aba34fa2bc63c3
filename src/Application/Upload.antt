-- ===== src/Application/Upload.antt =====
-- `UploadFileHandler` of app/application/commands/upload_file.py.
pub mod Steps
pub mod Ends
pub mod Effects
pub mod Bytes
pub mod Replay
pub mod Branches
use secure_file_service.Prelude.{
  ℕ, Text, codes, text_eq, Option, none, some, Bool, true, false, not, ◌||◌, List, [], ◌∷◌, ◌==◌,
  is_truthy, if◌then◌else◌,
}
use secure_file_service.Prelude.Results.{Result, ok, err}
use secure_file_service.Exec.{Exec, pure, raise, try_except, ◌>>=◌, ◌>>◌}
use secure_file_service.Domain.Errors.{Exception, domain, integrity_error, DomainError}
use secure_file_service.Domain.Errors
use secure_file_service.Domain.Entities.{
  Datetime, FileStatus, available, AuditEventType, file_uploaded, FileRecord, AuditEvent,
  MetadataValue, number, string, StoredObject, RequestContext,
}
use secure_file_service.Domain.Filename.{sanitize_filename, text_or_empty}
use secure_file_service.Domain.MediaType.{normalize_content_type}
use secure_file_service.Persistence.Session.{Session}
use secure_file_service.Persistence.FileRepository
use secure_file_service.Persistence.AuditRepository
use secure_file_service.Storage.{Stream, FileStorage}
use secure_file_service.Application.World.{
  World, on_session, on_storage, count, roll_back, upload_failures, files_uploaded, upload_bytes,
  exception_type, idempotency_conflict, persistence_error,
}

pub record UploadFileCommand : Type 0 where
  pub owner_id : Text
  pub filename : Option Text
  pub content_type : Option Text
  pub stream : Stream
  pub idempotency_key : Option Text
  pub context : RequestContext

pub record UploadFileResult : Type 0 where
  pub file : FileRecord
  pub replayed : Bool

-- What the call draws from its surroundings: the clock, two random ids, and the Unicode tables.
pub record UploadDraws : Type 0 where
  pub now : Datetime
  pub file_id : Text
  pub event_id : Text
  pub nfc : Text → Text

unfoldable pub new_record : UploadFileCommand → UploadDraws → StoredObject → FileRecord
new_record cmd draws stored = record {
  id = draws.file_id;
  owner_id = cmd.owner_id;
  original_filename = sanitize_filename draws.nfc cmd.filename;
  content_type = normalize_content_type cmd.content_type;
  size_bytes = stored.size_bytes;
  sha256 = stored.sha256;
  storage_key = stored.storage_key;
  status = available;
  created_at = draws.now;
  updated_at = draws.now;
  idempotency_key = cmd.idempotency_key;
  deleted_at = none;
}

unfoldable pub uploaded_event : UploadFileCommand → UploadDraws → FileRecord → AuditEvent
uploaded_event cmd draws file = record {
  id = draws.event_id;
  file_id = file.id;
  event_type = file_uploaded;
  created_at = draws.now;
  actor_id = some cmd.owner_id;
  link_id = none;
  expires_at = none;
  request_id = cmd.context.request_id;
  client_ip = cmd.context.client_ip;
  metadata =
      (codes "size_bytes", number file.size_bytes)
      ∷ (codes "content_type", string file.content_type)
      ∷ [];
}

module _ {S F : Type 0} (db : Session S) (fs : FileStorage F) where
  -- `_replay`
  unfoldable pub replay : FileRecord → StoredObject → Exec (World S F) UploadFileResult
  replay existing stored = do
    on_storage (fs.delete stored.storage_key)
    if not (text_eq existing.sha256 stored.sha256) || not (existing.size_bytes == stored.size_bytes)
        then (do
          count (upload_failures idempotency_conflict)
          raise (domain (Errors.idempotency_conflict existing.id)))
        else pure (record { file = existing; replayed = true })

  -- The lookup under `if cmd.idempotency_key`.
  unfoldable pub find_existing : Text → Option Text → Exec (World S F) (Option FileRecord)
  find_existing owner_id idempotency_key =
      if is_truthy idempotency_key
      then on_session
          (FileRepository.find_by_idempotency_key db owner_id (text_or_empty idempotency_key))
      else pure none

  -- `storage.delete(...)`, then `raise`
  unfoldable pub discard : StoredObject → Exception → Exec (World S F) UploadFileResult
  discard stored e = do on_storage (fs.delete stored.storage_key); raise e

  -- The two `except` branches.
  unfoldable pub on_failure :
      UploadFileCommand → StoredObject → Exception → Exec (World S F) UploadFileResult
  on_failure cmd stored integrity_error = do
    roll_back db
    existing ← find_existing cmd.owner_id cmd.idempotency_key
    elim existing [ some file ↦ replay file stored | none ↦ discard stored integrity_error ]
  on_failure cmd stored e = do
    roll_back db
    on_storage (fs.delete stored.storage_key)
    count (upload_failures persistence_error)
    raise e

  -- The body of the `try`.
  unfoldable pub persist : UploadFileCommand → UploadDraws → FileRecord → Exec (World S F) Unit
  persist cmd draws file = on_session (do
    FileRepository.add db file
    AuditRepository.add db (uploaded_event cmd draws file)
    db.commit)

  unfoldable pub store_new :
      UploadFileCommand → UploadDraws → StoredObject → Exec (World S F) UploadFileResult
  store_new cmd draws stored w =
      let file = new_record cmd draws stored in
      let (r, w') = persist cmd draws file w in
      elim r [
        | err e ↦ on_failure cmd stored e w'
        | ok _ ↦
            (do
              count files_uploaded
              count (upload_bytes stored.size_bytes)
              pure (record { file = file; replayed = false }))
              w'
      ]

  -- `execute` from the point at which the bytes are stored.
  unfoldable pub proceed :
      UploadFileCommand → UploadDraws → StoredObject → Exec (World S F) UploadFileResult
  proceed cmd draws stored = do
    existing ← find_existing cmd.owner_id cmd.idempotency_key
    elim existing [ some file ↦ replay file stored | none ↦ store_new cmd draws stored ]

  unfoldable pub execute : ℕ → UploadFileCommand → UploadDraws → Exec (World S F) UploadFileResult
  execute max_upload_bytes cmd draws = do
    stored ←
        try_except (on_storage (fs.write cmd.stream max_upload_bytes))
          (λ e. do count (upload_failures (exception_type e)); raise e)
    proceed cmd draws stored
