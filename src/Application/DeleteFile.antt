-- ===== src/Application/DeleteFile.antt =====
-- `DeleteFileHandler` of app/application/commands/delete_file.py.
pub mod Ends
pub mod Effects
use secure_file_service.Prelude.{
  ℕ, Text, codes, Option, none, some, List, [], ◌∷◌, Bool, true, false, if◌then◌else◌,
}
use secure_file_service.Prelude.Results.{Result, ok, err}
use secure_file_service.Exec.{Exec, pure, raise, lift, try_except, ◌>>=◌, ◌>>◌}
use secure_file_service.Domain.Errors.{Exception, domain, file_not_found, os_error}
use secure_file_service.Domain.Entities.{
  Datetime, FileStatus, available, deleted, AuditEvent, file_deleted, FileRecord, RequestContext,
}
use secure_file_service.Domain.Lifecycle.{status_eq, transition}
use secure_file_service.Persistence.Session.{Session}
use secure_file_service.Persistence.FileRepository
use secure_file_service.Persistence.AuditRepository
use secure_file_service.Storage.{FileStorage}
use secure_file_service.Application.World.{World, on_session, on_storage, count, files_deleted}
use secure_file_service.Application.CreateLink.{of_domain}

pub record DeleteFileCommand : Type 0 where
  pub owner_id : Text
  pub file_id : Text
  pub context : RequestContext

pub record DeleteDraws : Type 0 where
  pub now : Datetime
  pub event_id : Text

unfoldable pub deleted_event : DeleteFileCommand → DeleteDraws → FileRecord → AuditEvent
deleted_event cmd draws file = record {
  id = draws.event_id;
  file_id = file.id;
  event_type = file_deleted;
  created_at = draws.now;
  actor_id = some cmd.owner_id;
  link_id = none;
  expires_at = none;
  request_id = cmd.context.request_id;
  client_ip = cmd.context.client_ip;
  metadata = [];
}

module _ {S F : Type 0} (db : Session S) (fs : FileStorage F) where
  -- `except OSError`: the failure is logged, and the call goes on.
  abbrev ignore_os_error : Exception → Exec (World S F) Unit
  ignore_os_error os_error = pure tt
  ignore_os_error e = raise e

  -- The change of the metadata, up to its commit.
  unfoldable pub mark_deleted : DeleteFileCommand → DeleteDraws → FileRecord → Exec (World S F) Unit
  mark_deleted cmd draws file = do
    new_status ← lift (of_domain (transition file.status deleted))
    on_session (do
      FileRepository.set_status db file.id new_status draws.now
      AuditRepository.add db (deleted_event cmd draws file)
      db.commit)

  unfoldable pub remove_bytes : FileRecord → Exec (World S F) Unit
  remove_bytes file = do
    try_except (on_storage (fs.delete file.storage_key)) ignore_os_error
    count files_deleted

  unfoldable pub execute : DeleteFileCommand → DeleteDraws → Exec (World S F) Unit
  execute cmd draws = do
    found ← on_session (FileRepository.get_for_owner db cmd.file_id cmd.owner_id)
    elim found [
      | none ↦ raise (domain (file_not_found cmd.file_id))
      | some file ↦
          if status_eq file.status deleted
          then pure tt
          else mark_deleted cmd draws file >> remove_bytes file
    ]
