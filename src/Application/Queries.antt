-- ===== src/Application/Queries.antt =====
-- app/application/queries: the three read operations of an owner.
use secure_file_service.Prelude.{ℕ, Text, Option, none, some, List}
use secure_file_service.Prelude.Results.{Result, ok, err}
use secure_file_service.Exec.{Exec, lift, ◌>>=◌, ◌>>◌}
use secure_file_service.Domain.Errors.{Exception, domain, file_not_found}
use secure_file_service.Domain.Entities.{FileRecord, AuditEvent}
use secure_file_service.Persistence.Session.{Session}
use secure_file_service.Persistence.FileRepository
use secure_file_service.Persistence.AuditRepository

abbrev pub or_not_found : Text → Option FileRecord → Result Exception FileRecord
or_not_found file_id none = err (domain (file_not_found file_id))
or_not_found file_id (some file) = ok file

module _ {S : Type 0} (db : Session S) where
  -- `GetFileQuery.execute`
  unfoldable pub get_file : Text → Text → Exec S FileRecord
  get_file owner_id file_id = do
    found ← FileRepository.get_for_owner db file_id owner_id
    lift (or_not_found file_id found)

  -- `ListFilesQuery.execute`
  unfoldable pub list_files : Text → ℕ → ℕ → Exec S (List FileRecord × ℕ)
  list_files owner_id limit offset = FileRepository.list_for_owner db owner_id limit offset

  -- `ListAuditEventsQuery.execute`
  unfoldable pub list_audit_events : Text → Text → ℕ → ℕ → Exec S (List AuditEvent × ℕ)
  list_audit_events owner_id file_id limit offset = do
    found ← FileRepository.get_for_owner db file_id owner_id
    lift (or_not_found file_id found)
    AuditRepository.list_for_file db file_id limit offset
