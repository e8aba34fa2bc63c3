-- ===== src/Application/Download.antt =====
-- `DownloadService` of app/application/services/download_service.py.
pub mod Ends
pub mod Serving
use secure_file_service.Prelude.{
  ℕ, Text, codes, Option, none, some, List, [], ◌∷◌, Bool, true, false, not, if◌then◌else◌,
}
use secure_file_service.Prelude.Results.{Result, ok, err}
use secure_file_service.Exec.{Exec, pure, raise, lift, ◌>>=◌, ◌>>◌}
use secure_file_service.Domain.Errors.{
  Exception, domain, DomainError, file_not_found, file_unavailable, link_expired,
  link_signature_invalid, storage_inconsistent,
}
use secure_file_service.Domain.Entities.{
  Datetime, AuditEvent, file_downloaded, FileRecord, is_available, MetadataValue, string,
  DownloadTarget, RequestContext,
}
use secure_file_service.Domain.Ttl.{is_expired}
use secure_file_service.Security.Signer.{
  UrlSigner, SignatureError, unknown_key_id, signature_mismatch, VerifyError, signature_error,
  raised, verify,
}
use secure_file_service.Persistence.Session.{Session}
use secure_file_service.Persistence.FileRepository
use secure_file_service.Persistence.AuditRepository
use secure_file_service.Storage.{FileStorage}
use secure_file_service.Application.World.{
  World, on_session, on_storage, count, downloads, download_failures, Reason, signature, expired,
  not_found, unavailable, storage_missing,
}

pub record SignedRequest : Type 0 where
  pub file_id : Text
  pub expires_at : ℕ
  pub link_id : Text
  pub key_id : Text
  pub sig : Text

pub record DownloadDraws : Type 0 where
  pub now : Datetime
  pub event_id : Text

-- `type(exc).__name__`
abbrev pub reason_of : SignatureError → Text
reason_of (unknown_key_id _) = codes "UnknownKeyId"
reason_of signature_mismatch = codes "SignatureMismatch"

unfoldable pub downloaded_event :
    SignedRequest → RequestContext → DownloadDraws → FileRecord → AuditEvent
downloaded_event req context draws file = record {
  id = draws.event_id;
  file_id = file.id;
  event_type = file_downloaded;
  created_at = draws.now;
  actor_id = none;
  link_id = some req.link_id;
  expires_at = none;
  request_id = context.request_id;
  client_ip = context.client_ip;
  metadata = (codes "key_id", string req.key_id) ∷ [];
}

module _ {S F : Type 0} (db : Session S) (fs : FileStorage F) (hmac_sha256 : Text → Text → Text)
    (urlsafe_b64encode : Text → Text) (signer : UrlSigner) where
  -- Every refusal is counted, then raised.
  abbrev refuse : {A : Type 0} → Reason → DomainError → Exec (World S F) A
  refuse reason e = count (download_failures reason) >> raise (domain e)

  abbrev signature_failure : SignedRequest → VerifyError → Exec (World S F) Unit
  signature_failure req (signature_error e) =
      refuse signature (link_signature_invalid req.file_id (reason_of e))
  signature_failure req (raised e) = raise e

  unfoldable pub check_signature : SignedRequest → Exec (World S F) Unit
  check_signature req =
      elim (verify hmac_sha256 urlsafe_b64encode signer req.file_id req.link_id req.expires_at
        req.key_id req.sig) [ ok _ ↦ pure tt | err e ↦ signature_failure req e ]

  unfoldable pub check_expiry : SignedRequest → Datetime → Exec (World S F) Unit
  check_expiry req now =
      if is_expired req.expires_at now
      then refuse expired (link_expired req.file_id req.expires_at)
      else pure tt

  abbrev require_record : SignedRequest → Option FileRecord → Exec (World S F) FileRecord
  require_record req none = refuse not_found (file_not_found req.file_id)
  require_record req (some file) =
      if not (is_available file)
      then refuse unavailable (file_unavailable req.file_id)
      else pure file

  unfoldable pub find_file : SignedRequest → Exec (World S F) FileRecord
  find_file req = do
    found ← on_session (FileRepository.get db req.file_id)
    require_record req found

  unfoldable pub check_stored : FileRecord → Exec (World S F) Unit
  check_stored file = do
    present ← on_storage (fs.exists file.storage_key)
    if not present then refuse storage_missing (storage_inconsistent file.id) else pure tt

  -- `resolve` from the point at which all checks have passed.
  unfoldable pub deliver :
      SignedRequest → RequestContext → DownloadDraws → FileRecord → Exec (World S F) DownloadTarget
  deliver req context draws file = do
    on_session (do AuditRepository.add db (downloaded_event req context draws file); db.commit)
    count downloads
    path ← lift (fs.path_for file.storage_key)
    pure (record {
      path = path;
      filename = file.original_filename;
      content_type = file.content_type;
      size_bytes = file.size_bytes;
      sha256 = file.sha256;
    })

  unfoldable pub resolve :
      SignedRequest → RequestContext → DownloadDraws → Exec (World S F) DownloadTarget
  resolve req context draws = do
    check_signature req
    check_expiry req draws.now
    file ← find_file req
    check_stored file
    deliver req context draws file
