-- ===== src/System.antt =====
-- The service as a sequence of requests: each runs its handler with a session of its own, made and
-- closed by `get_db` of app/api/dependencies.py, over one database and one storage.
pub mod Invariant
pub mod Soundness
pub mod Counting
pub mod Delivery
pub mod Answers
pub mod Liveness
use secure_file_service.Application.DeleteFile.{DeleteDraws, DeleteFileCommand}
use secure_file_service.Security.Signer.{UrlSigner}
use secure_file_service.Domain.Entities.{RequestContext}
use secure_file_service.Application.Download.{resolve, DownloadDraws, SignedRequest}
use secure_file_service.Application.World.{World}
use secure_file_service.Storage.{FileStorage}
use secure_file_service.Exec.{Exec}
use secure_file_service.Application.CreateLink.{LinkSettings, LinkDraws, CreateSignedLinkCommand}
use secure_file_service.Persistence.Session.{Session}
use secure_file_service.Prelude.{ℕ, Text, ◌≡◌}
use secure_file_service.Application.Upload
use secure_file_service.Application.CreateLink
use secure_file_service.Application.DeleteFile
use secure_file_service.Application.Upload.{UploadFileCommand, UploadDraws}

module _ {S F A : Type 0} (db : Session S) where
  -- `get_db`: closing a session gives up what it has not committed, as a rollback does, and the next
  -- session starts with the committed rows.
  unfoldable pub with_session : Exec (World S F) A → Exec (World S F) A
  with_session m w = let (r, x) = m w in (r, record x { session = db.rollback x.session })

-- The requests that change the state.
pub data Request : Type 0 where
  upload : UploadFileCommand → UploadDraws → Request
  create_link : CreateSignedLinkCommand → LinkDraws → Request
  download : SignedRequest → RequestContext → DownloadDraws → Request
  delete_file : DeleteFileCommand → DeleteDraws → Request

module _ {S F : Type 0} (db : Session S) (fs : FileStorage F) (hmac_sha256 : Text → Text → Text)
    (urlsafe_b64encode : Text → Text) (signer : UrlSigner) (settings : LinkSettings)
    (max_upload_bytes : ℕ) where
  -- The state after a request, whether its handler returns or raises.
  unfoldable pub after : Request → World S F → World S F
  after (upload cmd draws) w =
      (with_session db (Upload.execute db fs max_upload_bytes cmd draws) w).1
  after (create_link cmd draws) w =
      (with_session db
        (CreateLink.execute db hmac_sha256 urlsafe_b64encode signer settings cmd draws) w).1
  after (download req context draws) w =
      (with_session db (resolve db fs hmac_sha256 urlsafe_b64encode signer req context draws) w).1
  after (delete_file cmd draws) w = (with_session db (DeleteFile.execute db fs cmd draws) w).1
