-- ===== src/System/Liveness.antt =====
-- A link works: from its issue on, as long as its file is there and its time is not up.
use secure_file_service.System.Answers.{Trouble}
use secure_file_service.Domain.Errors.{Exception}
use secure_file_service.System.Delivery.{IsIntact}
use secure_file_service.Domain.Ttl.{timestamp}
use secure_file_service.Application.World.{World}
use secure_file_service.Security.Signer.{UrlSigner}
use secure_file_service.Domain.Entities.{SignedLink, DownloadTarget, RequestContext}
use secure_file_service.Prelude.Results.{err, ok}
use secure_file_service.Storage.{StorageLaws, FileStorage}
use secure_file_service.Persistence.Session.{SessionLaws, Session}
use secure_file_service.Application.Download.{resolve, SignedRequest, DownloadDraws}
use secure_file_service.Application.CreateLink
use secure_file_service.Prelude.{◌⊎◌, Text, ◌≡◌}

-- The request that a link stands for.
abbrev pub request_for : SignedLink → Text → SignedRequest
request_for link sig = record {
  file_id = link.file_id;
  expires_at = timestamp link.expires_at;
  link_id = link.link_id;
  key_id = link.key_id;
  sig = sig;
}

module _ {S F : Type 0} (db : Session S) (laws : SessionLaws db) (fs : FileStorage F)
    {sha256 : Text → Text} (storage_laws : StorageLaws sha256 fs) (hmac_sha256 : Text → Text → Text)
    (urlsafe_b64encode : Text → Text) (signer : UrlSigner) where
  -- The request of the link returns an intact target, or raises what one of its calls raised.
  abbrev pub Served : Text → World S F → SignedLink → Text → RequestContext → DownloadDraws → Type 0
  Served key y link sig context later =
      ((target : DownloadTarget) × (z : World S F) × (resolve db fs hmac_sha256 urlsafe_b64encode
            signer (request_for link sig) context later y
          ≡ (ok target, z))
        × IsIntact db laws fs storage_laws hmac_sha256 urlsafe_b64encode signer target z)
      ⊎ ((e : Exception) × (z : World S F) × (resolve db fs hmac_sha256 urlsafe_b64encode signer
              (request_for link sig) context later y
            ≡ (err e, z))
          × Trouble db fs link.file_id key y e)
