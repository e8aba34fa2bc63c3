-- ===== src/Application/CreateLink.antt =====
-- `CreateSignedLinkHandler` of app/application/commands/create_signed_link.py.
pub mod Ends
pub mod Issued
pub mod Url
use mathlib.Core.Option
use secure_file_service.Prelude.{
  ℕ, Text, codes, Option, none, some, List, [], ◌∷◌, ◌++◌, Bool, true, false, not, if◌then◌else◌,
}
use secure_file_service.Prelude.Int.{ℤ}
use secure_file_service.Prelude.Results.{Result, ok, err}
use secure_file_service.Prelude.Decimal.{decimal}
use secure_file_service.Prelude.Percent.{quote_plus}
use secure_file_service.Exec.{Exec, pure, raise, lift, ◌>>=◌, ◌>>◌}
use secure_file_service.Domain.Errors.{
  Exception, domain, DomainError, file_not_found, file_unavailable, value_error,
}
use secure_file_service.Domain.Entities.{
  Datetime, AuditEvent, AuditEventType, link_generated, FileRecord, is_available, MetadataValue,
  number, string, SignedLink, RequestContext,
}
use secure_file_service.Domain.Ttl.{validate_ttl, expiry_for, timestamp}
use secure_file_service.Security.Signer.{UrlSigner, Signature, sign}
use secure_file_service.Persistence.Session.{Session}
use secure_file_service.Persistence.FileRepository
use secure_file_service.Persistence.AuditRepository
use secure_file_service.Application.World.{World, on_session, count, links_generated}

-- `key=value` of `urlencode`; `none` is a UnicodeEncodeError.
abbrev pub pair : Text → Text → Option Text
pair key value = Option.map (λ v. key ++ b'=' ∷ v) (quote_plus value)

abbrev pub join_pairs : Option Text → Option Text → Option Text
join_pairs (some a) (some b) = some (a ++ b'&' ∷ b)
join_pairs _ _ = none

-- `build_download_url`
unfoldable pub build_download_url : Text → Text → ℕ → Text → Text → Text → Option Text
build_download_url base_url file_id expires_at link_id key_id sig =
    Option.map (λ query. base_url ++ (codes "/v1/download/" ++ (file_id ++ b'?' ∷ query)))
      (join_pairs (pair (codes "exp") (decimal expires_at)) (
        join_pairs (pair (codes "lid") link_id)
          (join_pairs (pair (codes "kid") key_id) (pair (codes "sig") sig))))

pub record CreateSignedLinkCommand : Type 0 where
  pub owner_id : Text
  pub file_id : Text
  pub ttl_seconds : Option ℤ
  pub context : RequestContext

-- The handler's settings, and what the call draws: the clock and two random ids.
pub record LinkSettings : Type 0 where
  pub public_base_url : Text
  pub default_ttl : ℕ
  pub max_ttl : ℕ

pub record LinkDraws : Type 0 where
  pub now : Datetime
  pub link_id : Text
  pub event_id : Text

unfoldable pub link_event :
    CreateSignedLinkCommand → LinkDraws → FileRecord → ℕ → Datetime → Signature → AuditEvent
link_event cmd draws file ttl expires_at signature = record {
  id = draws.event_id;
  file_id = file.id;
  event_type = link_generated;
  created_at = draws.now;
  actor_id = some cmd.owner_id;
  link_id = some draws.link_id;
  expires_at = some expires_at;
  request_id = cmd.context.request_id;
  client_ip = cmd.context.client_ip;
  metadata = (codes "ttl_seconds", number ttl) ∷ (codes "key_id", string signature.key_id) ∷ [];
}

-- A domain rule that raises.
abbrev pub of_domain : {A : Type 0} → Result DomainError A → Result Exception A
of_domain (ok a) = ok a
of_domain (err e) = err (domain e)

abbrev pub or_value_error : Option Text → Result Exception Text
or_value_error none = err value_error
or_value_error (some url) = ok url

-- The two tests on the record.
abbrev pub require_available : Text → Option FileRecord → Result Exception FileRecord
require_available file_id none = err (domain (file_not_found file_id))
require_available file_id (some file) =
    if not (is_available file) then err (domain (file_unavailable file_id)) else ok file

module _ {S F : Type 0} (db : Session S) (hmac_sha256 : Text → Text → Text)
    (urlsafe_b64encode : Text → Text) (signer : UrlSigner) (settings : LinkSettings) where
  -- `execute` from the point at which the file is known to be available.
  unfoldable pub issue :
      CreateSignedLinkCommand → LinkDraws → ℕ → FileRecord → Exec (World S F) SignedLink
  issue cmd draws ttl file = do
    expires_at ← lift (expiry_for draws.now ttl)
    let expires_epoch = timestamp expires_at
    signature ← lift (sign hmac_sha256 urlsafe_b64encode signer file.id draws.link_id expires_epoch)
    url ← lift (
        or_value_error (
          build_download_url settings.public_base_url file.id expires_epoch draws.link_id
            signature.key_id signature.value))
    on_session
        (do AuditRepository.add db (link_event cmd draws file ttl expires_at signature); db.commit)
    count links_generated
    pure (record {
      link_id = draws.link_id;
      file_id = file.id;
      url = url;
      expires_at = expires_at;
      key_id = signature.key_id;
      ttl_seconds = ttl;
    })

  unfoldable pub execute : CreateSignedLinkCommand → LinkDraws → Exec (World S F) SignedLink
  execute cmd draws = do
    ttl ← lift (of_domain (validate_ttl cmd.ttl_seconds settings.default_ttl settings.max_ttl))
    found ← on_session (FileRepository.get_for_owner db cmd.file_id cmd.owner_id)
    file ← lift (require_available cmd.file_id found)
    issue cmd draws ttl file
