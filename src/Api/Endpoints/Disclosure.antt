-- ===== src/Api/Endpoints/Disclosure.antt =====
-- What the owner endpoints tell a user about the files of others: nothing.
use secure_file_service.Domain.Ttl.{validate_ttl}
use secure_file_service.Security.Authenticator.{authenticate}
use secure_file_service.Domain.Errors.{file_not_found, error_code, domain}
use secure_file_service.Application.World.{World}
use secure_file_service.Api.Errors.{error_message, domain_status, domain_response, response_of}
use secure_file_service.Domain.Entities.{RequestContext}
use secure_file_service.Prelude.Results.{err, ok}
use secure_file_service.Persistence.Models.{FileModel}
use secure_file_service.Persistence.FileRepository.{has_id_and_owner, optional_entity}
use secure_file_service.Application.CreateLink.{LinkSettings}
use secure_file_service.Security.Signer.{UrlSigner}
use secure_file_service.Storage.{FileStorage}
use secure_file_service.Api.Http.{exception_response, error_response, Body, Response}
use secure_file_service.Persistence.Session.{Found-Occurs, Occurs, SessionLaws, Session}
use secure_file_service.Application.CreateLink
use secure_file_service.Application.DeleteFile
use secure_file_service.Application.Queries
use secure_file_service.Persistence.FileRepository
use secure_file_service.System.{with_session}
use secure_file_service.Prelude.{
  text_eq_iff, List, arith, ◌≢◌, ◌≡◌, [], ℕ, codes, Text, Option, none, some,
}
use secure_file_service.Exec.{Outcome-ok}
use secure_file_service.Api.Endpoints.{
  ttl_of, Caller, endpoint, list_audit_events_endpoint, respond, create_link_endpoint,
  get_current_user, delete_file_endpoint, serve_owner, get_file_endpoint, OwnerRequest, upload_file,
  list_files, get_file, delete_file, create_link, list_audit_events,
}

-- The file that a request names.
abbrev pub named_file : OwnerRequest → Option Text
named_file (upload_file filename content_type stream key draws) = none
named_file (list_files limit offset) = none
named_file (get_file id) = some id
named_file (delete_file id draws) = some id
named_file (create_link id request draws) = some id
named_file (list_audit_events id limit offset) = some id

-- The lifetime that a request for a link asks for is in range; it is tested first.
abbrev pub HasTtl : LinkSettings → OwnerRequest → Type 0
HasTtl settings (create_link id request draws) =
    (ttl : ℕ) × (validate_ttl (ttl_of request) settings.default_ttl settings.max_ttl ≡ ok ttl)
HasTtl settings (upload_file filename content_type stream key draws) = Unit
HasTtl settings (list_files limit offset) = Unit
HasTtl settings (get_file id) = Unit
HasTtl settings (delete_file id draws) = Unit
HasTtl settings (list_audit_events id limit offset) = Unit

-- The answer for a file that does not exist. It does not depend on the id.
abbrev pub missing_response : Option Text → Response Body
missing_response request_id =
    error_response request_id 404 (codes "FILE_NOT_FOUND") (codes "File not found.") [] []

module _ {S F : Type 0} (db : Session S) (laws : SessionLaws db) (fs : FileStorage F)
    (hmac_sha256 : Text → Text → Text) (urlsafe_b64encode : Text → Text) (signer : UrlSigner)
    (settings : LinkSettings) (max_upload_bytes : ℕ) where
  unseen :
      (id user : Text) (r : Option FileModel) (s t : S)
      → db.first_file (has_id_and_owner id user) s ≡ (ok r, t)
      → ((m : FileModel) → Occurs m (laws.view s).files → m.id ≡ id → m.owner_id ≢ user)
      → FileRepository.get_for_owner db id user s ≡ (ok none, t)
  unfolding FileRepository.get_for_owner optional_entity
  unseen id user none s t e foreign = ground (arith, e)
  unseen id user (some m) s t e foreign =
      let law = Outcome-ok _ _ _ (some m) t (laws.first_file_law (has_id_and_owner id user) s) e in
      let (fits, there) = Found-Occurs (has_id_and_owner id user) (laws.view s).files m law.0 in
      absurd (
        foreign m there ((text_eq_iff m.id id).0 (ground arith))
          ((text_eq_iff m.owner_id user).0 (ground arith)))

  endpoint-unseen :
      (user id : Text) (context : RequestContext) (request : OwnerRequest) (w : World S F) (t : S)
      → named_file request ≡ some id
      → HasTtl settings request
      → FileRepository.get_for_owner db id user w.session ≡ (ok none, t)
      → endpoint db fs hmac_sha256 urlsafe_b64encode signer settings max_upload_bytes user context
          request w
        ≡ (err (domain (file_not_found id)), record w { session = t })
  unfolding get_file_endpoint delete_file_endpoint create_link_endpoint list_audit_events_endpoint
      Queries.get_file Queries.list_audit_events DeleteFile.execute CreateLink.execute
  endpoint-unseen user id context (upload_file filename content_type stream key draws) w t h ttl e =
      absurd (ground (arith, h))
  endpoint-unseen user id context (list_files limit offset) w t h ttl e = absurd (ground (arith, h))
  endpoint-unseen user id context (get_file _) w t h ttl e = ground (arith, h, e)
  endpoint-unseen user id context (delete_file _ draws) w t h ttl e = ground (arith, h, e)
  endpoint-unseen user id context (create_link _ request draws) w t h (ttl, fits) e =
      ground (arith, h, e, fits)
  endpoint-unseen user id context (list_audit_events _ limit offset) w t h ttl e =
      ground (arith, h, e)

  -- A request of an authenticated user that names a file for which the database has no row of that
  -- user, be it that there is no such file or that it belongs to another, gets the same answer in
  -- each of the four operations and for every id: 404 with a fixed code and message, if a lifetime
  -- that it asks for is in range and the database answers the query for the row without raising. It
  -- leaves the storage and the metrics alone and gives up its session.
  pub foreign_is_missing :
      (entries : List (Text × Text)) (caller : Caller) (request : OwnerRequest) (w : World S F)
      (user id : Text) (r : Option FileModel) (t : S)
      → authenticate entries caller.api_key ≡ some user
      → named_file request ≡ some id
      → HasTtl settings request
      → db.first_file (has_id_and_owner id user) w.session ≡ (ok r, t)
      → ((m : FileModel) → Occurs m (laws.view w.session).files → m.id ≡ id → m.owner_id ≢ user)
      → serve_owner db fs hmac_sha256 urlsafe_b64encode signer settings max_upload_bytes entries
          caller request w
        ≡ (missing_response caller.context.request_id, record w { session = db.rollback t })
  unfolding serve_owner get_current_user respond with_session exception_response response_of
      domain_response domain_status error_message error_code
  foreign_is_missing entries caller request w user id r t known names ttl e foreign =
      let run =
        endpoint-unseen user id caller.context request w t names ttl
          (unseen id user r w.session t e foreign) in
      ground (arith, known, run)
