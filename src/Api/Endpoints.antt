-- ===== src/Api/Endpoints.antt =====
-- The endpoints: app/api/v1/files.py, app/api/v1/downloads.py, and the dependencies that they are
-- called with, app/api/dependencies.py. Each dependency that makes a handler passes on the session of
-- the request and the settings; those are the parameters here.
pub mod Privacy
pub mod Disclosure
use secure_file_service.Domain.Disposition.{content_disposition}
use secure_file_service.Api.Schemas.{event_response, file_response, link_response}
use secure_file_service.Application.Download.{resolve, DownloadDraws, SignedRequest}
use secure_file_service.Application.World.{on_session, World}
use secure_file_service.Security.Signer.{UrlSigner}
use secure_file_service.Domain.Errors.{value_error, Exception}
use secure_file_service.Security.Authenticator.{authenticate}
use secure_file_service.Prelude.Int.{ℤ}
use secure_file_service.Storage.{FileStorage, Stream}
use secure_file_service.Prelude.Results.{ok, err, Result}
use secure_file_service.Domain.Entities.{AuditEvent, SignedLink, FileRecord, RequestContext}
use secure_file_service.Persistence.Session.{Session}
use secure_file_service.Prelude.{
  true, none, some, map, if◌then◌else◌, [], ℕ, ◌++◌, ◌∷◌, codes, Text, List, Option,
}
use secure_file_service.Application.Upload
use secure_file_service.Application.CreateLink
use secure_file_service.Application.DeleteFile
use secure_file_service.Application.Queries
use secure_file_service.Application.Upload.{UploadFileResult, UploadDraws}
use secure_file_service.Application.CreateLink.{LinkSettings, LinkDraws}
use secure_file_service.Application.DeleteFile.{DeleteDraws}
use secure_file_service.System.{with_session}
use secure_file_service.Exec.{Exec, pure, lift, ◌>>=◌, ◌>>◌}
use secure_file_service.Api.Http.{
  exception_response, http_response, Body, Response, HttpException, coded, file_body, files_body,
  link_body, events_body, no_content, stored_file,
}

-- What the request tells of itself.
pub record Caller : Type 0 where
  pub api_key : Option Text
  pub context : RequestContext

-- The HTTPException of `get_current_user`.
abbrev pub unauthorized : HttpException
unauthorized = record {
  status_code = 401;
  detail = coded (codes "UNAUTHORIZED") (codes "Missing or invalid API key.");
  of_fastapi = true;
  headers = (codes "WWW-Authenticate", codes "ApiKey") ∷ [];
}

-- `get_current_user`
unfoldable pub get_current_user : List (Text × Text) → Option Text → Result HttpException Text
get_current_user entries api_key = elim (authenticate entries api_key) [
  | none ↦ err unauthorized
  | some user ↦ ok user
]

-- The `Location` of a new file.
abbrev pub location : Text → Text × Text
location id = (codes "Location", codes "/v1/files/" ++ id)

-- The headers of a download.
abbrev pub download_headers : Text → Text → List (Text × Text)
download_headers disposition sha256 =
    (codes "Content-Disposition", disposition)
    ∷ (codes "Cache-Control", codes "private, no-store")
    ∷ (codes "X-Content-Type-Options", codes "nosniff")
    ∷ (codes "ETag", b'"' ∷ sha256 ++ codes "\"")
    ∷ []

-- A text that cannot be encoded raises UnicodeEncodeError, a ValueError.
abbrev or_encode_error : Option Text → Result Exception Text
or_encode_error none = err value_error
or_encode_error (some s) = ok s

-- The requests of an owner, after FastAPI has validated their parts.
pub data OwnerRequest : Type 0 where
  upload_file : Option Text → Option Text → Stream → Option Text → UploadDraws → OwnerRequest
  list_files : ℕ → ℕ → OwnerRequest
  get_file : Text → OwnerRequest
  delete_file : Text → DeleteDraws → OwnerRequest
  create_link : Text → Option (Option ℤ) → LinkDraws → OwnerRequest
  list_audit_events : Text → ℕ → ℕ → OwnerRequest

-- `body.ttl_seconds if body else None`
abbrev pub ttl_of : Option (Option ℤ) → Option ℤ
ttl_of none = none
ttl_of (some ttl_seconds) = ttl_seconds

-- The responses of the endpoints.
abbrev pub uploaded : UploadFileResult → Response Body
uploaded result = record {
  status = if result.replayed then 200 else 201;
  headers = location result.file.id ∷ [];
  body = file_body (file_response result.file);
}

abbrev pub listing : ℕ → ℕ → List FileRecord × ℕ → Response Body
listing limit offset page = record {
  status = 200;
  headers = [];
  body =
      files_body (map file_response page.0)
        (record { limit = limit; offset = offset; total = page.1 });
}

abbrev pub found : FileRecord → Response Body
found file = record { status = 200; headers = []; body = file_body (file_response file) }

abbrev pub removed : Unit {0} → Response Body
removed u = record { status = 204; headers = []; body = no_content }

abbrev pub linked : SignedLink → Response Body
linked link = record { status = 201; headers = []; body = link_body (link_response link) }

abbrev pub audited : ℕ → ℕ → List AuditEvent × ℕ → Response Body
audited limit offset page = record {
  status = 200;
  headers = [];
  body =
      events_body (map event_response page.0)
        (record { limit = limit; offset = offset; total = page.1 });
}

module _ {S F : Type 0} (db : Session S) (fs : FileStorage F) (hmac_sha256 : Text → Text → Text)
    (urlsafe_b64encode : Text → Text) (signer : UrlSigner) (settings : LinkSettings)
    (max_upload_bytes : ℕ) where
  unfoldable pub upload_file_endpoint :
      Text
      → RequestContext
      → Option Text
      → Option Text
      → Stream
      → Option Text
      → UploadDraws
      → Exec (World S F) (Response Body)
  upload_file_endpoint user context filename content_type stream key draws = do
    result ←
        Upload.execute db fs max_upload_bytes
          (record {
            owner_id = user;
            filename = filename;
            content_type = content_type;
            stream = stream;
            idempotency_key = key;
            context = context;
          })
          draws
    pure (uploaded result)

  unfoldable pub list_files_endpoint : Text → ℕ → ℕ → Exec (World S F) (Response Body)
  list_files_endpoint user limit offset = do
    page ← on_session (Queries.list_files db user limit offset)
    pure (listing limit offset page)

  unfoldable pub get_file_endpoint : Text → Text → Exec (World S F) (Response Body)
  get_file_endpoint user file_id = do
    file ← on_session (Queries.get_file db user file_id)
    pure (found file)

  unfoldable pub delete_file_endpoint :
      Text → RequestContext → Text → DeleteDraws → Exec (World S F) (Response Body)
  delete_file_endpoint user context file_id draws = do
    done ←
        DeleteFile.execute db fs (record { owner_id = user; file_id = file_id; context = context })
          draws
    pure (removed done)

  unfoldable pub create_link_endpoint :
      Text
      → RequestContext
      → Text
      → Option (Option ℤ)
      → LinkDraws
      → Exec (World S F) (Response Body)
  create_link_endpoint user context file_id request draws = do
    link ←
        CreateLink.execute db hmac_sha256 urlsafe_b64encode signer settings
          (record {
            owner_id = user;
            file_id = file_id;
            ttl_seconds = ttl_of request;
            context = context;
          })
          draws
    pure (linked link)

  unfoldable pub list_audit_events_endpoint : Text → Text → ℕ → ℕ → Exec (World S F) (Response Body)
  list_audit_events_endpoint user file_id limit offset = do
    page ← on_session (Queries.list_audit_events db user file_id limit offset)
    pure (audited limit offset page)

  -- `download_file`
  unfoldable pub download_file_endpoint :
      SignedRequest → RequestContext → DownloadDraws → Exec (World S F) (Response Body)
  download_file_endpoint request context draws = do
    target ← resolve db fs hmac_sha256 urlsafe_b64encode signer request context draws
    disposition ← lift (or_encode_error (content_disposition target.filename))
    pure (record {
      status = 200;
      headers = download_headers disposition target.sha256;
      body = stored_file target.path target.content_type;
    })

  abbrev pub endpoint : Text → RequestContext → OwnerRequest → Exec (World S F) (Response Body)
  endpoint user context (upload_file filename content_type stream key draws) =
      upload_file_endpoint user context filename content_type stream key draws
  endpoint user context (list_files limit offset) = list_files_endpoint user limit offset
  endpoint user context (get_file file_id) = get_file_endpoint user file_id
  endpoint user context (delete_file file_id draws) =
      delete_file_endpoint user context file_id draws
  endpoint user context (create_link file_id request draws) =
      create_link_endpoint user context file_id request draws
  endpoint user context (list_audit_events file_id limit offset) =
      list_audit_events_endpoint user file_id limit offset

  -- What the client gets: the response of the endpoint, or that of the exception it raises.
  unfoldable pub respond :
      Option Text → Exec (World S F) (Response Body) → World S F → Response Body × World S F
  respond request_id m w =
      let (r, x) = with_session db m w in
      (elim r [ ok response ↦ response | err e ↦ exception_response request_id e ], x)

  -- A request to a route that requires a user: the endpoint does not run without one.
  unfoldable pub serve_owner :
      List (Text × Text) → Caller → OwnerRequest → World S F → Response Body × World S F
  serve_owner entries caller request w = elim (get_current_user entries caller.api_key) [
    | err e ↦ (http_response caller.context.request_id e, w)
    | ok user ↦ respond caller.context.request_id (endpoint user caller.context request) w
  ]
