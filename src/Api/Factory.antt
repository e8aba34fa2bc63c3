-- ===== src/Api/Factory.antt =====
-- `create_app` of app/main.py, the state that app/core/lifecycle.py gives the application, and how
-- app/api/dependencies.py makes the handlers of that state and the settings. The routers and the
-- middleware of Starlette are parameters.
pub mod Laws
use secure_file_service.Security.Authenticator.{make_entries}
use secure_file_service.Api.Middleware.{stack, trusted_host_middleware}
use secure_file_service.Api.Http.{Body, Response}
use secure_file_service.Config.Fields.{cors_origin_list, trusted_host_list}
use secure_file_service.Application.Download.{DownloadDraws, SignedRequest}
use secure_file_service.Application.World.{World}
use secure_file_service.Domain.Entities.{RequestContext}
use secure_file_service.Persistence.Engine.{engine_options, EngineOptions}
use secure_file_service.Storage.{FileStorage}
use secure_file_service.Application.CreateLink.{LinkSettings}
use secure_file_service.Security.Signer.{make_signer, UrlSigner}
use secure_file_service.Api.Asgi.{App}
use secure_file_service.Persistence.Session.{Session}
use secure_file_service.Config.{api_key_map, active_signing_key_id, signing_key_ring, Settings}
use secure_file_service.Prelude.{
  text_eq, not, ℕ, if◌then◌else◌, Bool, codes, Text, List, Option, [], ◌∷◌, none, some, true, false,
  ◌&&◌, ◌+◌, ◌*◌,
}
use secure_file_service.Prelude.Results.{Result, ok, err, ◌>>=◌}
use secure_file_service.Domain.Errors.{Exception, value_error}
use secure_file_service.Api.BodyLimit.{BodyLimits, make_limits}
use secure_file_service.Api.Endpoints.{
  Caller, OwnerRequest, serve_owner, respond, download_file_endpoint,
}

-- What `lifespan` stores in `app.state`, as far as requests need it.
pub record AppState : Type 0 where
  pub settings : Settings
  pub signer : UrlSigner
  pub entries : List (Text × Text)
  pub engine : EngineOptions

-- A key that has no encoding raises UnicodeEncodeError, a ValueError.
abbrev or_encode_error : Option (List (Text × Text)) → Result Exception (List (Text × Text))
or_encode_error none = err value_error
or_encode_error (some entries) = ok entries

-- The part of `lifespan` that makes them.
unfoldable pub make_state : Settings → Result Exception AppState
make_state settings = do
  ring ← signing_key_ring settings
  active ← active_signing_key_id settings
  signer ← make_signer ring active
  users ← api_key_map settings
  entries ← or_encode_error (make_entries users)
  ok (record {
    settings = settings;
    signer = signer;
    entries = entries;
    engine = engine_options settings;
  })

-- What `get_link_handler` passes on.
unfoldable pub link_settings : Settings → LinkSettings
link_settings settings = record {
  public_base_url = settings.public_base_url;
  default_ttl = settings.default_link_ttl_seconds;
  max_ttl = settings.max_link_ttl_seconds;
}

-- `get_request_context`, from the id that the middleware stored and the address of the client.
unfoldable pub request_context : Option Text → Option Text → RequestContext
request_context request_id client_host = record { request_id = request_id; client_ip = client_host }

-- The requests, with the handlers that the dependencies make.
module _ {S F : Type 0} (db : Session S) (fs : FileStorage F) (hmac_sha256 : Text → Text → Text)
    (urlsafe_b64encode : Text → Text) (state : AppState) where
  unfoldable pub owner_request :
      Option Text → Option Text → Option Text → OwnerRequest → World S F → Response Body × World S F
  owner_request request_id client_host api_key request =
      serve_owner db fs hmac_sha256 urlsafe_b64encode state.signer (link_settings state.settings)
        state.settings.max_upload_bytes state.entries
        (record { api_key = api_key; context = request_context request_id client_host }) request

  unfoldable pub download_request :
      Option Text
      → Option Text
      → SignedRequest
      → DownloadDraws
      → World S F
      → Response Body × World S F
  download_request request_id client_host request draws =
      let context = request_context request_id client_host in
      let settings = link_settings state.settings in
      let max_upload_bytes = state.settings.max_upload_bytes in
      respond db fs hmac_sha256 urlsafe_b64encode state.signer settings max_upload_bytes request_id
        (download_file_endpoint db fs hmac_sha256 urlsafe_b64encode state.signer settings
          max_upload_bytes request context draws)

-- The arguments of `BodySizeLimitMiddleware`.
unfoldable pub body_limits : Settings → BodyLimits
body_limits settings =
    make_limits settings.max_request_body_bytes (codes "/v1/files" ∷ [])
      (some (settings.max_upload_bytes + 64 * 1024))

-- `hosts != ["*"]`
abbrev is_restricted : List Text → Bool
is_restricted (host ∷ []) = not (text_eq host (codes "*"))
is_restricted _ = true

-- The arguments of `CORSMiddleware`.
pub record CorsOptions : Type 0 where
  pub allow_origins : List Text
  pub allow_methods : List Text
  pub allow_headers : List Text
  pub expose_headers : List Text

unfoldable pub cors_options : List Text → CorsOptions
cors_options origins = record {
  allow_origins = origins;
  allow_methods = codes "GET" ∷ codes "POST" ∷ codes "DELETE" ∷ [];
  allow_headers =
      codes "Authorization"
      ∷ codes "Content-Type"
      ∷ codes "X-API-Key"
      ∷ codes "Idempotency-Key"
      ∷ codes "X-Request-ID"
      ∷ [];
  expose_headers = codes "X-Request-ID" ∷ codes "Location" ∷ [];
}

abbrev with_cors : (CorsOptions → App → App) → List Text → App → App
with_cors cors [] app = app
with_cors cors (origin ∷ origins) app = cors (cors_options (origin ∷ origins)) app

abbrev with_hosts : (List Text → App → App) → List Text → App → App
with_hosts trusted_host hosts app =
    if is_restricted hosts then trusted_host_middleware (trusted_host hosts) app else app

-- The application under the size limit: the routes, with CORS and the trusted hosts around them.
unfoldable pub guarded : Settings → (CorsOptions → App → App) → (List Text → App → App) → App → App
guarded settings cors trusted_host routes =
    with_hosts trusted_host (trusted_host_list settings)
      (with_cors cors (cors_origin_list settings) routes)

-- `create_app`: the middleware that is added last is outermost.
unfoldable pub create_app :
    Settings
    → Text
    → (ℕ → Option Text → Text)
    → (CorsOptions → App → App)
    → (List Text → App → App)
    → App
    → App
create_app settings hex json cors trusted_host routes =
    stack hex json (body_limits settings) (guarded settings cors trusted_host routes)
