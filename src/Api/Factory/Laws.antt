-- ===== src/Api/Factory/Laws.antt =====
-- What an application made of settings that load does.
use secure_file_service.Persistence.Engine.{engine_options}
use secure_file_service.Domain.Ttl.{validate_ttl}
use secure_file_service.Security.Signer.{make_signer}
use secure_file_service.Security.Authenticator.{make_entries}
use secure_file_service.Api.Asgi.{header, Scope, App}
use secure_file_service.Config.Fields.{load_settings-IsUsable, is_bare, load_settings}
use secure_file_service.Api.BodyLimit.{
  make_limits, limited_receive-IsLimited, body_size, limit_for, Message, BodyLimits,
}
use secure_file_service.Prelude.Dict.{Dict}
use secure_file_service.Config.{api_key_map, Settings}
use secure_file_service.Api.Factory.{
  CorsOptions, create_app, make_state, AppState, body_limits, guarded, link_settings,
}
use secure_file_service.Prelude.{
  ◌∙◌, ap, starts_with, codes, Bool, List, Option, ℕ, Text, none, some, false, ◌≤◌, ◌≡◌, arith,
  refl, Bool-cases, inl, inr,
}
use secure_file_service.Prelude.Results.{ok}
use secure_file_service.Api.Middleware.{
  request_id_for, access_log_middleware, request_id_middleware, stack, admission,
  body_size_middleware, admitted,
}

engine_options-url : (s : Settings) → (engine_options s).url ≡ s.database_url
unfolding engine_options
engine_options-url s = elim (Bool-cases (starts_with (codes "sqlite") s.database_url)) [
  | inl e ↦ rw e refl
  | inr e ↦ rw e refl
]

-- With settings that load, and API keys that have an encoding, the application starts up to the
-- connection to the database: its state has a signer whose active key is in its key ring, and the
-- engine's URL does not begin with postgresql:// or postgres://. A link without a requested TTL is
-- given the default TTL by the handler that the dependencies make.
pub make_state-IsReady :
    (upper : Text → Text) (raw s : Settings) (users : Dict Text) (entries : List (Text × Text))
    → load_settings upper raw ≡ ok s
    → api_key_map s ≡ ok users
    → make_entries users ≡ some entries
    → (state : AppState) × (make_state s ≡ ok state)
      × (make_signer state.signer.keys state.signer.active ≡ ok state.signer)
      × (state.entries ≡ entries)
      × (is_bare state.engine.url ≡ false)
      × (validate_ttl none
            (link_settings state.settings).default_ttl
            (link_settings state.settings).max_ttl
          ≡ ok s.default_link_ttl_seconds)
unfolding make_state link_settings
make_state-IsReady upper raw s users entries loaded known encoded =
    let ((ring, k, er, ek, made), ttl, slash, bare, uploads, chunks) =
      load_settings-IsUsable upper raw s loaded in
    let state : AppState = record {
      settings = s;
      signer = record { keys = ring; active = k };
      entries = entries;
      engine = engine_options s;
    } in
    (
      state,
      ground (arith, er, ek, made, known, encoded),
      made,
      refl,
      ap is_bare (engine_options-url s) ∙ bare,
      ttl,
    )

body_size_middleware-fits :
    (json : ℕ → Option Text → Text) (limits : BodyLimits) (app : App) (scope : Scope)
    (messages : List Message) (raises : Bool)
    → admission
        (limit_for limits scope.method scope.path)
        (header scope.headers (codes "content-length"))
      ≡ admitted
    → body_size messages ≤ limit_for limits scope.method scope.path
    → body_size_middleware json limits app scope messages raises ≡ app scope messages raises
unfolding body_size_middleware
body_size_middleware-fits json limits app scope messages raises declared fits =
    let limit = limit_for limits scope.method scope.path in
    let (low, (to, from), all) = limited_receive-IsLimited limit messages in
    elim (Bool-cases scope.is_http) [
      | inr other ↦ ground (arith, other)
      | inl http ↦ ground (arith, http, declared, from fits, all (from fits))
    ]

-- A request whose body is not longer than the limit of its path, and whose declared length is absent,
-- not made of digits only, or a number that `int` reads and that is at most the limit, is treated as
-- if there were no limit: the routes receive every message of it, and the response and the metrics
-- are the same.
pub create_app-IsTransparent :
    (s : Settings) (hex : Text) (json : ℕ → Option Text → Text) (cors : CorsOptions → App → App)
    (trusted_host : List Text → App → App) (routes : App) (scope : Scope) (messages : List Message)
    (raises : Bool)
    → admission
        (limit_for (body_limits s) scope.method scope.path)
        (header scope.headers (codes "content-length"))
      ≡ admitted
    → body_size messages ≤ limit_for (body_limits s) scope.method scope.path
    → create_app s hex json cors trusted_host routes scope messages raises
      ≡ request_id_middleware hex
          (access_log_middleware (guarded s cors trusted_host routes))
          scope
          messages
          raises
unfolding create_app stack request_id_middleware access_log_middleware body_limits make_limits
    limit_for
create_app-IsTransparent s hex json cors trusted_host routes scope messages raises declared fits =
    let inner = guarded s cors trusted_host routes in
    let limits = body_limits s in
    let seen : Scope = record scope { request_id = some (request_id_for hex scope) } in
    let e = body_size_middleware-fits json limits inner seen messages raises declared fits in
    let f = body_size_middleware-fits json limits inner scope messages raises declared fits in
    elim (Bool-cases scope.is_http) [
      | inr other ↦ ground (arith, other, f)
      | inl http ↦ ground (arith, http, e)
    ]
