-- ===== src/Persistence/Engine.antt =====
-- app/infrastructure/database/session.py: the options of the engine, its instrumentation, and the
-- scope of a session.
pub mod Timing
use secure_file_service.Prelude.Decimal.{decimal}
use secure_file_service.Exec.{Exec}
use secure_file_service.Persistence.Session.{Session}
use secure_file_service.Config.{Settings}
use secure_file_service.Prelude.{
  contains, ends_with, ◌++◌, codes, text_eq, ◌||◌, starts_with, Bool, if◌then◌else◌, Text, ℕ, [],
  ◌∷◌, none, some, true, false,
}
use secure_file_service.Prelude.Results.{ok, err}

-- Which pool the engine gets: SQLAlchemy's default, one connection for all, or one with sizes.
pub data Pool : Type 0 where
  default_pool static_pool : Pool
  sized_pool : ℕ → ℕ → ℕ → Pool

pub data ConnectArgs : Type 0 where
  same_thread_unchecked : ConnectArgs
  timeouts : ℕ → Text → ConnectArgs

-- The arguments of `create_engine`, all with `pool_pre_ping` and `future`.
pub record EngineOptions : Type 0 where
  pub url : Text
  pub pool : Pool
  pub connect_args : ConnectArgs

abbrev is_shared_memory : Text → Bool
is_shared_memory url = contains (codes ":memory:") url || ends_with (codes "sqlite://") url

-- `create_engine_from_settings`, up to the call of `create_engine`.
unfoldable pub engine_options : Settings → EngineOptions
engine_options settings =
    let url = settings.database_url in
    if starts_with (codes "sqlite") url
    then record {
      url = url;
      pool = if is_shared_memory url then static_pool else default_pool;
      connect_args = same_thread_unchecked;
    }
    else record {
      url = url;
      pool =
          sized_pool settings.database_pool_size settings.database_max_overflow
            settings.database_connect_timeout_seconds;
      connect_args =
          timeouts settings.database_connect_timeout_seconds
            (codes "-c statement_timeout=" ++ decimal settings.database_statement_timeout_ms);
    }

-- `session_scope`: closing a session gives up what it has not committed, as a rollback does.
unfoldable pub session_scope : {S A : Type 0} → Session S → Exec S A → Exec S A
session_scope db body s =
    let (r, t) = body s in
    elim r [ ok a ↦ (ok a, db.rollback t) | err e ↦ (err e, db.rollback (db.rollback t)) ]
