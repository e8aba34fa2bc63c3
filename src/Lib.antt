-- ===== src/Lib.antt =====
-- A model of the Secure File Service and the theorems that hold of it.
--
-- The service stores files for API-key users, issues signed links with an expiry, serves the bytes
-- to whoever presents a valid link, and records every step in an audit trail.
--
-- Prelude      texts as lists of code points, UTF-8, decimal numbers, percent-encoding and query
--              strings, dictionaries
-- Domain       app/domain/files: Entities (entities.py), Errors (exceptions.py), Lifecycle (state.py);
--              of services.py: Ttl (validate_ttl, expiry_for, is_expired), Filename
--              (sanitize_filename), MediaType (normalize_content_type), Disposition
--              (content_disposition)
-- Security     app/core/security.py: Signer (UrlSigner), Authenticator (ApiKeyAuthenticator),
--              Identifiers (new_id)
-- Exec         stateful code that may raise: a function from a state to a result and a state
-- Persistence  app/infrastructure/database/models (Models) and app/infrastructure/repositories
--              (FileRepository, AuditRepository), over the interface Session; Schema is about the
--              tables (migrations/versions/0001_initial.py), Engine about
--              app/infrastructure/database/session.py
-- Storage      the port FileStorage of app/domain/files/ports.py with its laws; Paths and Local
--              model app/infrastructure/storage/local.py: Local/Writing is about write,
--              Local/Reading about open, Local/Ready about the probes, Local/Refinement about the laws
--              of the port
-- Application  app/application: Upload (commands/upload_file.py), CreateLink
--              (commands/create_signed_link.py), DeleteFile (commands/delete_file.py), Download
--              (services/download_service.py), Queries (queries); World holds what a handler uses;
--              Revocation joins deletion and download
-- Config       app/core/config.py: the parsers of the settings and their validation; Fields has the
--              bounds and validators of single fields and what loading does
-- Api          Errors and Http (app/api/errors.py), Validation and Endpoints (app/api/v1 and
--              app/api/dependencies.py), Asgi, Middleware, BodyLimit and RouteTemplate
--              (app/api/middleware.py, stacked as in app/main.py), Health (app/health/ready.py),
--              Lifecycle (app/core/lifecycle.py), Schemas (app/schemas/files.py), Factory
--              (create_app of app/main.py, and how app/api/dependencies.py makes the handlers),
--              Openapi (the correction of the schema in app/main.py)
-- System       requests one after the other, each with a session of its own, over one database and
--              one storage; Invariant and Soundness are about what all of them keep, Counting and
--              Delivery about what that means for a download, Answers about how it ends when its
--              file is available, Liveness about a link from its issue to its delivery
-- Logging      app/core/logging.py: the formatters of log records; Calls has the calls of the loggers
-- Telemetry    app/core/telemetry.py: the metrics and the calls on them
-- Scripts      scripts/wait_for_db.py
-- Tests        a session and a storage in memory, and the theorems at concrete inputs
--
-- A handler is a function of its command, of what it draws from its surroundings (the clock and the
-- random ids) and of a world: the session, the storage and the calls made on the metrics. It gives a
-- result, a value or an exception, and the world after it, so what was changed before a raise stays
-- changed. The handlers call the repositories, these call the session; both session and storage are
-- arguments, with the laws that the handlers rely on as hypotheses. A commit that raises may have taken
-- effect all the same, as when the connection is lost before its answer. HMAC-SHA256, SHA-256, base64 and
-- the Unicode normal form are function arguments as well.
--
-- Times are microseconds since the Unix epoch. Numbers are natural numbers without bound, as
-- Python's integers are; a requested TTL may be negative. Every loop is structural recursion on its
-- input, but for two. The fuel for the reading of an object is one more than the bytes of the
-- object, and each chunk takes at least one of them. The fuel for waiting for the database is one
-- more than the time until the deadline, in units of the clock, and each sleep takes at least one; an
-- attempt that is never answered ends the run of the model, since the script then hangs.
--
-- An endpoint is a function of its validated inputs; that FastAPI does not run it for invalid ones
-- or without a user is taken from its documentation. An ASGI application is a function from a scope
-- and the messages that it may receive to what it sends and whether it raises.
--
-- Not modelled: when handlers log, which has no effect on the results; the order in which
-- FastAPI validates inputs and the texts of its errors; what the steps of start-up do inside the
-- libraries (the FastAPI application and the schema it makes, the engine, tracing), the downgrade of
-- the migration, and the scripts that print what the running service answers. Of local.py
-- directories and symbolic links.
pub mod Prelude
pub mod Domain
pub mod Security
pub mod Exec
pub mod Persistence
pub mod Storage
pub mod Application
pub mod Config
pub mod Api
pub mod System
pub mod Scripts
pub mod Logging
pub mod Telemetry
mod Tests
