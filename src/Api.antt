-- ===== src/Api.antt =====
-- app/api: the endpoints, the map from failures to responses, and the middleware.
pub mod Errors
pub mod BodyLimit
pub mod Asgi
pub mod Middleware
pub mod RouteTemplate
pub mod Health
pub mod Schemas
pub mod Http
pub mod Validation
pub mod Lifecycle
pub mod Endpoints
pub mod Factory
pub mod Openapi
