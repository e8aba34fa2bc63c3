-- ===== src/Domain.antt =====
-- app/domain/files: entities, exceptions, the life cycle, and the pure rules of services.py.
pub mod Entities
pub mod Errors
pub mod Lifecycle
pub mod Ttl
pub mod Filename
pub mod MediaType
pub mod Disposition
