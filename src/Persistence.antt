-- ===== src/Persistence.antt =====
-- app/infrastructure/database and app/infrastructure/repositories: the tables, what the program
-- uses of a SQLAlchemy session, and the two repositories.
pub mod Models
pub mod Schema
pub mod Engine
pub mod Session
pub mod FileRepository
pub mod AuditRepository
