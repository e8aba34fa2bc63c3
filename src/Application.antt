-- ===== src/Application.antt =====
-- app/application: the command handlers, the queries and the download service.
pub mod World
pub mod Upload
pub mod CreateLink
pub mod DeleteFile
pub mod Download
pub mod Queries
pub mod Revocation
