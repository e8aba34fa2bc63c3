-- ===== src/Tests.antt =====
-- Concrete sessions and storages, and the theorems applied to them.
mod Memory
mod Rules
mod Keys
mod Uploads
mod Links
mod Settings
mod Responses
mod Systems
mod Endpoints
mod Http
mod Serving
mod Startup
mod Logs
