-- ===== src/Security.antt =====
-- app/core/security.py: URL signing and API keys.
pub mod Signer
pub mod Authenticator
pub mod Identifiers
