-- ===== src/Federation.antt =====
-- internal/federation: composing the services' schemas.
pub mod Compose
pub mod Document
pub mod Join
pub mod Normalize
pub mod Utils
pub mod Rules
