-- ===== src/Http.antt =====
-- shiitake-server/src/http: what the HTTP handlers check and answer round the pool.
pub mod PublicId
pub mod Validate
pub mod Handshake
pub mod Answers
pub mod Commands
pub mod Sessions
pub mod Lifecycle
pub mod Terminal
