-- ===== src/Api.antt =====
-- The contracts that the processes share: the wire between server and worker
-- (shiitake-worker-api/src) and the types of the HTTP interface (shiitake-server-api/src).
pub mod Wire
pub mod Public
pub mod Utf8
pub mod Chunk
pub mod Capture
