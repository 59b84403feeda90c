-- ===== src/Worker.antt =====
-- shiitake-worker/src: the worker that dials the server, runs its commands and resets itself.
pub mod Marker
pub mod Session
pub mod Serve
pub mod Account
pub mod Reset
pub mod Cgroup
pub mod Exec
pub mod Command
pub mod Stateful
pub mod Pty
