-- ===== src/Lib.antt =====
-- Shiitake: workers connect to a pool, the pool runs commands and sessions on them, and an HTTP layer
-- stands in front of it.
--
-- Parts and files:
-- - Prelude, Boolean tests, lists over native numbers, strings as the lists of their UTF-8 bytes (Strings:
--   the methods of `str` that the code calls), maps as association lists, results.
-- - Api, shiitake-worker-api/src/lib.rs (Wire: the frames; Chunk: the binary header of output; Utf8: the
--   standard's validity test of `str::from_utf8`,
--   and the replacement of `String::from_utf8_lossy`), shiitake-worker-api/src/capture.rs (Capture)
--   and shiitake-server-api/src/lib.rs (Public).
-- - Pool, shiitake-server/src/pool/mod.rs. State holds the data behind the pool's lock; Ids, Outcome,
--   Handles, Dispatch, Workers, Sessions (with Create, Close, Shut and Reports below it), Commands, Terminal,
--   Sweeper, Keepalive and Occupancy hold the operations, under the names of the code. Sections lists
--   the parts of the operations that hold the lock, as the steps of an interleaving. Loss, Closing,
--   Submission, Refusal, Reservation, Rotation, Routing, Attachment, Listing, Expiry, Unused, Pings and
--   the modules below Sections and Occupancy hold the theorems.
-- - Http, shiitake-server/src/http. PublicId and Validate (sessions.rs), Handshake (mod.rs, dispatch.rs),
--   Answers (sessions.rs, exec.rs, health.rs), Sessions, Lifecycle and Terminal (sessions.rs; Relay for the
--   theorem on the terminal) and Commands (sessions.rs, exec.rs).
-- - Worker, shiitake-worker/src. In client.rs: Marker (`ShellCompletion`), Session (`run_session`, with
--   Handle for the branches of its `select!` and Run for its loop), and Serve (the configuration, the
--   handshake and `next_execute`, with Rounds for `serve_session` and `run`). Windows, Strip, Jobs,
--   Answers, Ledger, Coherent, Order, Clean, Dirty and Quota below them hold the theorems. Account (account.rs,
--   with Undo for its theorem), Reset (reset.rs, with Trusted for its theorem), Cgroup (cgroup.rs) and
--   Exec (exec.rs) are what a turn of that life does to the sandbox. Command (`run_command`, with Streams
--   and Forward for its theorem), Pty (`run_pty`) and Stateful (the commands in a session's shell, with theorems in
--   Quoting, Snapshot and Watch) are the work of a turn.
-- - Examples, a pool at work, and the theorems applied to it.
--
-- How the code is modelled:
-- - An operation takes the pool's state and gives the new state, its answer, and its effects in order:
--   frames sent, waiters told, signals given, bytes spooled, metrics recorded. Sinks, channels and
--   signals are numbers; a clock reading is an argument, one for each part of an operation.
-- - An operation that awaits between two holds of the lock is split there. What the file system, a
--   socket, a channel, a timeout or the cluster probe answers is an argument, and so is, where the code
--   looks at the state again, what other tasks did to it in between (so in submissions, dispatches, the
--   loss of a worker and the rounds of the sweeper). Operations that only go on from the pool's lock to
--   the locks of single handles (the ends of handles in `session_closed`, `cancel`, `complete_request`)
--   are composed in one step, as functions. In Sections the locked parts of the operations stand apart
--   and may occur in any order, with any arguments, which covers every schedule of the tasks.
-- - A worker's session is a loop over the events that `select!` sees, in any order, with what the socket
--   answers to each send; what it does is a list of acts. A worker's life is a list of connections, each
--   a list of turns.
-- - The runtime of a handle, which the code shares behind an `Arc`, stands in the handle's row; the lock
--   `send_lock`, which only orders two sends, is left out.
-- - Hash maps and B-tree maps are association lists; nothing depends on the order of their entries.
--   Strings are bytes: a filter on characters acts on the bytes, which are dropped alike above ASCII.
-- - Machine integers that are only compared or counted are natural numbers; the 128-bit shift of the
--   public ids and the saturating 64-bit sums are written out.
-- - The loops run over lists, and the endless loops of the sweeper, the keepalive and the worker's reader
--   are modelled by one round. Only `decimal`, the printing of a number n, runs on fuel: n + 1 steps, of
--   which each divides by ten, are more than n has digits (decimal_from-enough).
--
-- Not modelled: the terminal device of pty.rs of the worker, the tails of a session's output files, the
-- copying of home directories, the legacy terminal of shiitake-server/src/http/pty.rs, start-up, metrics
-- export and telemetry, the Kubernetes probe, and the clients.
-- JSON, HTTP routing and sockets are the libraries' part.
pub mod Prelude
pub mod Api
pub mod Pool
pub mod Worker
pub mod Http
pub mod Examples
