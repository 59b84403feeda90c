-- ===== src/Examples.antt =====
-- A pool at work, on which the theorems are applied.
pub mod Registry
pub mod Tasks
pub mod Wire
pub mod Web
pub mod Worker
pub mod Sandbox
pub mod Commands
use shiitake.Pool.Workers.{Drop}
use shiitake.Pool.Commands.{Sending}
use shiitake.Prelude.{
  ℕ, zero, suc, ◌+◌, ◌-◌, ◌*◌, ◌/◌, ◌%◌, ◌^◌, ◌≤◌, ◌<◌, String, ◌≡◌, refl, sym, ap, ◌∙◌, ◌≢◌, ◌↔◌,
  ◌⊎◌, inl, inr, Bool, true, false, not, ◌&&◌, ◌||◌, Option, none, some, List, [], ◌∷◌, ◌++◌, map,
  arith, ltb, leb, ◌==◌, if◌then◌else◌, ltb→lt, leb→le, ==_iff, Bool-cases, Option-cases, is_some,
  is_none, length, take, drop, is_empty, all, any, retain, count, All, length-append, count-append,
  All-append, take-length-append, drop-length-append, take-append-drop, length-take, All-retain,
  Str, str, str_eq, str_eq_iff, str_eq_refl, str_le, is_ascii_alphanumeric, Result, ok, err, ◌>>=◌,
  ok_or, ℤ, pos, negsuc,
}
use shiitake.Prelude.Map.{
  Map, get, contains_key, insert, remove, adjust, values, keys, get-insert, get-remove, get-adjust,
  AllValues, get-AllValues, insert-AllValues, remove-AllValues, adjust-AllValues,
  adjust_at-AllValues, retain-AllValues, IsUnique, insert-IsUnique, remove-IsUnique,
  adjust-IsUnique, retain-IsUnique, keep_if, get-retain, map_values, get-map_values,
  map_values-AllValues, any-keys-retain,
}
use shiitake.Api.Wire.{ExecuteFrame, SessionOpenFrame, SessionCommandMode}
use shiitake.Api.Public.{SessionState}
use shiitake.Pool.State.{
  WorkerEntry, WorkerLiveness, PendingEntry, SessionRecord, HandleRow, PoolState,
}
use shiitake.Pool.Dispatch.{fresh_runtime}

abbrev pub first_worker : Str
first_worker = str "w1"

abbrev pub second_worker : Str
second_worker = str "w2"

abbrev pub a_session : Str
a_session = str "s-1"

abbrev pub a_command : Str
a_command = str "c-1"

abbrev pub live : ℕ → WorkerLiveness
live shutdown = record {
  last_seen = 3;
  shutdown = shutdown;
  location = none;
  profile = str "default";
}

abbrev pub idle_worker : WorkerEntry
idle_worker = record { worker_id = second_worker; profile = str "default"; sink = 2 }

-- An active session on the first worker, with one stateful command.
abbrev pub active_record : SessionRecord
active_record = record {
  worker_id = first_worker;
  profile = str "default";
  sink = 1;
  state = SessionState.active;
  created_at = 4;
  last_activity_at = 6;
  finished_at = none;
  opened = none;
  closed = [];
  terminal = none;
  working_dir = str "/work";
  env = [];
  drop_to = none;
  stateful_count = 1;
}

abbrev pub running_row : HandleRow
running_row = record {
  handle_id = a_command;
  session_id = some a_session;
  worker_id = first_worker;
  started_at = 6;
  inner = fresh_runtime 6;
}

abbrev pub running_entry : PendingEntry
running_entry = record {
  sink = 1;
  worker_id = first_worker;
  profile = str "default";
  session_id = some a_session;
  mode = SessionCommandMode.stateful;
  started_at = 6;
}

abbrev pub busy_pool : PoolState
busy_pool = record {
  idle = idle_worker ∷ [];
  inflight = (a_command, running_entry) ∷ [];
  handles = (a_command, running_row) ∷ [];
  liveness = (first_worker, live 11) ∷ (second_worker, live 12) ∷ [];
  pty_sessions = [];
  sessions = (a_session, active_record) ∷ [];
  worker_sessions = (first_worker, a_session) ∷ [];
}

-- The same session, between commands.
abbrev pub quiet_record : SessionRecord
quiet_record = let r = active_record in record r { stateful_count = 0 }

abbrev pub quiet_pool : PoolState
quiet_pool =
    let s = busy_pool in
    record s { inflight = []; handles = []; sessions = (a_session, quiet_record) ∷ [] }

abbrev pub open_frame : SessionOpenFrame
open_frame = record {
  session_id = a_session;
  working_dir = str "/work";
  env = [];
  drop_to = none;
  cols = 80;
  rows = 24;
}

abbrev pub an_execute : Str → ExecuteFrame
an_execute id = record {
  request_id = id;
  command = str "true";
  working_dir = str "/work";
  env = [];
  drop_to = none;
}

-- A loss of a worker that nothing disturbs.
abbrev pub undisturbed : Drop
undisturbed = record { oom_killed = false; meanwhile = λ s. s; probing = λ s. s; ending = λ _ s. s }

abbrev pub quiet_sending : Sending
quiet_sending = record { during = λ s. s; orphan = fresh_runtime 8 }
