-- ===== src/Api/Public.antt =====
-- shiitake-server-api/src/lib.rs: the states and causes that the HTTP interface reports, and the
-- request that opens a session. The responses stand with the handlers that build them.
use shiitake.Prelude.{ℕ, Str, Bool, true, false, Option}
use shiitake.Prelude.Map.{Map}
use shiitake.Api.Wire.{DropTo}

pub data SessionState : Type 0 where
  opening active closing closed failed : SessionState

pub data HandleStatus : Type 0 where
  running completed oomkilled error : HandleStatus

pub data ExitCause : Type 0 where
  normal signal oom_container worker_died worker_error output_error cancelled : ExitCause

pub record CreateSessionRequest : Type 0 where
  pub profile : Str
  pub workdir : Option Str
  pub env : Map Str
  pub drop_to : Option DropTo
  pub cols : ℕ
  pub rows : ℕ

pub record ProfileResponse : Type 0 where
  pub name : Str
  pub idle : ℕ
  pub allocated : ℕ

-- `state == SessionState::Active`, and so on.
abbrev pub is_active : SessionState → Bool
is_active active = true
is_active _ = false

abbrev pub is_opening : SessionState → Bool
is_opening opening = true
is_opening _ = false

abbrev pub is_closing : SessionState → Bool
is_closing closing = true
is_closing _ = false

-- `matches!(state, Closed | Failed)`
abbrev pub is_finished : SessionState → Bool
is_finished closed = true
is_finished failed = true
is_finished _ = false

-- `status == HandleStatus::Running`
abbrev pub is_running : HandleStatus → Bool
is_running running = true
is_running _ = false
