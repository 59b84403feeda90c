-- ===== src/Api/Wire.antt =====
-- shiitake-worker-api/src/lib.rs: the JSON frames between server and worker, as values. A `u16` or
-- `u32` field is a number, a CPU time is counted in the microseconds that the worker divides.
use shiitake.Prelude.{ℕ, Str, str, str_eq, Bool, false, Option, none, some, List, ℤ}
use shiitake.Prelude.Map.{Map}

-- The id newtypes wrap a string and are serialised as one.
abbrev pub WorkerId : Type 0
WorkerId = Str

abbrev pub ExecId : Type 0
ExecId = Str

abbrev pub SessionId : Type 0
SessionId = Str

abbrev pub default_profile : Str
default_profile = str "default"

unfoldable pub is_default_profile : Str → Bool
is_default_profile profile = str_eq profile (str "default")

pub record DropTo : Type 0 where
  pub uid : ℕ
  pub gid : ℕ
  pub supplementary_gids : List ℕ
  pub umask : Option ℕ
  pub name : Option Str
  pub create_home : Bool

pub record WorkerLocation : Type 0 where
  pub pod : Str
  pub namespace : Str
  pub container : Str

abbrev pub protocol_version : ℕ
protocol_version = 3

pub record SessionOpenFrame : Type 0 where
  pub session_id : SessionId
  pub working_dir : Str
  pub env : Map Str
  pub drop_to : Option DropTo
  pub cols : ℕ
  pub rows : ℕ

pub data SessionCommandMode : Type 0 where
  stateful parallel : SessionCommandMode

pub record ExecuteFrame : Type 0 where
  pub request_id : ExecId
  pub command : Str
  pub working_dir : Str
  pub env : Map Str
  pub drop_to : Option DropTo

pub record PtyOpenFrame : Type 0 where
  pub session_id : ExecId
  pub command : List Str
  pub working_dir : Str
  pub env : Map Str
  pub cols : ℕ
  pub rows : ℕ
  pub drop_to : Option DropTo

pub record ResourceUsage : Type 0 where
  pub memory_peak_bytes : Option ℕ
  pub memory_limit_bytes : Option ℕ
  pub cpu_user_seconds : Option ℕ
  pub cpu_system_seconds : Option ℕ

abbrev pub default_usage : ResourceUsage
default_usage = record {
  memory_peak_bytes = none;
  memory_limit_bytes = none;
  cpu_user_seconds = none;
  cpu_system_seconds = none;
}

pub record ResultFrame : Type 0 where
  pub request_id : ExecId
  pub exit_code : Option ℤ
  pub exit_signal : Option ℤ
  pub cancelled : Bool
  pub usage : ResourceUsage
  pub error : Option Str

unfoldable pub errored : ExecId → Str → ResultFrame
errored id message = record {
  request_id = id;
  exit_code = none;
  exit_signal = none;
  cancelled = false;
  usage = default_usage;
  error = some message;
}

pub data Frame : Type 0 where
  hello : WorkerId → ℕ → Str → Option WorkerLocation → Frame
  hello_ack : ℕ → Frame
  execute : ExecuteFrame → Frame
  cancel : ExecId → Frame
  result : ResultFrame → Frame
  session_open : SessionOpenFrame → Frame
  session_ready : SessionId → Option Str → Frame
  session_run : SessionId → ExecuteFrame → SessionCommandMode → Frame
  session_close : SessionId → Frame
  session_closed : SessionId → Option Str → Bool → Frame
  session_resize : SessionId → ℕ → ℕ → Frame
  pty_open : PtyOpenFrame → Frame
  pty_resize : ExecId → ℕ → ℕ → Frame
  pty_close : ExecId → Frame
  pty_exit : ExecId → Option ℤ → Option ℤ → Option Str → Frame
