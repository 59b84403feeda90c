-- ===== src/Worker/Exec.antt =====
-- shiitake-worker/src/exec.rs: one command as a child process. The answers of the operating system are
-- arguments; what is done to the process is a list of acts.
use shiitake.Prelude.{
  ℕ, ◌-◌, Bool, true, false, not, Option, none, some, List, [], ◌∷◌, ◌++◌, if◌then◌else◌, Str, str,
  Result, ok, err, ℤ, pos,
}
use shiitake.Api.Wire.{DropTo, ExecuteFrame, ResourceUsage, ResultFrame}
use shiitake.Worker.Cgroup.{read_memory_peak, read_memory_limit, read_cpu_times_from}

pub data ProcessAct : Type 0 where
  sigterm_group : ℕ → ProcessAct
  sigkill_group : ℕ → ProcessAct
  append_marker : Str → ProcessAct

-- A process ends with a code or by a signal.
pub data ExitStatus : Type 0 where
  code : ℤ → ExitStatus
  signal : ℤ → ExitStatus

-- What `select!` sees first: a change of the cancellation, with its value, and then the end of the
-- child; or the end. No status where the wait fails.
pub data Waiting : Type 0 where
  cancel_changed : Bool → Option ExitStatus → Waiting
  child_done : Option ExitStatus → Waiting

unfoldable pub wait_with_signals : ℕ → Waiting → List ProcessAct × Bool × Option ExitStatus
wait_with_signals pid (cancel_changed true status) =
    (sigterm_group pid ∷ sigkill_group pid ∷ [], true, status)
wait_with_signals pid (cancel_changed false status) = ([], false, status)
wait_with_signals pid (child_done status) = ([], false, status)

abbrev pub sigkill_number : ℤ
sigkill_number = pos 9

unfoldable pub exit_of : Option ExitStatus → Option ℤ × Option ℤ
exit_of none = (none, some sigkill_number)
exit_of (some (code c)) = (some c, none)
exit_of (some (signal s)) = (none, some s)

-- The cgroup files: before the command the CPU times, after it all.
pub record Cgroup : Type 0 where
  pub cpu_before : Option Str
  pub cpu_after : Option Str
  pub memory_peak : Option Str
  pub memory_max_v2 : Option Str
  pub memory_max_v1 : Option Str

-- CPU times are differences in microseconds, which saturate at 0.
unfoldable pub usage : Cgroup → ResourceUsage
unfolding read_memory_peak read_memory_limit read_cpu_times_from
usage files =
    let before = read_cpu_times_from files.cpu_before in
    let after = read_cpu_times_from files.cpu_after in
    record {
      memory_peak_bytes = read_memory_peak files.memory_peak;
      memory_limit_bytes = read_memory_limit files.memory_max_v2 files.memory_max_v1;
      cpu_user_seconds = elim before [
        | none ↦ none
        | some b ↦ elim after [ none ↦ none | some a ↦ some (a.user_usec - b.user_usec) ]
      ];
      cpu_system_seconds = elim before [
        | none ↦ none
        | some b ↦ elim after [ none ↦ none | some a ↦ some (a.system_usec - b.system_usec) ]
      ];
    }

-- The answers to a command: the first step that fails, if one does, the child's id and its end.
pub record Machine : Type 0 where
  pub setup_error : Option Str
  pub pid : ℕ
  pub waiting : Waiting
  pub cgroup : Cgroup

-- `run`: the directory, the two files, the account and the child come first.
unfoldable pub run_exec : ExecuteFrame → Machine → List ProcessAct × Result ResultFrame Str
unfolding wait_with_signals exit_of usage
run_exec execute machine =
    let (acts, cancelled, status) = wait_with_signals machine.pid machine.waiting in
    let (exit_code, exit_signal) = exit_of status in
    let marked =
      if cancelled
      then acts ++ append_marker (10 ∷ str "Command cancelled by server" ++ 10 ∷ []) ∷ []
      else acts in
    elim machine.setup_error [
      | some e ↦ ([], err e)
      | none ↦ (
        marked,
        ok (record {
          request_id = execute.request_id;
          exit_code = exit_code;
          exit_signal = exit_signal;
          cancelled = cancelled;
          usage = usage machine.cgroup;
          error = none;
        }),
      )
    ]

-- The system calls of `apply_drop_to`.
pub data Syscall : Type 0 where
  setgid : ℕ → Syscall
  setgroups : List ℕ → Syscall
  setuid : ℕ → Syscall
  umask : ℕ → Syscall

-- Whether `setgid`, `setgroups` and `setuid` succeed.
pub record Grants : Type 0 where
  pub gid_set : Bool
  pub groups_set : Bool
  pub uid_set : Bool

unfoldable pub apply_drop_to : Grants → DropTo → List Syscall × Bool
apply_drop_to grants d =
    let masked : List Syscall = elim d.umask [ none ↦ [] | some mask ↦ umask mask ∷ [] ] in
    if not grants.gid_set
    then (setgid d.gid ∷ [], false)
    else if not grants.groups_set
    then (setgid d.gid ∷ setgroups d.supplementary_gids ∷ [], false)
    else if not grants.uid_set
    then (setgid d.gid ∷ setgroups d.supplementary_gids ∷ setuid d.uid ∷ [], false)
    else (setgid d.gid ∷ setgroups d.supplementary_gids ∷ setuid d.uid ∷ masked, true)
