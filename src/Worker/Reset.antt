-- ===== src/Worker/Reset.antt =====
-- shiitake-worker/src/reset.rs: the reset of the sandbox between two pieces of work. What /proc, the
-- scratch directories, the IPC tables and the clock show is an argument.
pub mod Trusted
use shiitake.Prelude.{
  ℕ, zero, suc, ◌+◌, ◌-◌, ◌*◌, ◌/◌, ◌%◌, ◌^◌, ◌≤◌, ◌<◌, String, ◌≡◌, refl, sym, ap, ◌∙◌, ◌≢◌, ◌↔◌,
  ◌⊎◌, inl, inr, Bool, true, false, not, ◌&&◌, ◌||◌, Option, none, some, List, [], ◌∷◌, ◌++◌, map,
  arith, ltb, leb, ◌==◌, if◌then◌else◌, ltb→lt, leb→le, ==_iff, Bool-cases, Option-cases, is_some,
  is_none, length, take, drop, is_empty, all, any, retain, count, All, length-append, count-append,
  All-append, take-length-append, drop-length-append, take-append-drop, length-take, All-retain,
  Str, str, str_eq, str_eq_iff, str_eq_refl, str_le, str_le-total, is_ascii_alphanumeric, Result,
  ok, err, ◌>>=◌, ok_or, ℤ, pos, negsuc,
}
use shiitake.Prelude.Strings.{decimal, parse_i32, lines, split_whitespace}
use shiitake.Worker.Account.{Accounts, cleanup, field}

-- What the reset does to processes and IPC objects.
pub data Blow : Type 0 where
  sigkill_process : ℤ → Blow
  remove_ipc : ℤ → Blow

abbrev pub int_eq : ℤ → ℤ → Bool
int_eq (pos a) (pos b) = a == b
int_eq (negsuc a) (negsuc b) = a == b
int_eq _ _ = false

-- `get_or_insert`
abbrev pub first_of : Option Str → Str → Option Str
first_of none e = some e
first_of (some first) e = some first

-- The entries of /proc: a name, or an error of reading one.
unfoldable pub sibling_pids : List (Result Str Str) → ℤ → Result (List ℤ) Str
sibling_pids [] self_pid = ok []
sibling_pids (err e ∷ rest) self_pid = err e
sibling_pids (ok name ∷ rest) self_pid = do
  pids ← sibling_pids rest self_pid
  elim (parse_i32 name) [
    | none ↦ ok pids
    | some pid ↦ if int_eq pid self_pid then ok pids else ok (pid ∷ pids)
  ]

-- One pass of the sweep: what /proc shows after the reaping, or that it cannot be read, and whether
-- the deadline has passed.
pub record Pass : Type 0 where
  pub entries : Result (List (Result Str Str)) Str
  pub late : Bool

-- The loop of `kill_all_except_self`; no result while it goes on.
unfoldable pub sweep : List Pass → Option ℕ → ℤ → List Blow × Option (Result ℕ Str)
unfolding sibling_pids
sweep [] signalled self_pid = ([], none)
sweep (p ∷ passes) signalled self_pid = elim (p.entries >>= λ names. sibling_pids names self_pid) [
  | err e ↦ ([], some (err e))
  | ok remaining ↦
      let count : ℕ = elim signalled [ none ↦ length remaining | some n ↦ n ] in
      let later = sweep passes (some count) self_pid in
      if is_empty remaining
      then ([], some (ok count))
      else if p.late
      then (
        [],
        some (
            err (decimal (length remaining) ++ str " process(es) still alive after reap deadline")),
      )
      else (map sigkill_process remaining ++ later.0, later.1)
]

unfoldable pub kill_all_except_self : List Pass → ℤ → List Blow × Option (Result ℕ Str)
unfolding sweep
kill_all_except_self passes self_pid =
    if int_eq self_pid (pos 1)
    then sweep passes none self_pid
    else ([], some (err (str "not a PID-namespace init; refusing to sweep")))

-- `parse_ipc_ids`: the header is skipped, the id is the second field.
unfoldable pub ids_of_lines : List Str → List ℤ
ids_of_lines [] = []
ids_of_lines (line ∷ rest) = elim (field 1 (split_whitespace line)) [
  | none ↦ ids_of_lines rest
  | some text ↦ elim (parse_i32 text) [
    | none ↦ ids_of_lines rest
    | some id ↦ id ∷ ids_of_lines rest
  ]
]

unfoldable pub parse_ipc_ids : Str → List ℤ
unfolding ids_of_lines
parse_ipc_ids content = ids_of_lines (drop 1 (lines content))

-- A table that cannot be read has no ids.
unfoldable pub ipc_ids : Option Str → List ℤ
unfolding parse_ipc_ids
ipc_ids none = []
ipc_ids (some content) = parse_ipc_ids content

-- The three tables of /proc/sysvipc.
pub record IpcTables : Type 0 where
  pub shm : Option Str
  pub sem : Option Str
  pub msg : Option Str

unfoldable pub residual : Str → Option Str → List Str
unfolding ipc_ids
residual kind table =
    if is_empty (ipc_ids table)
    then []
    else (decimal (length (ipc_ids table)) ++ str " " ++ kind) ∷ []

-- `join(", ")`
unfoldable pub join_comma : List Str → Str
join_comma [] = []
join_comma (s ∷ []) = s
join_comma (s ∷ r ∷ rest) = s ++ str ", " ++ join_comma (r ∷ rest)

-- The tables before the removal and after it.
unfoldable pub remove_sysv_ipc : IpcTables → IpcTables → List Blow × Option Str
unfolding residual join_comma
remove_sysv_ipc before after =
    let survivors =
      residual (str "shm") after.shm
      ++ residual (str "sem") after.sem
      ++ residual (str "msg") after.msg in
    (
      map remove_ipc (ipc_ids before.shm)
          ++ map remove_ipc (ipc_ids before.sem)
          ++ map remove_ipc (ipc_ids before.msg),
      if is_empty survivors
          then none
          else some (str "SysV IPC objects survived removal: " ++ join_comma survivors),
    )

-- An entry of a scratch directory: one that cannot be read, or a path, whether it is a directory, and
-- why it could not be removed.
pub data DirEntry : Type 0 where
  unread : Str → DirEntry
  entry : Str → Bool → Option Str → DirEntry

pub data Scratch : Type 0 where
  missing : Scratch
  unreadable : Str → Scratch
  entries : List DirEntry → Scratch

pub data Removal : Type 0 where
  remove_dir_all : Str → Removal
  remove_file : Str → Removal

unfoldable pub clear_entries : List DirEntry → Option Str → List Removal × Option Str
clear_entries [] first_err = ([], first_err)
clear_entries (unread e ∷ rest) first_err = clear_entries rest (first_of first_err e)
clear_entries (entry path is_dir failure ∷ rest) first_err =
    let later = clear_entries rest (elim failure [
      | none ↦ first_err
      | some e ↦ first_of first_err (str "remove " ++ path ++ str ": " ++ e)
    ]) in
    ((if is_dir then remove_dir_all path else remove_file path) ∷ later.0, later.1)

unfoldable pub clear_dir_contents : Scratch → List Removal × Option Str
unfolding clear_entries
clear_dir_contents missing = ([], none)
clear_dir_contents (unreadable e) = ([], some (str "read_dir: " ++ e))
clear_dir_contents (entries found) = clear_entries found none

-- The loop over the scratch paths.
unfoldable pub clear_paths : List (Str × Scratch) → Option Str → List Removal × Option Str
unfolding clear_dir_contents
clear_paths [] first_err = ([], first_err)
clear_paths ((path, dir) ∷ rest) first_err =
    let (removed, failure) = clear_dir_contents dir in
    let later = clear_paths rest (elim failure [
      | none ↦ first_err
      | some e ↦ first_of first_err (str "clear " ++ path ++ str ": " ++ e)
    ]) in
    (removed ++ later.0, later.1)

-- What the reset meets.
pub record Sandbox : Type 0 where
  pub self_pid : ℤ
  pub passes : List Pass
  pub ipc_before : IpcTables
  pub ipc_after : IpcTables
  pub scratch : List (Str × Scratch)
  pub passwd_writable : Bool

-- What it did; no error is success.
pub record Report : Type 0 where
  pub blows : List Blow
  pub removals : List Removal
  pub accounts : Accounts
  pub homes : List Str
  pub failure : Option Str

-- The steps after the sweep and the IPC removal.
unfoldable pub finish_reset : Sandbox → Accounts → List Blow → Option Str → Report
unfolding clear_paths
finish_reset x a blows first_err =
    let (removals, failure) = clear_paths x.scratch first_err in
    let (a', homes) = cleanup x.passwd_writable a in
    record { blows = blows; removals = removals; accounts = a'; homes = homes; failure = failure }

abbrev pub sweep_error : Result ℕ Str → Option Str
sweep_error (ok killed) = none
sweep_error (err e) = some (str "process sweep: " ++ e)

-- The reset of the first process, by how the sweep ended and what the IPC tables still show.
unfoldable pub reset_as_init :
    Sandbox → Accounts → List Blow → Option (Result ℕ Str) → Option Str → Option Report
unfolding finish_reset
reset_as_init x a blows none survivors = none
reset_as_init x a blows (some outcome) none = some (finish_reset x a blows (sweep_error outcome))
reset_as_init x a blows (some outcome) (some e) =
    some (finish_reset x a blows (first_of (sweep_error outcome) (str "SysV IPC removal: " ++ e)))

-- `reset`; no report while the sweep goes on.
unfoldable pub reset : Sandbox → Accounts → Option Report
unfolding kill_all_except_self remove_sysv_ipc reset_as_init
reset x a =
    let (killed, swept) = kill_all_except_self x.passes x.self_pid in
    let (removed, survivors) = remove_sysv_ipc x.ipc_before x.ipc_after in
    if int_eq x.self_pid (pos 1)
    then reset_as_init x a (killed ++ removed) swept survivors
    else some (finish_reset x a [] none)
