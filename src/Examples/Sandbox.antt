-- ===== src/Examples/Sandbox.antt =====
-- The theorems on the accounts and the reset, at one sandbox.
use shiitake.Prelude.{
  ◌≡◌, refl, true, false, none, some, [], ◌∷◌, ◌++◌, Str, str, str_eq, is_ascii_alphanumeric, ok,
  pos,
}
use shiitake.Api.Wire.{DropTo}
use shiitake.Api.Capture.{join}
use shiitake.Prelude.Strings.{unlines, strip_cr, split, lines, decimal}
use shiitake.Worker.Reset.{
  sigkill_process, remove_ipc, IpcTables, entry, missing, entries, remove_file, Sandbox, Report,
}
use shiitake.Worker.Account.{Accounts, Append, Disk, ensure, cleanup, names_account}
use shiitake.Worker.Account.Undo.{cleanup-ensure}

abbrev a_user : DropTo
a_user = record {
  uid = 1000;
  gid = 1000;
  supplementary_gids = [];
  umask = none;
  name = some (str "ann");
  create_home = true;
}

abbrev a_disk : Disk
a_disk = record { readable = true; appending = Append.whole; home_made = true }

abbrev root_line : Str
root_line = str "root:x:0:0:root:/root:/bin/bash"

cleanup-ensure_example :
    (cleanup true
      (ensure
        (str "/home")
        a_disk
        a_user
        (record { passwd = root_line ++ 10 ∷ []; ledger = [] })).1).0
    ≡ record { passwd = root_line ++ 10 ∷ []; ledger = [] }
unfolding unlines strip_cr
cleanup-ensure_example =
    cleanup-ensure (str "/home") a_disk a_user (root_line ∷ []) refl refl ((refl, refl), tt)

ensure_runs :
    (ensure
      (str "/home")
      a_disk
      a_user
      (record { passwd = root_line ++ 10 ∷ []; ledger = [] })).1.passwd
    ≡ root_line ++ 10 ∷ str "ann:x:1000:1000:shiitake session:/home/ann:/bin/bash" ++ 10 ∷ []
unfolding ensure join is_ascii_alphanumeric str_eq names_account split lines decimal
ensure_runs = refl

abbrev clean_tables : IpcTables
clean_tables = record { shm = none; sem = none; msg = none }

abbrev used_tables : IpcTables
used_tables = record {
  shm = some (str "key shmid" ++ 10 ∷ str " 0 7 600" ++ 10 ∷ []);
  sem = none;
  msg = none;
}

-- One process is left at first, then none; one file cannot be removed.
abbrev a_sandbox : Sandbox
a_sandbox = record {
  self_pid = pos 1;
  passes =
      record { entries = ok (ok (str "1") ∷ ok (str "7") ∷ ok (str "cpuinfo") ∷ []); late = false }
      ∷ record { entries = ok (ok (str "1") ∷ []); late = true }
      ∷ [];
  ipc_before = used_tables;
  ipc_after = clean_tables;
  scratch =
      (str "/tmp", entries (entry (str "/tmp/a") false (some (str "busy")) ∷ []))
      ∷ (str "/var/tmp", missing)
      ∷ [];
  passwd_writable = true;
}

abbrev no_accounts : Accounts
no_accounts = record { passwd = []; ledger = [] }

abbrev a_report : Report
a_report = record {
  blows = sigkill_process (pos 7) ∷ remove_ipc (pos 7) ∷ [];
  removals = remove_file (str "/tmp/a") ∷ [];
  accounts = no_accounts;
  homes = [];
  failure = some (str "clear /tmp: remove /tmp/a: busy");
}
