-- ===== src/Worker/Reset/Trusted.antt =====
-- reset.rs: when a reset reports success.
use shiitake.Prelude.Strings.{lines, split_whitespace, parse_i32}
use shiitake.Prelude.{
  drop, any, is_some, Bool, true, false, not, ◌&&◌, ◌||◌, Option, none, some, List, [], ◌∷◌,
  if◌then◌else◌, is_none, is_empty, all, Str, ok, err, ◌>>=◌, ℤ, pos,
}
use shiitake.Worker.Account.{field}
use shiitake.Worker.Reset.{
  int_eq, sibling_pids, Pass, IpcTables, DirEntry, unread, entry, Scratch, missing, unreadable,
  entries, Sandbox,
}

abbrev is_removed : DirEntry → Bool
is_removed (unread e) = false
is_removed (entry path is_dir failure) = is_none failure

abbrev is_emptied : Str × Scratch → Bool
is_emptied (path, missing) = true
is_emptied (path, unreadable e) = false
is_emptied (path, entries found) = all is_removed found

-- A line of a table lists an object: its second field is a number.
abbrev lists_object : Str → Bool
lists_object line = elim (field 1 (split_whitespace line)) [
  | none ↦ false
  | some text ↦ is_some (parse_i32 text)
]

-- No line after the header lists an object; a table that cannot be read lists none.
abbrev is_vacant : Option Str → Bool
is_vacant none = true
is_vacant (some content) = not (any lists_object (drop 1 (lines content)))

abbrev ipc_gone : IpcTables → Bool
ipc_gone tables = is_vacant tables.shm && (is_vacant tables.sem && is_vacant tables.msg)

-- A look at /proc, before the deadline has passed at an earlier one, shows the worker alone, and no
-- earlier look failed.
abbrev found_alone : ℤ → List Pass → Bool
found_alone self_pid [] = false
found_alone self_pid (p ∷ passes) =
    let rest = found_alone self_pid passes in
    elim (p.entries >>= λ names. sibling_pids names self_pid) [
      | err e ↦ false
      | ok remaining ↦ is_empty remaining || (not p.late && rest)
    ]

abbrev pub is_trusted : Sandbox → Bool
is_trusted x =
    (if int_eq x.self_pid (pos 1)
      then found_alone x.self_pid x.passes && ipc_gone x.ipc_after
      else true)
    && all is_emptied x.scratch
