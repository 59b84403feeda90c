-- ===== src/Worker/Account.antt =====
-- shiitake-worker/src/account.rs: the entries of /etc/passwd that the worker makes for its sessions, and
-- their removal. The root of the homes and the answers of the file system are arguments.
pub mod Undo
use shiitake.Prelude.{
  ℕ, zero, suc, ◌+◌, ◌-◌, ◌*◌, ◌/◌, ◌%◌, ◌^◌, ◌≤◌, ◌<◌, String, ◌≡◌, refl, sym, ap, ◌∙◌, ◌≢◌, ◌↔◌,
  ◌⊎◌, inl, inr, Bool, true, false, not, ◌&&◌, ◌||◌, Option, none, some, List, [], ◌∷◌, ◌++◌, map,
  arith, ltb, leb, ◌==◌, if◌then◌else◌, ltb→lt, leb→le, ==_iff, Bool-cases, Option-cases, is_some,
  is_none, length, take, drop, is_empty, all, any, retain, count, All, length-append, count-append,
  All-append, take-length-append, drop-length-append, take-append-drop, length-take, All-retain,
  Str, str, str_eq, str_eq_iff, str_eq_refl, str_le, str_le-total, is_ascii_alphanumeric, Result,
  ok, err, ◌>>=◌, ok_or, ℤ, pos, negsuc,
}
use shiitake.Prelude.Strings.{starts_with, split, lines, unlines, decimal}
use shiitake.Api.Wire.{DropTo}
use shiitake.Api.Capture.{join}

pub record Created : Type 0 where
  pub name : Str
  pub uid : ℕ
  pub home : Option Str

-- The file, and the ledger of what was made.
pub record Accounts : Type 0 where
  pub passwd : Str
  pub ledger : List Created

-- `name.contains([':', '\n', ' ', '\t'])`
unfoldable pub corrupts : Str → Bool
corrupts name = any (λ b. b == b':' || b == 10 || b == 32 || b == 9) name

unfoldable pub safe_to_name : Str → ℕ → Bool
unfolding corrupts
safe_to_name name uid = not (uid == 0) && not (is_empty name) && not (corrupts name)

unfoldable pub passwd_entry : Str → ℕ → ℕ → Str → Str
passwd_entry name uid gid home =
    name
    ++ str ":x:"
    ++ decimal uid
    ++ str ":"
    ++ decimal gid
    ++ str ":shiitake session:"
    ++ home
    ++ str ":/bin/bash"
    ++ 10 ∷ []

-- `fields.next()` and then `fields.nth(1)`.
abbrev pub field : ℕ → List Str → Option Str
field n [] = none
field zero (f ∷ fs) = some f
field (suc n) (f ∷ fs) = field n fs

abbrev pub is_field : Option Str → Str → Bool
is_field none text = false
is_field (some f) text = str_eq f text

unfoldable pub names_account : Str → ℕ → Str → Bool
names_account name uid line =
    is_field (field 0 (split b':' [] line)) name
    || is_field (field 2 (split b':' [] line)) (decimal uid)

unfoldable pub passwd_has : Str → Str → ℕ → Bool
unfolding names_account
passwd_has content name uid = any (names_account name uid) (lines content)

-- The prefix `{n}:x:{u}:`.
unfoldable pub prefix_of : Str × ℕ → Str
prefix_of (name, uid) = name ++ str ":x:" ++ decimal uid ++ str ":"

unfoldable pub ends_with_newline : Str → Bool
ends_with_newline [] = false
ends_with_newline (b ∷ []) = b == 10
ends_with_newline (b ∷ c ∷ bs) = ends_with_newline (c ∷ bs)

-- `String::pop`, of a byte that is a whole character.
unfoldable pub pop : Str → Str
pop [] = []
pop (b ∷ []) = []
pop (b ∷ c ∷ bs) = b ∷ pop (c ∷ bs)

unfoldable pub passwd_without : Str → List (Str × ℕ) → Str
unfolding prefix_of ends_with_newline pop
passwd_without content removed =
    let kept =
      unlines (
        retain (λ line. not (any (λ p. starts_with (prefix_of p) line) removed)) (lines content)) in
    if ends_with_newline content then kept else pop kept

-- An absolute name replaces the root.
unfoldable pub home_dir : Str → Str → Str
home_dir root name = join root name

-- How the file is appended to: in whole; not at all, since it cannot be opened or nothing is written;
-- or the write fails after some bytes.
pub data Append : Type 0 where
  whole : Append
  refused : Append
  cut_short : ℕ → Append

-- The answers of the file system: that the file can be read, how it is appended to, and that the home
-- can be set up.
pub record Disk : Type 0 where
  pub readable : Bool
  pub appending : Append
  pub home_made : Bool

unfoldable pub add_account :
    Disk → Str → ℕ → ℕ → Option Str → Accounts → Result (Option Str) Str × Accounts
unfolding passwd_entry
add_account disk name uid gid home a =
    let passwd_home : Str = elim home [ none ↦ str "/" | some h ↦ h ] in
    let entry = passwd_entry name uid gid passwd_home in
    elim disk.appending [
      | Append.whole ↦ (
        ok home,
        record {
          passwd = a.passwd ++ entry;
          ledger =
              a.ledger
              ++ record { name = name; uid = uid; home = if disk.home_made then home else none }
                ∷ [];
        },
      )
      | Append.refused ↦ (err (str "append"), a)
      | Append.cut_short n ↦ (err (str "append"), record a { passwd = a.passwd ++ take n entry })
    ]

unfoldable pub ensure_named :
    Str → Disk → DropTo → Str → Accounts → Result (Option Str) Str × Accounts
unfolding safe_to_name passwd_has home_dir add_account
ensure_named root disk d name a =
    let home = if d.create_home then some (home_dir root name) else none in
    if not (safe_to_name name d.uid)
    then (ok none, a)
    else if not disk.readable
    then (err (str "read"), a)
    else if passwd_has a.passwd name d.uid
    then (ok home, a)
    else add_account disk name d.uid d.gid home a

unfoldable pub ensure : Str → Disk → DropTo → Accounts → Result (Option Str) Str × Accounts
unfolding ensure_named
ensure root disk d a = elim d.name [
  | none ↦ (ok none, a)
  | some name ↦ ensure_named root disk d name a
]

abbrev pub pair_of : Created → Str × ℕ
pair_of c = (c.name, c.uid)

abbrev pub homes_of : List Created → List Str
homes_of [] = []
homes_of (c ∷ rest) = elim c.home [ none ↦ homes_of rest | some h ↦ h ∷ homes_of rest ]

-- `cleanup`: the state, and the homes that are removed. The argument tells whether the file can be
-- rewritten.
unfoldable pub cleanup : Bool → Accounts → Accounts × List Str
unfolding passwd_without
cleanup writable a = if is_empty a.ledger then (a, []) else (
  record {
    passwd = if writable then passwd_without a.passwd (map pair_of a.ledger) else a.passwd;
    ledger = [];
  },
  homes_of a.ledger,
)
