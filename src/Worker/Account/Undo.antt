-- ===== src/Worker/Account/Undo.antt =====
-- account.rs: a cleanup takes back what was made.
use mathlib.Core.List.{append-nil, append_assoc}
use shiitake.Prelude.{
  ℕ, suc, ◌≡◌, refl, sym, ap, ◌∙◌, ◌⊎◌, inl, inr, Bool, true, false, not, ◌&&◌, Option, none, some,
  List, [], ◌∷◌, ◌++◌, arith, leb, if◌then◌else◌, ==_iff, Bool-cases, Option-cases, length, drop,
  is_empty, any, retain, All, All-append, Str, str, str_eq_refl,
}
use shiitake.Prelude.Strings.{starts_with, strip_cr, unlines, decimal}
use shiitake.Prelude.Strings.Laws.{
  lacks, IsLine, lines-unlines, unlines-append, split-word, lacks-decimal_from,
}
use shiitake.Api.Wire.{DropTo}
use shiitake.Api.Capture.{join_cases}
use shiitake.Worker.Account.{
  Accounts, corrupts, safe_to_name, passwd_entry, names_account, passwd_has, prefix_of,
  ends_with_newline, passwd_without, home_dir, Append, Disk, add_account, ensure_named, ensure,
  cleanup,
}

lacks-append : (b : ℕ) (x y : Str) → lacks b x ≡ true → lacks b y ≡ true → lacks b (x ++ y) ≡ true
lacks-append b [] y hx hy = hy
lacks-append b (c ∷ x) y hx hy = ground (arith, lacks-append b x y)

safe_lacks :
    (name : Str) → corrupts name ≡ false → (lacks 10 name ≡ true) × (lacks b':' name ≡ true)
unfolding corrupts
safe_lacks [] h = (refl, refl)
safe_lacks (b ∷ name) h = ground (arith, safe_lacks name)

lacks-decimal : (b n : ℕ) → (leb 48 b && leb b 57) ≡ false → lacks b (decimal n) ≡ true
unfolding decimal
lacks-decimal b n h = lacks-decimal_from b (suc n) n [] h refl

-- The entry without its end.
abbrev entry_line : Str → ℕ → ℕ → Str → Str
entry_line name uid gid home =
    prefix_of (name, uid) ++ decimal gid ++ str ":shiitake session:" ++ home ++ str ":/bin/bash"

passwd_entry_lem :
    (name : Str) (uid gid : ℕ) (home : Str)
    → passwd_entry name uid gid home ≡ unlines (entry_line name uid gid home ∷ [])
unfolding passwd_entry prefix_of unlines
passwd_entry_lem name uid gid home = simp append_assoc

starts_with-prefix : (p rest : Str) → starts_with p (p ++ rest) ≡ true
unfolding starts_with
starts_with-prefix [] rest = refl
starts_with-prefix (b ∷ p) rest = ground (arith, starts_with-prefix p rest)

starts_with_rest : (p line : Str) → starts_with p line ≡ true → p ++ drop (length p) line ≡ line
unfolding starts_with
starts_with_rest [] line h = refl
starts_with_rest (a ∷ p) [] h = cc
starts_with_rest (a ∷ p) (b ∷ line) h = ground (arith, starts_with_rest p line, ==_iff a b)

prefix_shape :
    (name : Str) (uid : ℕ) (rest : Str)
    → prefix_of (name, uid) ++ rest ≡ name ++ b':' ∷ 120 ∷ b':' ∷ (decimal uid ++ b':' ∷ rest)
unfolding prefix_of
prefix_shape name uid rest = simp append_assoc

-- A line with an entry's prefix names that entry's account.
prefixed_names :
    (name : Str) (uid : ℕ) (line : Str)
    → lacks b':' name ≡ true
    → starts_with (prefix_of (name, uid)) line ≡ true
    → names_account name uid line ≡ true
unfolding names_account
prefixed_names name uid line clean h =
    let rest = drop (length (prefix_of (name, uid))) line in
    let shape =
      sym (starts_with_rest (prefix_of (name, uid)) line h) ∙ prefix_shape name uid rest in
    let first = split-word b':' [] name (120 ∷ b':' ∷ decimal uid ++ b':' ∷ rest) clean in
    rw shape (rw first (ground (arith, str_eq_refl name)))

strip_cr-append : (x y : Str) → is_empty y ≡ false → strip_cr (x ++ y) ≡ x ++ strip_cr y
unfolding strip_cr
strip_cr-append [] y h = refl
strip_cr-append (b ∷ []) [] h = cc
strip_cr-append (b ∷ []) (c ∷ y) h = refl
strip_cr-append (b ∷ c ∷ x) y h = ap (◌∷◌ b) (strip_cr-append (c ∷ x) y h)

ends_with_newline_lem : (x : Str) → ends_with_newline (x ++ 10 ∷ []) ≡ true
unfolding ends_with_newline
ends_with_newline_lem [] = refl
ends_with_newline_lem (b ∷ []) = refl
ends_with_newline_lem (b ∷ c ∷ x) = ends_with_newline_lem (c ∷ x)

-- The lines that a cleanup keeps: all that stood there before.
abbrev keeps : Str → ℕ → Str → Bool
keeps name uid line = not (any (λ p. starts_with (prefix_of p) line) ((name, uid) ∷ []))

retain-keeps :
    (name : Str) (uid : ℕ) (ls : List Str)
    → lacks b':' name ≡ true
    → any (names_account name uid) ls ≡ false
    → retain (keeps name uid) ls ≡ ls
retain-keeps name uid [] clean h = refl
retain-keeps name uid (line ∷ ls) clean h =
    ground (arith, prefixed_names name uid line clean, retain-keeps name uid ls clean)

retain-append {ℓ} :
    {A : Type ℓ} (p : A → Bool) (xs ys : List A) → retain p (xs ++ ys) ≡ retain p xs ++ retain p ys
retain-append p [] ys = refl
retain-append p (x ∷ xs) ys = ground (arith, retain-append p xs ys)

entry_line-IsLine :
    (name : Str) (uid gid : ℕ) (home : Str)
    → lacks 10 name ≡ true
    → lacks 10 home ≡ true
    → IsLine (entry_line name uid gid home)
unfolding prefix_of strip_cr
entry_line-IsLine name uid gid home hn hh =
    let named = lacks-append 10 name (str ":x:") hn refl in
    let owned =
      lacks-append 10 (name ++ str ":x:") (decimal uid) named (lacks-decimal 10 uid refl) in
    let prefixed = lacks-append 10 (name ++ str ":x:" ++ decimal uid) (str ":") owned refl in
    let grouped =
      lacks-append 10 (prefix_of (name, uid)) (decimal gid) prefixed (lacks-decimal 10 gid refl) in
    let titled =
      lacks-append 10 (prefix_of (name, uid) ++ decimal gid) (str ":shiitake session:") grouped
        refl in
    let homed =
      lacks-append 10 (prefix_of (name, uid) ++ decimal gid ++ str ":shiitake session:") home titled
        hh in
    let before = prefix_of (name, uid) ++ decimal gid ++ str ":shiitake session:" ++ home in
    (
      lacks-append 10 before (str ":/bin/bash") homed refl,
      strip_cr-append before (str ":/bin/bash") refl,
    )

entry_line_starts :
    (name : Str) (uid gid : ℕ) (home : Str)
    → starts_with (prefix_of (name, uid)) (entry_line name uid gid home) ≡ true
entry_line_starts name uid gid home =
    let rest = decimal gid ++ (str ":shiitake session:" ++ (home ++ str ":/bin/bash")) in
    let shape : entry_line name uid gid home ≡ prefix_of (name, uid) ++ rest = simp append_assoc in
    rw shape (starts_with-prefix (prefix_of (name, uid)) rest)

-- Taking an entry back.
passwd_without-entry :
    (name : Str) (uid gid : ℕ) (home : Str) (ls : List Str)
    → safe_to_name name uid ≡ true
    → lacks 10 home ≡ true
    → All IsLine ls
    → passwd_has (unlines ls) name uid ≡ false
    → passwd_without (unlines ls ++ passwd_entry name uid gid home) ((name, uid) ∷ []) ≡ unlines ls
unfolding safe_to_name passwd_has passwd_without unlines
passwd_without-entry name uid gid home ls safe hh hl has =
    let clean = safe_lacks name (ground arith) in
    let line = entry_line name uid gid home in
    let named : any (names_account name uid) ls ≡ false = rw (lines-unlines ls hl) at has in
    let listed =
      lines-unlines (ls ++ line ∷ []) (
        All-append IsLine ls (line ∷ []) hl (entry_line-IsLine name uid gid home clean.0 hh, tt)) in
    let dropped : keeps name uid line ≡ false =
      ground (arith, entry_line_starts name uid gid home) in
    let kept : retain (keeps name uid) (ls ++ line ∷ []) ≡ ls =
      rw
        (
          retain-append (keeps name uid) ls (line ∷ []),
          retain-keeps name uid ls clean.1 named,
          dropped,
          if◌then◌else◌,
        )
        (append-nil ls) in
    let whole : unlines ls ++ passwd_entry name uid gid home ≡ unlines (ls ++ line ∷ []) =
      rw (passwd_entry_lem name uid gid home) (sym (unlines-append ls (line ∷ []))) in
    let ended : ends_with_newline (unlines (ls ++ line ∷ [])) ≡ true =
      rw (unlines-append ls (line ∷ []), ← append_assoc (unlines ls) line (10 ∷ []))
        (ends_with_newline_lem (unlines ls ++ line)) in
    rw (whole, ended, if◌then◌else◌, listed, kept) refl

home_dir-lacks :
    (root name : Str)
    → lacks 10 root ≡ true
    → lacks 10 name ≡ true
    → lacks 10 (home_dir root name) ≡ true
unfolding home_dir
home_dir-lacks root name hr hn = elim (join_cases root name) [
  | inl e ↦ rw e hn
  | inr (inl e) ↦ rw e (lacks-append 10 root name hr hn)
  | inr (inr e) ↦ rw e (lacks-append 10 root (b'/' ∷ name) hr hn)
]

-- Nothing was made before.
abbrev untouched : List Str → Accounts
untouched ls = record { passwd = unlines ls; ledger = [] }

abbrev passwd_home : Option Str → Str
passwd_home none = str "/"
passwd_home (some home) = home

passwd_home-lacks :
    (root name : Str) (create_home : Bool)
    → lacks 10 root ≡ true
    → lacks 10 name ≡ true
    → lacks 10 (passwd_home (if create_home then some (home_dir root name) else none)) ≡ true
passwd_home-lacks root name true hr hn = home_dir-lacks root name hr hn
passwd_home-lacks root name false hr hn = refl

-- No write stops midway.
abbrev is_uncut : Append → Bool
is_uncut Append.whole = true
is_uncut Append.refused = true
is_uncut (Append.cut_short n) = false

Append-cases : (a : Append) → is_uncut a ≡ true → (a ≡ Append.whole) ⊎ (a ≡ Append.refused)
Append-cases Append.whole h = inl refl
Append-cases Append.refused h = inr refl
Append-cases (Append.cut_short n) h = cc

add_account-cleanup :
    (disk : Disk) (name : Str) (uid gid : ℕ) (home : Option Str) (ls : List Str)
    → is_uncut disk.appending ≡ true
    → safe_to_name name uid ≡ true
    → lacks 10 (passwd_home home) ≡ true
    → All IsLine ls
    → passwd_has (unlines ls) name uid ≡ false
    → (cleanup true (add_account disk name uid gid home (untouched ls)).1).0 ≡ untouched ls
unfolding cleanup add_account
add_account-cleanup disk name uid gid home ls uncut safe hh hl has =
    elim (Append-cases disk.appending uncut) [
      | inr e ↦ rw e refl
      | inl e ↦
          let undone = passwd_without-entry name uid gid (passwd_home home) ls safe hh hl has in
          rw e (rw undone refl)
    ]

safe_name_lacks : (name : Str) (uid : ℕ) → safe_to_name name uid ≡ true → lacks 10 name ≡ true
unfolding safe_to_name
safe_name_lacks name uid safe = ground (arith, safe_lacks name)

empty_cleanup : (ls : List Str) → (cleanup true (untouched ls)).0 ≡ untouched ls
unfolding cleanup
empty_cleanup ls = refl

named_undone :
    (root : Str) (disk : Disk) (d : DropTo) (name : Str) (ls : List Str)
    → is_uncut disk.appending ≡ true
    → lacks 10 root ≡ true
    → All IsLine ls
    → (cleanup true (ensure_named root disk d name (untouched ls)).1).0 ≡ untouched ls
unfolding ensure_named
named_undone root disk d name ls uncut hr hl = elim (Bool-cases (safe_to_name name d.uid)) [
  | inr e ↦ rw (e, if◌then◌else◌) (empty_cleanup ls)
  | inl safe ↦ elim (Bool-cases disk.readable) [
    | inr e ↦ rw (safe, e, if◌then◌else◌) (empty_cleanup ls)
    | inl readable ↦ elim (Bool-cases (passwd_has (unlines ls) name d.uid)) [
      | inl e ↦ rw (safe, readable, e, if◌then◌else◌) (empty_cleanup ls)
      | inr missing ↦
          rw (safe, readable, missing, if◌then◌else◌)
            (add_account-cleanup disk name d.uid d.gid
              (if d.create_home then some (home_dir root name) else none) ls uncut safe
              (passwd_home-lacks root name d.create_home hr (safe_name_lacks name d.uid safe)) hl
              missing)
    ]
  ]
]

-- Where nothing was made before, a cleanup after the naming of an account leaves the file as it was and
-- the ledger empty, whatever was found on the way and whether the reading, the opening or the home
-- failed: where no write stops midway, the file's lines are whole, none ends in a carriage return, the
-- home's root has no line end in it, and the file can be rewritten.
pub cleanup-ensure :
    (root : Str) (disk : Disk) (d : DropTo) (ls : List Str)
    → is_uncut disk.appending ≡ true
    → lacks 10 root ≡ true
    → All IsLine ls
    → (cleanup true (ensure root disk d (untouched ls)).1).0 ≡ untouched ls
unfolding ensure ensure_named
cleanup-ensure root disk d ls uncut hr hl = elim (Option-cases d.name) [
  | inl e ↦ rw (e, ensure) (empty_cleanup ls)
  | inr (name, e) ↦ rw (e, ensure) (named_undone root disk d name ls uncut hr hl)
]
