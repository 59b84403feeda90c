-- ===== src/Worker/Stateful/Snapshot.antt =====
-- client.rs: the environment that the shell prints and the session reads.
use mathlib.Core.List.{append-nil, append_assoc}
use shiitake.Prelude.{
  ◌≡◌, refl, sym, ap, ◌∙◌, true, false, some, [], ◌∷◌, ◌++◌, arith, if◌then◌else◌, is_empty, All,
  Str, str_eq_iff, str_eq_refl, ok,
}
use shiitake.Prelude.Map.{Map, get, contains_key, insert, IsUnique}
use shiitake.Prelude.Strings.{split}
use shiitake.Prelude.Strings.Laws.{lacks, split-word}
use shiitake.Api.Utf8.{is_utf8}
use shiitake.Worker.Stateful.{split_once, read_entries, read_shell_state, print_env}

abbrev text_of : Str → Str → Str
text_of name value = name ++ b'=' ∷ value

-- An entry that an environment can hold, in UTF-8.
abbrev IsEntry : Str × Str → Type 0
IsEntry (name, value) =
    (lacks b'=' name ≡ true)
    × (lacks 0 (text_of name value) ≡ true)
    × (is_utf8 (text_of name value) ≡ true)

split_once-text_of :
    (name value : Str)
    → lacks b'=' name ≡ true
    → split_once b'=' (text_of name value) ≡ some (name, value)
unfolding split_once
split_once-text_of [] value h = refl
split_once-text_of (b ∷ name) value h = ground (arith, split_once-text_of name value)

is_empty-text_of : (name value : Str) → is_empty (text_of name value) ≡ false
is_empty-text_of [] value = refl
is_empty-text_of (b ∷ name) value = refl

insert-absent :
    (name value : Str) (env : Map Str)
    → contains_key name env ≡ false
    → insert name value env ≡ env ++ (name, value) ∷ []
unfolding insert get
insert-absent name value [] h = refl
insert-absent name value ((k, v) ∷ env) h = ground (arith, insert-absent name value env)

contains_key-among :
    (env : Map Str) (name value : Str) (rest : Map Str)
    → contains_key name (env ++ (name, value) ∷ rest) ≡ true
unfolding get
contains_key-among [] name value rest = ground (arith, str_eq_refl name)
contains_key-among ((k, v) ∷ env) name value rest =
    ground (arith, contains_key-among env name value rest)

IsUnique-absent :
    (env : Map Str) (name value : Str) (rest : Map Str)
    → IsUnique (env ++ (name, value) ∷ rest)
    → contains_key name env ≡ false
unfolding get
IsUnique-absent [] name value rest h = refl
IsUnique-absent ((k, v) ∷ env) name value rest h = ground (
  arith,
  IsUnique-absent env name value rest h.1,
  contains_key-among env name value rest,
  str_eq_iff k name,
)

read_entries-print_env :
    (env m : Map Str)
    → All IsEntry m
    → IsUnique (env ++ m)
    → read_entries env (split 0 [] (print_env m)) ≡ ok (env ++ m)
unfolding read_entries print_env split
read_entries-print_env env [] h u = ap ok (sym (append-nil env))
read_entries-print_env env ((name, value) ∷ m) h u =
    let (named, whole, utf8) = h.0 in
    let entry = text_of name value in
    let env' = env ++ (name, value) ∷ [] in
    let piece : split 0 [] (print_env ((name, value) ∷ m)) ≡ entry ∷ split 0 [] (print_env m) =
      ap (split 0 []) (sym (append_assoc name (b'=' ∷ value) (0 ∷ print_env m)))
      ∙ split-word 0 [] entry (print_env m) whole in
    let ih : read_entries env' (split 0 [] (print_env m)) ≡ ok (env ++ (name, value) ∷ m) =
      read_entries-print_env env' m h.1 (rw (append_assoc env ((name, value) ∷ []) m) u)
      ∙ ap ok (append_assoc env ((name, value) ∷ []) m) in
    ap (read_entries env) piece
    ∙ rw
        (
          is_empty-text_of name value,
          utf8,
          split_once-text_of name value named,
          insert-absent name value env (IsUnique-absent env name value m u),
          if◌then◌else◌,
        )
        ih

-- The session reads back the environment that the shell prints: where each name stands once and has no
-- equals sign, no entry has a zero byte, and all are UTF-8.
pub read_shell_state-print_env :
    (dir : Str) (m : Map Str)
    → All IsEntry m
    → IsUnique m
    → read_shell_state (ok dir) (ok (print_env m)) ≡ ok (dir, m)
unfolding read_shell_state
read_shell_state-print_env dir m h u = rw (read_entries-print_env [] m h u) refl
