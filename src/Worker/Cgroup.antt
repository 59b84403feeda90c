-- ===== src/Worker/Cgroup.antt =====
-- shiitake-worker/src/cgroup.rs: the readings of cgroup files. A file is its content, or none where it
-- cannot be read.
use shiitake.Prelude.{ℕ, Option, none, some, List, [], ◌∷◌, ◌==◌, if◌then◌else◌, Str, str, str_eq}
use shiitake.Prelude.Strings.{strip_prefix, trim, lines, parse_unsigned}

abbrev pub u64_bound : ℕ
u64_bound = 18_446_744_073_709_551_616

pub record CpuTimes : Type 0 where
  pub user_usec : ℕ
  pub system_usec : ℕ

unfoldable pub parse_field : Str → Option ℕ
parse_field raw = parse_unsigned u64_bound raw

unfoldable pub field_in : List Str → Str → Option ℕ
unfolding parse_field
field_in [] key = none
field_in (line ∷ rest) key =
    let later = field_in rest key in
    elim (strip_prefix key line) [
      | none ↦ later
      | some value ↦ elim (strip_prefix (str " ") value) [
        | none ↦ later
        | some v ↦ parse_field (trim v)
      ]
    ]

unfoldable pub field_from : Str → Str → Option ℕ
unfolding field_in
field_from content key = field_in (lines content) key

unfoldable pub read_memory_peak : Option Str → Option ℕ
unfolding parse_field
read_memory_peak none = none
read_memory_peak (some raw) = parse_field (trim raw)

unfoldable pub read_limit_from : Option Str → Option ℕ
unfolding parse_field
read_limit_from none = none
read_limit_from (some raw) =
    if str_eq (trim raw) (str "max")
    then none
    else elim (parse_field (trim raw)) [ none ↦ none | some v ↦ if v == 0 then none else some v ]

-- The files of the second and of the first version of cgroups, in this order.
unfoldable pub read_memory_limit : Option Str → Option Str → Option ℕ
unfolding read_limit_from
read_memory_limit v2 v1 = elim (read_limit_from v2) [ some v ↦ some v | none ↦ read_limit_from v1 ]

unfoldable pub read_cpu_times_from : Option Str → Option CpuTimes
unfolding field_from
read_cpu_times_from none = none
read_cpu_times_from (some content) = elim (field_from content (str "user_usec")) [
  | none ↦ none
  | some user ↦ elim (field_from content (str "system_usec")) [
    | none ↦ none
    | some system ↦ some (record { user_usec = user; system_usec = system })
  ]
]
