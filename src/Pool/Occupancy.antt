-- ===== src/Pool/Occupancy.antt =====
-- shiitake-server/src/pool/mod.rs: what the probes and the profile list count.
pub mod Tally
pub mod Busy
use shiitake.Prelude.{
  ℕ, ◌+◌, none, some, List, [], ◌∷◌, map, if◌then◌else◌, length, any, Str, str_eq, str_le,
}
use shiitake.Prelude.Map.{Map, get, insert, values, keys}
use shiitake.Api.Wire.{WorkerId}
use shiitake.Api.Public.{ProfileResponse, is_finished}
use shiitake.Pool.State.{WorkerEntry, WorkerLiveness, SessionRecord, PoolState}

-- A `HashSet`, as a list without duplicates.
unfoldable pub insert_all : List Str → List Str → List Str
insert_all [] set = set
insert_all (k ∷ ks) set = insert_all ks (if any (str_eq k) set then set else k ∷ set)

pub busy : PoolState → List WorkerId
unfolding insert_all
busy s = insert_all (keys s.pty_sessions) (
    insert_all (keys s.worker_sessions)
      (insert_all (map (λ p. p.worker_id) (values s.inflight)) []))

-- (idle, in flight)
unfoldable pub snapshot : PoolState → ℕ × ℕ
unfolding busy
snapshot s = (length s.idle, length (busy s))

unfoldable pub interactive_count : PoolState → ℕ
interactive_count s = length s.pty_sessions

unfoldable pub session_count : PoolState → ℕ
session_count s = length s.worker_sessions

-- The table of (idle, allocated) by profile; `*counts.entry(p).or_default() += …`
abbrev pub Counts : Type 0
Counts = Map (ℕ × ℕ)

pub bump : Str → ℕ → ℕ → Counts → Counts
bump p i a c = elim (get p c) [ none ↦ insert p (i, a) c | some n ↦ insert p (n.0 + i, n.1 + a) c ]

pub count_live : List WorkerLiveness → Counts → Counts
unfolding bump
count_live [] c = c
count_live (l ∷ ls) c = count_live ls (bump l.profile 0 0 c)

pub count_idle : List WorkerEntry → Counts → Counts
unfolding bump
count_idle [] c = c
count_idle (w ∷ ws) c = count_idle ws (bump w.profile 1 0 c)

pub count_sessions : List SessionRecord → Counts → Counts
unfolding bump
count_sessions [] c = c
count_sessions (r ∷ rs) c =
    count_sessions rs (if is_finished r.state then c else bump r.profile 0 1 c)

pub insert_sorted : ProfileResponse → List ProfileResponse → List ProfileResponse
unfolding str_le
insert_sorted p [] = p ∷ []
insert_sorted p (q ∷ qs) = if str_le p.name q.name then p ∷ q ∷ qs else q ∷ insert_sorted p qs

pub sorted_profiles : Counts → List ProfileResponse
unfolding insert_sorted
sorted_profiles [] = []
sorted_profiles ((name, (i, a)) ∷ c) =
    insert_sorted (record { name = name; idle = i; allocated = a }) (sorted_profiles c)

unfoldable pub profiles : PoolState → List ProfileResponse
unfolding count_live count_idle count_sessions sorted_profiles
profiles s =
    sorted_profiles
      (count_sessions (values s.sessions) (count_idle s.idle (count_live (values s.liveness) [])))
