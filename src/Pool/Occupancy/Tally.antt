-- ===== src/Pool/Occupancy/Tally.antt =====
-- shiitake-server/src/pool/mod.rs: what the counts of the probes and of the profile list amount to.
use shiitake.Prelude.{
  ℕ, ◌+◌, ◌≡◌, refl, ◌∙◌, inl, inr, Bool, true, false, not, ◌&&◌, ◌||◌, Option, none, some, List,
  [], ◌∷◌, arith, if◌then◌else◌, Bool-cases, Option-cases, any, count, Str, str_eq, str_eq_iff,
  str_le, str_le-total,
}
use shiitake.Prelude.Map.{get, values, get-insert, IsUnique, insert-IsUnique}
use shiitake.Api.Public.{ProfileResponse, is_finished}
use shiitake.Pool.State.{WorkerEntry, WorkerLiveness, SessionRecord, PoolState}
use shiitake.Pool.Occupancy.{
  Counts, bump, count_live, count_idle, count_sessions, insert_sorted, sorted_profiles, profiles,
}

-- One table of counts after more was counted; `known` is whether anything was.
abbrev joined : Option (ℕ × ℕ) → Bool → ℕ → ℕ → Option (ℕ × ℕ)
joined none known i a = if known then some (i, a) else none
joined (some y) known i a = some (y.0 + i, y.1 + a)

get-bump :
    (n p : Str) (i a : ℕ) (c : Counts)
    → get n (bump p i a c) ≡ (if str_eq p n then joined (get n c) true i a else get n c)
unfolding bump
get-bump n p i a c = elim (Option-cases (get p c)) [
  | inl e ↦ ground (arith, get-insert p n (i, a) c, str_eq_iff p n)
  | inr (y, e) ↦ ground (arith, get-insert p n (y.0 + i, y.1 + a) c, str_eq_iff p n)
]

abbrev pub of_profile : Str → WorkerEntry → Bool
of_profile n w = str_eq w.profile n

abbrev pub allocates : Str → SessionRecord → Bool
allocates n r = not (is_finished r.state) && str_eq r.profile n

get-count_live :
    (n : Str) (ls : List WorkerLiveness) (c : Counts)
    → get n (count_live ls c) ≡ joined (get n c) (any (λ l. str_eq l.profile n) ls) 0 0
unfolding count_live
get-count_live n [] c = ground arith
get-count_live n (l ∷ ls) c =
    ground (arith, get-count_live n ls (bump l.profile 0 0 c), get-bump n l.profile 0 0 c)

get-count_idle :
    (n : Str) (ws : List WorkerEntry) (c : Counts)
    → get n (count_idle ws c) ≡ joined (get n c) (any (of_profile n) ws) (count (of_profile n) ws) 0
unfolding count_idle
get-count_idle n [] c = ground arith
get-count_idle n (w ∷ ws) c =
    ground (arith, get-count_idle n ws (bump w.profile 1 0 c), get-bump n w.profile 1 0 c)

get-count_sessions :
    (n : Str) (rs : List SessionRecord) (c : Counts)
    → get n (count_sessions rs c)
      ≡ joined (get n c) (any (allocates n) rs) 0 (count (allocates n) rs)
unfolding count_sessions
get-count_sessions n [] c = ground arith
get-count_sessions n (r ∷ rs) c = ground (
  arith,
  get-count_sessions n rs c,
  get-count_sessions n rs (bump r.profile 0 1 c),
  get-bump n r.profile 0 1 c,
)

bump-IsUnique : (p : Str) (i a : ℕ) (c : Counts) → IsUnique c → IsUnique (bump p i a c)
unfolding bump
bump-IsUnique p i a c u = elim (Option-cases (get p c)) [
  | inl e ↦ rw (e, bump) (insert-IsUnique p (i, a) c u)
  | inr (y, e) ↦ rw (e, bump) (insert-IsUnique p (y.0 + i, y.1 + a) c u)
]

count_live-IsUnique :
    (ls : List WorkerLiveness) (c : Counts) → IsUnique c → IsUnique (count_live ls c)
unfolding count_live
count_live-IsUnique [] c u = u
count_live-IsUnique (l ∷ ls) c u = count_live-IsUnique ls _ (bump-IsUnique l.profile 0 0 c u)

count_idle-IsUnique : (ws : List WorkerEntry) (c : Counts) → IsUnique c → IsUnique (count_idle ws c)
unfolding count_idle
count_idle-IsUnique [] c u = u
count_idle-IsUnique (w ∷ ws) c u = count_idle-IsUnique ws _ (bump-IsUnique w.profile 1 0 c u)

count_sessions-IsUnique :
    (rs : List SessionRecord) (c : Counts) → IsUnique c → IsUnique (count_sessions rs c)
unfolding count_sessions
count_sessions-IsUnique [] c u = u
count_sessions-IsUnique (r ∷ rs) c u = elim (Bool-cases (is_finished r.state)) [
  | inl e ↦ rw e (count_sessions-IsUnique rs c u)
  | inr e ↦ rw e (count_sessions-IsUnique rs _ (bump-IsUnique r.profile 0 1 c u))
]

get_nil : (n : Str) → get {V = ℕ × ℕ} n [] ≡ none
unfolding get
get_nil n = refl

-- What a list of profiles says of one name.
abbrev pub tally_of : Str → List ProfileResponse → Option (ℕ × ℕ)
tally_of n [] = none
tally_of n (p ∷ ps) =
    let rest = tally_of n ps in if str_eq p.name n then some (p.idle, p.allocated) else rest

tally_of-insert_sorted :
    (n : Str) (p : ProfileResponse) (ps : List ProfileResponse)
    → tally_of p.name ps ≡ none
    → tally_of n (insert_sorted p ps)
      ≡ (if str_eq p.name n then some (p.idle, p.allocated) else tally_of n ps)
unfolding insert_sorted
tally_of-insert_sorted n p [] h = refl
tally_of-insert_sorted n p (q ∷ qs) h = ground (
  arith,
  tally_of-insert_sorted n p qs,
  str_eq_iff p.name n,
  str_eq_iff q.name n,
  str_eq_iff q.name p.name,
)

tally_of-sorted_profiles :
    (n : Str) (c : Counts) → IsUnique c → tally_of n (sorted_profiles c) ≡ get n c
unfolding sorted_profiles get
tally_of-sorted_profiles n [] u = refl
tally_of-sorted_profiles n ((k, (i, a)) ∷ c) u =
    let absent : tally_of k (sorted_profiles c) ≡ none =
      tally_of-sorted_profiles k c u.1 ∙ ground (arith, u.0) in
    ground (
      arith,
      tally_of-insert_sorted n (record { name = k; idle = i; allocated = a }) (sorted_profiles c)
          absent,
      tally_of-sorted_profiles n c u.1,
    )

-- Names in order, each once or more.
abbrev pub IsOrdered : List ProfileResponse → Type 0
IsOrdered [] = Unit
IsOrdered (p ∷ []) = Unit
IsOrdered (p ∷ q ∷ l) = (str_le p.name q.name ≡ true) × IsOrdered (q ∷ l)

insert_sorted-IsOrdered :
    (p : ProfileResponse) (l : List ProfileResponse) → IsOrdered l → IsOrdered (insert_sorted p l)
unfolding insert_sorted
insert_sorted-IsOrdered p [] h = tt
insert_sorted-IsOrdered p (q ∷ []) h = elim (Bool-cases (str_le p.name q.name)) [
  | inl e ↦ rw e (e, tt)
  | inr e ↦ rw e (str_le-total p.name q.name e, tt)
]
insert_sorted-IsOrdered p (q ∷ r ∷ l) h =
    ground (arith, insert_sorted-IsOrdered p (r ∷ l) h.1, str_le-total p.name q.name)

sorted_profiles-IsOrdered : (c : Counts) → IsOrdered (sorted_profiles c)
unfolding sorted_profiles
sorted_profiles-IsOrdered [] = tt
sorted_profiles-IsOrdered ((k, (i, a)) ∷ c) =
    insert_sorted-IsOrdered (record { name = k; idle = i; allocated = a }) (sorted_profiles c)
      (sorted_profiles-IsOrdered c)

count-none {ℓ} : {A : Type ℓ} (p : A → Bool) (xs : List A) → any p xs ≡ false → count p xs ≡ 0
count-none p [] h = refl
count-none p (x ∷ xs) h = ground (arith, count-none p xs)

-- A profile of the pool: of a connected worker, an idle one, or a session that is not finished.
abbrev pub is_known : PoolState → Str → Bool
is_known s n =
    any (λ l. str_eq l.profile n) (values s.liveness)
    || any (of_profile n) s.idle
    || any (allocates n) (values s.sessions)

-- The list of profiles is ordered by name and names exactly the profiles of connected workers, idle workers and
-- unfinished sessions, each with the number of its idle workers and of its unfinished sessions.
pub profiles_exact :
    (s : PoolState)
    → IsOrdered (profiles s)
      × ((n : Str)
          → tally_of n (profiles s) ≡ (
              if is_known s n
              then some (count (of_profile n) s.idle, count (allocates n) (values s.sessions))
              else none))
unfolding profiles
profiles_exact s =
    let live : Counts = count_live (values s.liveness) [] in
    let idle : Counts = count_idle s.idle live in
    let u : IsUnique live = count_live-IsUnique (values s.liveness) [] tt in
    (
      sorted_profiles-IsOrdered (count_sessions (values s.sessions) idle),
      λ n.
          tally_of-sorted_profiles n (count_sessions (values s.sessions) idle)
            (count_sessions-IsUnique (values s.sessions) idle (count_idle-IsUnique s.idle live u))
          ∙ get-count_sessions n (values s.sessions) idle
          ∙ ground (
            arith,
            get-count_idle n s.idle live,
            get-count_live n (values s.liveness) [],
            get_nil n,
            count-none (of_profile n) s.idle,
            count-none (allocates n) (values s.sessions),
          ),
    )
