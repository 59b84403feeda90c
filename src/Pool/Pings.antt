-- ===== src/Pool/Pings.antt =====
-- Which workers one round of the keepalive reaches.
use shiitake.Prelude.{
  ◌≡◌, refl, Bool, false, not, ◌&&◌, ◌||◌, List, [], ◌∷◌, ◌++◌, map, arith, any, str_eq, str_eq_iff,
  str_eq_refl,
}
use shiitake.Prelude.Map.{Map, contains_key, values}
use shiitake.Api.Wire.{WorkerId, SessionId}
use shiitake.Pool.State.{Sink, WorkerEntry, PoolState, PendingEntry}
use shiitake.Pool.Keepalive.{Target, candidates, first_seen, session_workers, targets_of, targets}

abbrev pub among : WorkerId → List WorkerId → Bool
among worker ws = any (str_eq worker) ws

abbrev pub IsDistinct : List WorkerId → Type 0
IsDistinct [] = Unit
IsDistinct (w ∷ ws) = (among w ws ≡ false) × IsDistinct ws

abbrev ids : List (WorkerId × Sink) → List WorkerId
ids = map λ e. e.0

abbrev pub target_ids : List Target → List WorkerId
target_ids = map λ t. t.worker_id

-- What `first_seen` keeps: each worker not seen before, once.
among-first_seen :
    (worker : WorkerId) (seen : List WorkerId) (ws : List (WorkerId × Sink))
    → among worker (ids (first_seen seen ws)) ≡ (among worker (ids ws) && not (among worker seen))
unfolding first_seen
among-first_seen worker seen [] = refl
among-first_seen worker seen ((w, sink) ∷ ws) = ground (
  arith,
  among-first_seen worker seen ws,
  among-first_seen worker (w ∷ seen) ws,
  str_eq_iff worker w,
)

first_seen-IsDistinct :
    (seen : List WorkerId) (ws : List (WorkerId × Sink)) → IsDistinct (ids (first_seen seen ws))
unfolding first_seen
first_seen-IsDistinct seen [] = tt
first_seen-IsDistinct seen ((w, sink) ∷ ws) = ground (
  arith,
  first_seen-IsDistinct seen ws,
  first_seen-IsDistinct (w ∷ seen) ws,
  among-first_seen w (w ∷ seen) ws,
  str_eq_refl w,
)

among-targets_of :
    (s : PoolState) (worker : WorkerId) (ws : List (WorkerId × Sink))
    → among worker (target_ids (targets_of s ws))
      ≡ (among worker (ids ws) && contains_key worker s.liveness)
unfolding targets_of
among-targets_of s worker [] = refl
among-targets_of s worker ((w, sink) ∷ ws) =
    ground (arith, among-targets_of s worker ws, str_eq_iff worker w)

targets_of-IsDistinct :
    (s : PoolState) (ws : List (WorkerId × Sink))
    → IsDistinct (ids ws)
    → IsDistinct (target_ids (targets_of s ws))
unfolding targets_of
targets_of-IsDistinct s [] h = tt
targets_of-IsDistinct s ((w, sink) ∷ ws) h =
    ground (arith, targets_of-IsDistinct s ws h.1, among-targets_of s w ws)

-- The worker is idle, has a command in flight, or holds a session that the pool knows.
abbrev pub in_use : PoolState → WorkerId → Bool
in_use s worker =
    any (λ w. str_eq worker w.worker_id) s.idle
    || any (λ e. str_eq worker e.1.worker_id) s.inflight
    || any (λ e. str_eq worker e.0 && contains_key e.1 s.sessions) s.worker_sessions

among-append :
    (worker : WorkerId) (xs ys : List (WorkerId × Sink))
    → among worker (ids (xs ++ ys)) ≡ (among worker (ids xs) || among worker (ids ys))
among-append worker [] ys = refl
among-append worker (x ∷ xs) ys = ground (arith, among-append worker xs ys)

among-idle :
    (worker : WorkerId) (ws : List WorkerEntry)
    → among worker (ids (map (λ w. (w.worker_id, w.sink)) ws))
      ≡ any (λ w. str_eq worker w.worker_id) ws
among-idle worker [] = refl
among-idle worker (w ∷ ws) = ground (arith, among-idle worker ws)

among-inflight :
    (worker : WorkerId) (m : Map PendingEntry)
    → among worker (ids (map (λ p. (p.worker_id, p.sink)) (values m)))
      ≡ any (λ e. str_eq worker e.1.worker_id) m
among-inflight worker [] = refl
among-inflight worker (e ∷ m) = ground (arith, among-inflight worker m)

among-session_workers :
    (s : PoolState) (worker : WorkerId) (m : Map SessionId)
    → among worker (ids (session_workers s m))
      ≡ any (λ e. str_eq worker e.0 && contains_key e.1 s.sessions) m
unfolding session_workers
among-session_workers s worker [] = refl
among-session_workers s worker ((w, id) ∷ m) = ground (arith, among-session_workers s worker m)

-- One round of the keepalive considers no worker twice, and a worker exactly if it is connected and is
-- idle, has a command in flight or holds a known session. (A worker pinned to a `/pty` terminal alone is
-- in none of these.)
pub targets_exact :
    (s : PoolState)
    → IsDistinct (target_ids (targets s))
      × ((worker : WorkerId)
          → among worker (target_ids (targets s))
            ≡ (in_use s worker && contains_key worker s.liveness))
unfolding targets candidates
targets_exact s = (
  targets_of-IsDistinct s _ (first_seen-IsDistinct [] (candidates s)),
  λ worker. ground (
    arith,
    among-targets_of s worker (first_seen [] (candidates s)),
    among-first_seen worker [] (candidates s),
    among-append worker (map (λ w. (w.worker_id, w.sink)) s.idle) (
        map (λ p. (p.worker_id, p.sink)) (values s.inflight)
        ++ session_workers s s.worker_sessions),
    among-append worker (map (λ p. (p.worker_id, p.sink)) (values s.inflight))
        (session_workers s s.worker_sessions),
    among-idle worker s.idle,
    among-inflight worker s.inflight,
    among-session_workers s worker s.worker_sessions,
  ),
)
