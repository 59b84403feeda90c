-- ===== src/Pool/Keepalive.antt =====
-- shiitake-server/src/pool/mod.rs: one round of `run_keepalive`.
use shiitake.Prelude.{
  ℕ, Bool, none, some, List, [], ◌∷◌, ◌++◌, map, ltb, if◌then◌else◌, any, str_eq,
}
use shiitake.Prelude.Map.{Map, get, values}
use shiitake.Api.Wire.{WorkerId, SessionId}
use shiitake.Pool.State.{Time, Sink, Channel, duration_since, PoolState, Effect}

-- The sessions' workers, each with the session's sink.
unfoldable pub session_workers : PoolState → Map SessionId → List (WorkerId × Sink)
session_workers s [] = []
session_workers s ((worker, id) ∷ m) = elim (get id s.sessions) [
  | none ↦ session_workers s m
  | some r ↦ (worker, r.sink) ∷ session_workers s m
]

-- Idle workers, workers with a command, workers of sessions, in this order.
unfoldable pub candidates : PoolState → List (WorkerId × Sink)
unfolding session_workers
candidates s =
    map (λ w. (w.worker_id, w.sink)) s.idle
    ++ (map (λ p. (p.worker_id, p.sink)) (values s.inflight) ++ session_workers s s.worker_sessions)

-- `filter(|(id, _)| seen.insert(id))`
unfoldable pub first_seen : List WorkerId → List (WorkerId × Sink) → List (WorkerId × Sink)
first_seen seen [] = []
first_seen seen ((worker, sink) ∷ ws) =
    let again = first_seen seen ws in
    let rest = first_seen (worker ∷ seen) ws in
    if any (str_eq worker) seen then again else (worker, sink) ∷ rest

pub record Target : Type 0 where
  pub worker_id : WorkerId
  pub sink : Sink
  pub last_seen : Time
  pub shutdown : Channel

unfoldable pub targets_of : PoolState → List (WorkerId × Sink) → List Target
targets_of s [] = []
targets_of s ((worker, sink) ∷ ws) =
    let rest = targets_of s ws in
    elim (get worker s.liveness) [
      | none ↦ rest
      | some l ↦
          record { worker_id = worker; sink = sink; last_seen = l.last_seen; shutdown = l.shutdown }
          ∷ rest
    ]

unfoldable pub targets : PoolState → List Target
unfolding targets_of first_seen candidates
targets s = targets_of s (first_seen [] (candidates s))

-- `answered` is whether the ping to a sink was sent in time.
unfoldable pub probe_target : Time → ℕ → (Sink → Bool) → Target → List Effect
probe_target now timeout answered t =
    if ltb timeout (duration_since now t.last_seen)
    then Effect.evict t.shutdown ∷ []
    else Effect.ping t.sink ∷ (if answered t.sink then [] else Effect.evict t.shutdown ∷ [])

unfoldable pub probe_all : Time → ℕ → (Sink → Bool) → List Target → List Effect
unfolding probe_target
probe_all now timeout answered [] = []
probe_all now timeout answered (t ∷ ts) =
    probe_target now timeout answered t ++ probe_all now timeout answered ts

unfoldable pub keepalive_round : PoolState → Time → ℕ → (Sink → Bool) → List Effect
unfolding probe_all targets
keepalive_round s now timeout answered = probe_all now timeout answered (targets s)
