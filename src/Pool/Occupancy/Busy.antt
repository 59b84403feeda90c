-- ===== src/Pool/Occupancy/Busy.antt =====
-- shiitake-server/src/pool/mod.rs: which workers the probes count as in flight.
use shiitake.Prelude.{
  ◌≡◌, refl, inl, inr, ◌||◌, List, [], ◌∷◌, map, arith, Bool-cases, length, any, Str, str_eq,
  str_eq_iff,
}
use shiitake.Prelude.Map.{Map, values, keys}
use shiitake.Api.Wire.{WorkerId}
use shiitake.Pool.State.{PendingEntry, PoolState}
use shiitake.Pool.Occupancy.{insert_all, busy, snapshot}
use shiitake.Pool.Pings.{among, IsDistinct}

insert_all-IsDistinct : (ks set : List Str) → IsDistinct set → IsDistinct (insert_all ks set)
unfolding insert_all
insert_all-IsDistinct [] set d = d
insert_all-IsDistinct (k ∷ ks) set d = elim (Bool-cases (any (str_eq k) set)) [
  | inl e ↦ rw e (insert_all-IsDistinct ks set d)
  | inr e ↦ rw e (insert_all-IsDistinct ks (k ∷ set) (e, d))
]

among-insert_all :
    (w : Str) (ks set : List Str) → among w (insert_all ks set) ≡ (among w ks || among w set)
unfolding insert_all
among-insert_all w [] set = refl
among-insert_all w (k ∷ ks) set =
    ground (arith, among-insert_all w ks set, among-insert_all w ks (k ∷ set), str_eq_iff w k)

among-workers :
    (w : Str) (m : Map PendingEntry)
    → among w (map (λ p. p.worker_id) (values m)) ≡ any (λ e. str_eq w e.1.worker_id) m
among-workers w [] = refl
among-workers w (e ∷ m) = ground (arith, among-workers w m)

-- The workers that `snapshot` counts beside the idle ones are counted once each, and are exactly those with a command
-- in flight, with a session, or with a pinned terminal.
pub snapshot_exact :
    (s : PoolState)
    → (snapshot s ≡ (length s.idle, length (busy s)))
      × IsDistinct (busy s)
      × ((w : WorkerId)
          → among w (busy s) ≡ (
              any (λ e. str_eq w e.1.worker_id) s.inflight
              || among w (keys s.worker_sessions)
              || among w (keys s.pty_sessions)))
unfolding snapshot busy
snapshot_exact s =
    let commands = map (λ p. p.worker_id) (values s.inflight) in
    let sessions = insert_all (keys s.worker_sessions) (insert_all commands []) in
    (
      refl,
      insert_all-IsDistinct (keys s.pty_sessions) sessions (
          insert_all-IsDistinct (keys s.worker_sessions) (insert_all commands [])
            (insert_all-IsDistinct commands [] tt)),
      λ w. ground (
        arith,
        among-insert_all w (keys s.pty_sessions) sessions,
        among-insert_all w (keys s.worker_sessions) (insert_all commands []),
        among-insert_all w commands [],
        among-workers w s.inflight,
      ),
    )
