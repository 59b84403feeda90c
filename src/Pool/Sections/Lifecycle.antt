-- ===== src/Pool/Sections/Lifecycle.antt =====
-- The life of a session, as an order of its states.
use shiitake.Prelude.{
  ℕ, ◌≤◌, ◌≡◌, inl, inr, Bool, false, Option, none, some, List, arith, Bool-cases, retain, Str,
  str_eq, str_eq_iff,
}
use shiitake.Prelude.Map.{
  Map, get, insert, adjust, get-insert, get-adjust, IsUnique, insert-IsUnique, adjust-IsUnique,
  retain-IsUnique, get-retain,
}
use shiitake.Api.Wire.{SessionId}
use shiitake.Api.Public.{SessionState}
use shiitake.Pool.State.{SessionRecord, new_pool, clear_inputs}
use shiitake.Pool.Dispatch.{command_done}
use shiitake.Pool.Workers.{fail_session}
use shiitake.Pool.Sessions.Reports.{ready_record, closed_record}
use shiitake.Pool.Commands.{admit}
use shiitake.Pool.Sections.{Section, enter, interleave, interleave-keeps}
use shiitake.Pool.Sections.Writes.{Written, enter-sessions}

abbrev pub rank : SessionState → ℕ
rank SessionState.opening = 0
rank SessionState.active = 1
rank SessionState.closing = 2
rank SessionState.closed = 3
rank SessionState.failed = 3

-- `r'` is a later record of the session that `r` was.
pub record Advances (r r' : SessionRecord) : Type 0 where
  pub onward : rank r.state ≤ rank r'.state
  pub worker : r'.worker_id ≡ r.worker_id
  pub profile : r'.profile ≡ r.profile
  pub sink : r'.sink ≡ r.sink
  pub created : r'.created_at ≡ r.created_at

-- What became of `r`: it is gone, or it went on.
abbrev pub Later : SessionRecord → Option SessionRecord → Type 0
Later r none = Unit
Later r (some r') = Advances r r'

abbrev pub reserves_id : Section → SessionId → Bool
reserves_id (Section.reserves now profile o ready) id = str_eq o.session_id id
reserves_id _ id = false

-- One map of records that is later than another, at one id.
module _ (m : Map SessionRecord) (id : SessionId) (r : SessionRecord)
    (at_id : get id m ≡ some r) where
  Later-adjust :
      (k : Str) (f : SessionRecord → SessionRecord)
      → ((x : SessionRecord) → get k m ≡ some x → Advances x (f x))
      → Later r (get id (adjust k f m))
  Later-adjust k f onward = elim (Bool-cases (str_eq k id)) [
    | inl e ↦ rw (get-adjust k id f m, e, at_id) (onward r (rw ((str_eq_iff k id).0 e) at_id))
    | inr e ↦ rw (get-adjust k id f m, e, at_id) (ground arith)
  ]

  Later-insert :
      (k : Str) (v : SessionRecord) → str_eq k id ≡ false → Later r (get id (insert k v m))
  Later-insert k v e = rw (get-insert k id v m, e, at_id) (ground arith)

  Later-retain : (p : Str × SessionRecord → Bool) → IsUnique m → Later r (get id (retain p m))
  Later-retain p u = rw (get-retain p id m u, at_id) (ground arith)

  Later-writes :
      (c : Section)
      → reserves_id c id ≡ false
      → IsUnique m
      → Written (λ m'. Later r (get id m')) c m
  unfolding fail_session closed_record ready_record clear_inputs command_done admit
  Later-writes c other u = record {
    same = rw at_id (ground arith);
    fails = λ k now. Later-adjust k _ (λ x _. ground arith);
    closes = λ k now error. Later-adjust k _ (λ x _. ground arith);
    opens = λ k now error. Later-adjust k _ (λ x _. ground arith);
    begins_close = λ k tx unfinished. Later-adjust k _ (λ x g. ground (arith, unfinished x g));
    touches = λ k now. Later-adjust k _ (λ x _. ground arith);
    confirms = λ k now. Later-adjust k _ (λ x _. ground arith);
    retires = λ k now mode. Later-adjust k _ (λ x _. ground arith);
    adds = λ k now mode y q. Later-adjust k _ (λ x g. ground arith);
    attaches = λ k now tx free. Later-adjust k _ (λ x g. ground arith);
    detaches = λ k now tx. Later-adjust k _ (λ x _. ground arith);
    reserves = λ now profile o ready w e. Later-insert o.session_id _ (rw e at other);
    sweeps = λ now ttl. Later-retain _ u;
  }

IsUnique-writes : (c : Section) (m : Map SessionRecord) → IsUnique m → Written IsUnique c m
IsUnique-writes c m u = record {
  same = u;
  fails = λ k now. adjust-IsUnique k _ m u;
  closes = λ k now error. adjust-IsUnique k _ m u;
  opens = λ k now error. adjust-IsUnique k _ m u;
  begins_close = λ k tx _. adjust-IsUnique k _ m u;
  touches = λ k now. adjust-IsUnique k _ m u;
  confirms = λ k now. adjust-IsUnique k _ m u;
  retires = λ k now mode. adjust-IsUnique k _ m u;
  adds = λ k now mode y q. adjust-IsUnique k _ m u;
  attaches = λ k now tx _. adjust-IsUnique k _ m u;
  detaches = λ k now tx. adjust-IsUnique k _ m u;
  reserves = λ now profile o ready w _. insert-IsUnique o.session_id _ m u;
  sweeps = λ now ttl. retain-IsUnique _ m u;
}

interleave-IsUnique : (cs : List Section) → IsUnique (interleave new_pool cs).sessions
interleave-IsUnique cs =
    interleave-keeps (λ s. IsUnique s.sessions)
      (λ s c u. enter-sessions IsUnique s c (IsUnique-writes c s.sessions u)) new_pool cs tt

-- In whatever state an interleaving has brought the pool to, the next section takes a session's record
-- only forward (opening, active, closing, then closed or failed, between which alone it may change back
-- and forth), keeps its worker, profile, sink and creation time, or removes it; unless the section
-- creates a session under that same id.
pub enter-Later :
    (cs : List Section) (c : Section) (id : SessionId) (r : SessionRecord)
    → get id (interleave new_pool cs).sessions ≡ some r
    → reserves_id c id ≡ false
    → Later r (get id (enter (interleave new_pool cs) c).sessions)
enter-Later cs c id r at_id other =
    let s = interleave new_pool cs in
    enter-sessions (λ m'. Later r (get id m')) s c
      (Later-writes s.sessions id r at_id c other (interleave-IsUnique cs))
