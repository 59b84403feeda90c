-- ===== src/Pool/Sessions/Create.antt =====
-- shiitake-server/src/pool/mod.rs: creating a session, from the reservation to the worker's answer.
use shiitake.Prelude.{
  ◌≡◌, refl, ap, ◌∙◌, inl, inr, Bool, true, not, ◌||◌, Option, none, some, List, [], ◌∷◌, ◌++◌,
  arith, Bool-cases, Str, str_eq_iff, str_eq_refl, Result, ok, err,
}
use shiitake.Prelude.Map.{get, contains_key, get-adjust}
use shiitake.Api.Wire.{SessionId, SessionOpenFrame, Frame}
use shiitake.Api.Public.{is_active}
use shiitake.Pool.State.{
  Time, Channel, Sink, WorkerEntry, SessionRecord, SessionSnapshot, SessionError, PoolState, Effect,
}
use shiitake.Pool.Workers.{Drop}
use shiitake.Pool.Sessions.{
  created_session_snapshot, reserve, OpenOutcome, finish_create, session_view, owns,
}

-- The SessionOpen frame, where its send succeeds.
abbrev open_sent : OpenOutcome → Sink → SessionOpenFrame → List Effect
open_sent (OpenOutcome.send_failed e) sink open_frame = []
open_sent _ sink open_frame = Effect.send sink (Frame.session_open open_frame) ∷ []

-- `between` is what others did to the pool until the wait for the worker was over, at the time `later`.
unfoldable pub create_session :
    PoolState
    → Time
    → Str
    → SessionOpenFrame
    → Channel
    → (PoolState → PoolState)
    → Time
    → Drop
    → OpenOutcome
    → PoolState × Result SessionSnapshot SessionError × List Effect
create_session s now profile open_frame ready between later drop outcome =
    elim (reserve s now profile open_frame ready) [
      | err e ↦ (s, err e, [])
      | ok (w, s') ↦
          let (s'', answer, effects) =
            finish_create (between s') later drop open_frame.session_id w outcome in
          (s'', answer, open_sent outcome w.sink open_frame ++ effects)
    ]

-- The session is open for commands on a connected worker that is its own.
pub record IsOpen (s : PoolState) (id : SessionId) (v : SessionSnapshot) : Type 0 where
  pub row : SessionRecord
  pub found : get id s.sessions ≡ some row
  pub active : is_active row.state ≡ true
  pub connected : contains_key row.worker_id s.liveness ≡ true
  pub held : get row.worker_id s.worker_sessions ≡ some id
  pub view : v ≡ session_view id row

owns-held :
    (s : PoolState) (worker : Str) (id : SessionId)
    → owns s worker id ≡ true
    → get worker s.worker_sessions ≡ some id
owns-held s worker id h = go (get worker s.worker_sessions) refl
  where
    go :
        (o : Option SessionId)
        → get worker s.worker_sessions ≡ o
        → get worker s.worker_sessions ≡ some id
    go none e = ground arith
    go (some j) e = e ∙ ap some ((str_eq_iff j id).0 (ground arith))

created_session_snapshot-IsOpen :
    (s : PoolState) (now : Time) (id : SessionId) (v : SessionSnapshot)
    → (created_session_snapshot s now id).1 ≡ ok v
    → IsOpen (created_session_snapshot s now id).0 id v
unfolding created_session_snapshot
created_session_snapshot-IsOpen s now id v h = go (get id s.sessions) refl
  where
    guard : SessionRecord → Bool
    guard r =
        not (is_active r.state)
        || not (contains_key r.worker_id s.liveness)
        || not (owns s r.worker_id id)

    go :
        (o : Option SessionRecord)
        → get id s.sessions ≡ o
        → IsOpen (created_session_snapshot s now id).0 id v
    go none e = ground arith
    go (some r) e = elim (Bool-cases (guard r)) [
      | inl g ↦ ground arith
      | inr g ↦
          rw (e, created_session_snapshot)
            (rw (g, created_session_snapshot)
              (record {
                row = record r { last_activity_at = now };
                found =
                    rw
                      (
                        get-adjust id id (λ x. record x { last_activity_at = now }) s.sessions,
                        str_eq_refl id,
                        e,
                      )
                      refl;
                active = ground arith;
                connected = ground arith;
                held = owns-held s r.worker_id id (ground arith);
                view = ground arith;
              }))
    ]

finish_create-IsOpen :
    (s : PoolState) (now : Time) (drop : Drop) (id : SessionId) (w : WorkerEntry)
    (outcome : OpenOutcome) (v : SessionSnapshot)
    → (finish_create s now drop id w outcome).1 ≡ ok v
    → IsOpen (finish_create s now drop id w outcome).0 id v × (outcome ≡ OpenOutcome.ready)
unfolding finish_create
finish_create-IsOpen s now drop id w (OpenOutcome.send_failed e) v h = ground arith
finish_create-IsOpen s now drop id w OpenOutcome.ready v h =
    (created_session_snapshot-IsOpen s now id v h, refl)
finish_create-IsOpen s now drop id w (OpenOutcome.refused e) v h = ground arith
finish_create-IsOpen s now drop id w OpenOutcome.dropped v h = ground arith
finish_create-IsOpen s now drop id w OpenOutcome.timed_out v h = ground arith

-- A session that `create_session` reports as created is, whatever others did meanwhile, active, on a worker that is
-- connected and is the session's, and what is reported is its record's view; and only the worker's consent brings
-- such a report.
pub create_session-IsOpen :
    (s : PoolState) (now : Time) (profile : Str) (o : SessionOpenFrame) (ready : Channel)
    (between : PoolState → PoolState) (later : Time) (drop : Drop) (outcome : OpenOutcome)
    (v : SessionSnapshot)
    → (create_session s now profile o ready between later drop outcome).1 ≡ ok v
    → IsOpen (create_session s now profile o ready between later drop outcome).0 o.session_id v
      × (outcome ≡ OpenOutcome.ready)
unfolding create_session
create_session-IsOpen s now profile o ready between later drop outcome v h =
    go (reserve s now profile o ready) refl
  where
    go :
        (r : Result (WorkerEntry × PoolState) SessionError)
        → reserve s now profile o ready ≡ r
        → IsOpen (create_session s now profile o ready between later drop outcome).0 o.session_id v
          × (outcome ≡ OpenOutcome.ready)
    go (err e) q = ground arith
    go (ok (w, s')) q =
        rw (q, create_session)
          (finish_create-IsOpen (between s') later drop o.session_id w outcome v
            (rw (q, create_session) at h))
