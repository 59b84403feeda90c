-- ===== src/Pool/Reservation.antt =====
-- shiitake-server/src/pool/mod.rs: which worker a new session gets, and when it gets none.
use shiitake.Prelude.{
  ◌≡◌, refl, ◌⊎◌, inl, inr, Bool, true, false, Option, none, some, List, [], ◌∷◌, ◌++◌, arith,
  Bool-cases, any, Str, str_eq, str_eq_iff, str_eq_refl, Result, ok, err,
}
use shiitake.Prelude.Map.{get, values, get-insert}
use shiitake.Api.Wire.{SessionOpenFrame, SessionId}
use shiitake.Api.Public.{SessionState}
use shiitake.Pool.State.{SessionRecord, Time, Channel, WorkerEntry, SessionError, PoolState}
use shiitake.Pool.Sessions.{take_profile, opening_record, reserve}

abbrev pub serves : Str → WorkerEntry → Bool
serves profile w = str_eq w.profile profile

-- `w` is the first of the profile in `idle`, and `ws` is the rest in its order.
pub record IsFirst (profile : Str) (idle : List WorkerEntry) (w : WorkerEntry)
    (ws : List WorkerEntry) : Type 0 where
  pub before : List WorkerEntry
  pub after : List WorkerEntry
  pub whole : idle ≡ before ++ (w ∷ after)
  pub rest : ws ≡ before ++ after
  pub none_before : any (serves profile) before ≡ false
  pub serves_it : w.profile ≡ profile

take_profile-none :
    (profile : Str) (idle : List WorkerEntry)
    → take_profile profile idle ≡ none
    → any (serves profile) idle ≡ false
unfolding take_profile
take_profile-none profile [] h = refl
take_profile-none profile (w ∷ ws) h = ground (arith, take_profile-none profile ws)

take_profile-some :
    (profile : Str) (idle : List WorkerEntry) (w : WorkerEntry) (ws : List WorkerEntry)
    → take_profile profile idle ≡ some (w, ws)
    → IsFirst profile idle w ws
unfolding take_profile
take_profile-some profile [] w ws h = cc
take_profile-some profile (x ∷ xs) w ws h =
    go (Bool-cases (str_eq x.profile profile)) (take_profile profile xs) refl
      (λ y ys q. take_profile-some profile xs y ys q)
  where
    go :
        (str_eq x.profile profile ≡ true) ⊎ (str_eq x.profile profile ≡ false)
        → (o : Option (WorkerEntry × List WorkerEntry)) → take_profile profile xs ≡ o
        → ((y : WorkerEntry) (ys : List WorkerEntry)
            → take_profile profile xs ≡ some (y, ys)
            → IsFirst profile xs y ys)
        → IsFirst profile (x ∷ xs) w ws
    go (inl e) o q ih = record {
      before = [];
      after = xs;
      whole = ground arith;
      rest = ground arith;
      none_before = refl;
      serves_it = (str_eq_iff w.profile profile).0 (ground arith);
    }
    go (inr e) none q ih = ground arith
    go (inr e) (some (y, ys)) q ih =
        let r = ih y ys q in
        record {
          before = x ∷ r.before;
          after = r.after;
          whole = ground (arith, r.whole);
          rest = ground (arith, r.rest);
          none_before = ground (arith, r.none_before);
          serves_it = ground (arith, r.serves_it);
        }

-- A fresh record that opens, with the request's inputs and nobody else on it.
pub record IsOpening (now : Time) (profile : Str) (o : SessionOpenFrame) (ready : Channel)
    (w : WorkerEntry) (r : SessionRecord) : Type 0 where
  pub state : (r.state ≡ SessionState.opening) × (r.finished_at ≡ none)
  pub names : (r.worker_id ≡ w.worker_id) × (r.sink ≡ w.sink) × (r.profile ≡ profile)
  pub waiting : (r.opened ≡ some ready) × (r.closed ≡ []) × (r.terminal ≡ none)
  pub clock : (r.created_at ≡ now) × (r.last_activity_at ≡ now)
  pub inputs : (r.working_dir ≡ o.working_dir) × (r.env ≡ o.env) × (r.drop_to ≡ o.drop_to)
  pub counted : r.stateful_count ≡ 0

-- The reservation took the worker and nothing else, and bound it to the session.
pub record IsBound (s : PoolState) (now : Time) (profile : Str) (o : SessionOpenFrame)
    (ready : Channel) (w : WorkerEntry) (s' : PoolState) : Type 0 where
  pub first : IsFirst profile s.idle w s'.idle
  pub held : get w.worker_id s'.worker_sessions ≡ some o.session_id
  pub session : get o.session_id s'.sessions ≡ some (opening_record now profile o ready w)
  pub fresh : IsOpening now profile o ready w (opening_record now profile o ready w)
  pub others :
      (j : SessionId) → str_eq o.session_id j ≡ false → get j s'.sessions ≡ get j s.sessions
  pub commands : (s'.inflight ≡ s.inflight) × (s'.handles ≡ s.handles)

abbrev pub IsReserved :
    PoolState
    → Time
    → Str
    → SessionOpenFrame
    → Channel
    → Result (WorkerEntry × PoolState) SessionError
    → Type 0
IsReserved s now profile o ready (ok (w, s')) = IsBound s now profile o ready w s'
IsReserved s now profile o ready (err SessionError.unknown_profile) =
    any (λ l. str_eq l.profile profile) (values s.liveness) ≡ false
IsReserved s now profile o ready (err SessionError.busy) =
    (any (λ l. str_eq l.profile profile) (values s.liveness) ≡ true)
    × (any (serves profile) s.idle ≡ false)
IsReserved s now profile o ready (err _) = ⊥

-- On every branch of the reservation: with a worker, it was the first idle one of the profile, the others
-- keep their order, the worker is bound to the session, whose record is a fresh one that opens (with the
-- request's inputs, its opener alone waiting, and no command counted), and no other
-- session and no command changes; without one, either no connected worker has the profile, or some have but none
-- of them is idle.
pub reserve-IsReserved :
    (s : PoolState) (now : Time) (profile : Str) (o : SessionOpenFrame) (ready : Channel)
    → IsReserved s now profile o ready (reserve s now profile o ready)
unfolding reserve
reserve-IsReserved s now profile o ready =
    go (Bool-cases (any (λ l. str_eq l.profile profile) (values s.liveness)))
      (take_profile profile s.idle) refl
  where
    go :
        (any (λ l. str_eq l.profile profile) (values s.liveness) ≡ true)
          ⊎ (any (λ l. str_eq l.profile profile) (values s.liveness) ≡ false)
        → (t : Option (WorkerEntry × List WorkerEntry)) → take_profile profile s.idle ≡ t
        → IsReserved s now profile o ready (reserve s now profile o ready)
    go (inr e) t q = rw (e, reserve) e
    go (inl e) none q = rw (e, reserve) (rw (q, reserve) (e, take_profile-none profile s.idle q))
    go (inl e) (some (w, ws)) q =
        rw (e, reserve)
          (rw (q, reserve)
            (record {
              first = take_profile-some profile s.idle w ws q;
              held =
                  rw
                    (
                      get-insert w.worker_id w.worker_id o.session_id s.worker_sessions,
                      str_eq_refl w.worker_id,
                    )
                    refl;
              session =
                  rw
                    (
                      get-insert o.session_id o.session_id (opening_record now profile o ready w)
                          s.sessions,
                      str_eq_refl o.session_id,
                    )
                    refl;
              fresh = record {
                state = (refl, refl);
                names = (refl, refl, refl);
                waiting = (refl, refl, refl);
                clock = (refl, refl);
                inputs = (refl, refl, refl);
                counted = refl;
              };
              others = λ j ne.
                  rw
                    (
                      get-insert o.session_id j (opening_record now profile o ready w) s.sessions,
                      ne,
                    )
                    refl;
              commands = (refl, refl);
            }))
