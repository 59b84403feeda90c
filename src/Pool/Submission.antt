-- ===== src/Pool/Submission.antt =====
-- What a submitted command leaves in the pool, on each branch.
use shiitake.Prelude.{ℕ, ◌+◌, is_some, ap, sym, ◌∙◌}
use shiitake.Prelude.{
  ◌≡◌, refl, ◌⊎◌, inl, inr, true, false, Option, none, some, List, [], ◌∷◌, arith, Bool-cases, Str,
  str_eq_refl, Result, ok, err,
}
use shiitake.Prelude.Map.{get, insert, adjust, get-insert, get-adjust, IsUnique}
use shiitake.Api.Wire.{ExecId, SessionId, SessionCommandMode}
use shiitake.Api.Public.{SessionState, is_active, HandleStatus, is_running}
use shiitake.Pool.State.{
  Time, SessionRecord, SessionError, PendingEntry, HandleRow, HandleSnapshot, PoolState, Effect,
}
use shiitake.Pool.Ids.{valid_capture_id}
use shiitake.Pool.Outcome.{snapshot_from, end_with_worker}
use shiitake.Pool.Ends.{end_with_worker-not_running}
use shiitake.Pool.Workers.{Drop}
use shiitake.Pool.Loss.{lost, SparesRow, at_endings, handle_worker_drop-handles}
use shiitake.Pool.Commands.{
  Sending, admit, session_row, session_entry, command_added, register_command, finish_submit,
  run_frame, submit_session_command,
}

-- The session takes a command of this mode: it is active, and a stateful command meets no terminal.
abbrev pub Takes : SessionCommandMode → SessionRecord → Type 0
Takes mode r =
    (r.state ≡ SessionState.active) × (mode ≡ SessionCommandMode.stateful → r.terminal ≡ none)

-- No session is there that takes the command.
abbrev pub TakesNone : SessionCommandMode → Option SessionRecord → Type 0
TakesNone mode o = (r : SessionRecord) → o ≡ some r → Takes mode r → ⊥

admit-err :
    (mode : SessionCommandMode) (o : Option SessionRecord) (x : SessionError)
    → admit mode o ≡ err x
    → TakesNone mode o
unfolding admit
admit-err mode none x e r q takes = cc
admit-err SessionCommandMode.stateful (some y) x e r q takes =
    ground (arith, e, q, takes.0, takes.1 refl)
admit-err SessionCommandMode.parallel (some y) x e r q takes = ground (arith, e, q, takes.0)

-- A stateful command is counted, a parallel one is not.
abbrev pub counted_as : SessionCommandMode → ℕ → ℕ
counted_as SessionCommandMode.stateful n = n + 1
counted_as SessionCommandMode.parallel n = n

is_active-eq : (state : SessionState) → is_active state ≡ true → state ≡ SessionState.active
is_active-eq SessionState.opening h = cc
is_active-eq SessionState.active h = refl
is_active-eq SessionState.closing h = cc
is_active-eq SessionState.closed h = cc
is_active-eq SessionState.failed h = cc

is_some-none : {A : Type 0} (o : Option A) → is_some o ≡ false → o ≡ none
is_some-none none h = refl
is_some-none (some a) h = cc

-- `t` is the pool at the registration, after the spool files are set up.
module _ (s t : PoolState) (now : Time) (id : SessionId) (rid : ExecId) (command : Str)
    (mode : SessionCommandMode) (drop : Drop) (sending : Sending) where
  -- What the registration leaves, `t'`, where `first` and `again` are the records that the two tests read:
  -- the handle is known and runs, the command is in flight on the worker of the first record, and the
  -- second record counts it.
  pub record IsRegistered (first again : SessionRecord) (t' : PoolState) : Type 0 where
    pub admitted : (get id s.sessions ≡ some first) × Takes mode first
    pub readmitted : (get id t.sessions ≡ some again) × Takes mode again
    pub row :
        (row : HandleRow) × (get rid t'.handles ≡ some row)
        × (row.inner.status ≡ HandleStatus.running)
        × (row.session_id ≡ some id)
        × (row.worker_id ≡ first.worker_id)
    pub entry :
        (p : PendingEntry) × (get rid t'.inflight ≡ some p)
        × (p.worker_id ≡ first.worker_id)
        × (p.sink ≡ first.sink)
        × (p.session_id ≡ some id)
        × (p.mode ≡ mode)
    pub counted :
        (r : SessionRecord) × (get id t'.sessions ≡ some r)
        × (r.stateful_count ≡ counted_as mode again.stateful_count)
        × (r.last_activity_at ≡ now)
        × (r.state ≡ SessionState.active)

  -- A command that was accepted: the one frame was sent, and the answer reads the handle as the others
  -- have left it in the meantime.
  pub record IsAccepted (v : HandleSnapshot) (effects : List Effect) (s' : PoolState) : Type 0 where
    pub first : SessionRecord
    pub again : SessionRecord
    pub start : PoolState
    pub registered_in : IsRegistered first again start
    pub after : s' ≡ sending.during start
    pub names : (v.handle_id ≡ rid) × (v.session_id ≡ some id) × (v.worker_id ≡ first.worker_id)
    pub reads :
        (row : HandleRow)
        → get rid s'.handles ≡ some row
        → (v.status ≡ row.inner.status)
          × (v.exit_cause ≡ row.inner.exit_cause)
          × (v.exit_code ≡ row.inner.exit_code)
    pub sent : effects ≡ Effect.send first.sink (run_frame id rid command mode first) ∷ []

  -- A command that was refused: the pool is as it was, no frame was sent.
  pub record IsRejected (effects : List Effect) (s' : PoolState) : Type 0 where
    pub state : (s' ≡ s) ⊎ (s' ≡ t)
    pub silent : (effects ≡ []) ⊎ (effects ≡ Effect.purge rid ∷ [])

  -- A command whose frame could not be sent: it was registered, and its worker is dropped. If it is still
  -- in flight there then, and nobody else touches its handle after, the handle no longer runs.
  pub record IsStranded (s' : PoolState) : Type 0 where
    pub first : SessionRecord
    pub again : SessionRecord
    pub start : PoolState
    pub registered_in : IsRegistered first again start
    pub ended :
        (row : HandleRow)
        → IsUnique (sending.during start).inflight
        → SparesRow rid drop.ending
        → lost (sending.during start) first.worker_id rid ≡ true
        → get rid (at_endings (sending.during start) now drop first.worker_id).handles ≡ some row
        → (row' : HandleRow) × (get rid s'.handles ≡ some row')
          × (is_running row'.inner.status ≡ false)

  -- Why a command is refused: its id is no capture id, one of the two tests finds no session that takes
  -- it, or the spool files could not be set up.
  abbrev pub IsRefused : Option Str → Type 0
  IsRefused setup =
      (valid_capture_id rid ≡ false)
      ⊎ (TakesNone mode (get id s.sessions)
          ⊎ ((is_some setup ≡ true) ⊎ TakesNone mode (get id t.sessions)))

  abbrev pub IsSubmitted :
      Option Str
      → Option Str
      → PoolState × Result HandleSnapshot SessionError × List Effect
      → Type 0
  IsSubmitted setup sent (s', ok v, effects) = IsAccepted v effects s'
  IsSubmitted setup sent (s', err e, effects) =
      (IsRefused setup × IsRejected effects s') ⊎ ((is_some sent ≡ true) × IsStranded s')

  pub registered : SessionRecord → PoolState
  registered first = record t {
    inflight = insert rid (session_entry now id mode first) t.inflight;
    handles = insert rid (session_row now id rid first) t.handles;
    sessions = adjust id (command_added now mode) t.sessions;
  }

  pub register-ok :
      (first again : SessionRecord)
      → admit mode (get id t.sessions) ≡ ok again
      → register_command t now id rid mode first ≡ ok (registered first)
  unfolding register_command registered
  register-ok first again e = rw (e, register_command) refl

  pub register-err :
      (first : SessionRecord) (x : SessionError)
      → admit mode (get id t.sessions) ≡ err x
      → register_command t now id rid mode first ≡ err x
  unfolding register_command
  register-err first x e = rw (e, register_command) refl

  pub admit-ok :
      (o : Option SessionRecord) (r : SessionRecord)
      → admit mode o ≡ ok r
      → (o ≡ some r) × Takes mode r
  unfolding admit
  admit-ok none r e = cc
  admit-ok (some x) r e =
      let same : x ≡ r = ground (arith, e) in
      (
        ap some same,
        (
          ap (λ y. y.state) (sym same) ∙ is_active-eq x.state (ground (arith, e)),
          λ m. ap (λ y. y.terminal) (sym same) ∙ is_some-none x.terminal (ground (arith, e, m)),
        ),
      )

  registered-IsRegistered :
      (first again : SessionRecord)
      → admit mode (get id s.sessions) ≡ ok first
      → admit mode (get id t.sessions) ≡ ok again
      → IsRegistered first again (registered first)
  unfolding registered
  registered-IsRegistered first again a b =
      let found = admit-ok (get id t.sessions) again b in
      record {
        admitted = admit-ok (get id s.sessions) first a;
        readmitted = found;
        row = (
          session_row now id rid first,
          rw (get-insert rid rid (session_row now id rid first) t.handles, str_eq_refl rid) refl,
          refl,
          refl,
          refl,
        );
        entry = (
          session_entry now id mode first,
          rw (get-insert rid rid (session_entry now id mode first) t.inflight, str_eq_refl rid)
              refl,
          refl,
          refl,
          refl,
          refl,
        );
        counted = (
          command_added now mode again,
          rw (get-adjust id id (command_added now mode) t.sessions, str_eq_refl id, found.0) refl,
          counts mode,
          refl,
          found.1.0,
        );
      }
    where
      counts :
          (m : SessionCommandMode)
          → (command_added now m again).stateful_count ≡ counted_as m again.stateful_count
      counts SessionCommandMode.stateful = refl
      counts SessionCommandMode.parallel = refl

  finish-IsSubmitted :
      (first again : SessionRecord) (setup sent : Option Str)
      → admit mode (get id s.sessions) ≡ ok first
      → admit mode (get id t.sessions) ≡ ok again
      → IsSubmitted setup sent
          (finish_submit (registered first) now drop id rid command mode first sending sent)
  unfolding finish_submit snapshot_from
  finish-IsSubmitted first again setup none a b = record {
    first = first;
    again = again;
    start = registered first;
    registered_in = registered-IsRegistered first again a b;
    after = refl;
    names = (refl, refl, refl);
    reads = λ row e. rw e (refl, refl, refl);
    sent = refl;
  }
  finish-IsSubmitted first again setup (some e) a b =
      let u = sending.during (registered first) in
      inr (
        refl,
        record {
          first = first;
          again = again;
          start = registered first;
          registered_in = registered-IsRegistered first again a b;
          ended = λ row unique spares there known. (
            end_with_worker now drop.oom_killed row,
            rw
                (
                  handle_worker_drop-handles u now drop first.worker_id rid unique spares,
                  there,
                  known,
                )
                refl,
            end_with_worker-not_running now drop.oom_killed row,
          );
        },
      )

-- Every outcome of a submission, whatever the others do to the pool while the spool files are set up and
-- while the frame is sent. With a handle: both tests found the session active and, for a stateful
-- command, without a terminal; the registration left the handle running, the command in flight on the
-- worker of the record that the first test read, and counted by the session exactly if it is stateful;
-- the one frame went to that worker, and the answer reads the handle as it is after the send. With an
-- error: it is refused, as its id is no capture id, one of the tests found no session that takes it or
-- the spool files could not be set up, and then no frame is sent and the pool is as it was before or at
-- the second test; or it was registered so and its frame could not be sent, and the handle no longer runs if the command was
-- still in flight on the worker when that was dropped.
pub submit_session_command-IsSubmitted :
    (s : PoolState) (now : Time) (drop : Drop) (id : SessionId) (rid : ExecId) (command : Str)
    (mode : SessionCommandMode) (setup : Option Str) (between : PoolState → PoolState)
    (sending : Sending) (sent : Option Str)
    → IsSubmitted s
        (between s)
        now
        id
        rid
        command
        mode
        drop
        sending
        setup
        sent
        (submit_session_command s now drop id rid command mode setup between sending sent)
unfolding submit_session_command
submit_session_command-IsSubmitted s now drop id rid command mode setup between sending sent =
    go (Bool-cases (valid_capture_id rid)) (admit mode (get id s.sessions)) setup
      (admit mode (get id (between s).sessions)) refl refl
  where
    go :
        (valid_capture_id rid ≡ true) ⊎ (valid_capture_id rid ≡ false)
        → (a : Result SessionRecord SessionError) (f : Option Str)
          (b : Result SessionRecord SessionError)
        → admit mode (get id s.sessions) ≡ a
        → admit mode (get id (between s).sessions) ≡ b
        → IsSubmitted s
            (between s)
            now
            id
            rid
            command
            mode
            drop
            sending
            f
            sent
            (submit_session_command s now drop id rid command mode f between sending sent)
    go (inr v) a f b p q =
        rw (v, submit_session_command) (inl (inl v, record { state = inl refl; silent = inl refl }))
    go (inl v) (err x) f b p q =
        rw (v, submit_session_command)
          (rw (p, submit_session_command)
            (inl
              (inr (inl (admit-err mode _ x p)), record { state = inl refl; silent = inl refl })))
    go (inl v) (ok first) (some e) b p q =
        rw (v, submit_session_command)
          (rw (p, submit_session_command)
            (inl (inr (inr (inl refl)), record { state = inr refl; silent = inr refl })))
    go (inl v) (ok first) none (err x) p q =
        rw (v, submit_session_command)
          (rw (p, submit_session_command)
            (rw
              (
                register-err s (between s) now id rid command mode drop sending first x q,
                submit_session_command,
              )
              (inl (
                inr (inr (inr (admit-err mode _ x q))),
                record { state = inr refl; silent = inr refl },
              ))))
    go (inl v) (ok first) none (ok again) p q =
        rw (v, submit_session_command)
          (rw (p, submit_session_command)
            (rw
              (
                register-ok s (between s) now id rid command mode drop sending first again q,
                submit_session_command,
              )
              (finish-IsSubmitted s (between s) now id rid command mode drop sending first again
                none sent p q)))
