-- ===== src/Http/Sessions.antt =====
-- shiitake-server/src/http/sessions.rs: creating a session and running a command in it. The bytes of
-- the UUID behind a public id are an argument, as the function from their indices.
use shiitake.Prelude.{◌≢◌}
use shiitake.Prelude.{
  ℕ, ◌≡◌, refl, ◌⊎◌, inl, inr, true, Option, none, some, List, [], ◌∷◌, arith, is_some, Str, str,
  is_ascii_alphanumeric, Result, ok, err,
}
use shiitake.Prelude.Map.{get}
use shiitake.Api.Wire.{WorkerId, ExecId, SessionId, SessionOpenFrame, SessionCommandMode}
use shiitake.Api.Public.{CreateSessionRequest, SessionState}
use shiitake.Pool.State.{
  Time, Channel, SessionRecord, SessionError, SessionSnapshot, HandleSnapshot, PoolState, Effect,
}
use shiitake.Pool.Workers.{Drop}
use shiitake.Pool.Ids.{valid_capture_id}
use shiitake.Pool.Sessions.{OpenOutcome}
use shiitake.Pool.Sessions.Create.{create_session}
use shiitake.Pool.Outcome.{snapshot_from}
use shiitake.Pool.Submission.{Takes, admit-ok, register-ok, register-err}
use shiitake.Pool.Commands.{is_stateful, admit, Sending, finish_submit, submit_session_command}
use shiitake.Api.Capture.{is_id_byte}
use shiitake.Http.PublicId.{encode_public_id}
use shiitake.Http.PublicId.Laws.{encode_public_id-valid}
use shiitake.Http.Answers.{HttpError, map_error}
use shiitake.Http.Validate.{validate_session_request}

-- Bytes 6 and 8 hold the version and the variant.
abbrev pub new_public_id : ℕ → (ℕ → ℕ) → Str
new_public_id kind uuid =
    encode_public_id kind (
      uuid 0
      ∷ uuid 1
      ∷ uuid 2
      ∷ uuid 3
      ∷ uuid 4
      ∷ uuid 5
      ∷ uuid 7
      ∷ uuid 9
      ∷ uuid 10
      ∷ uuid 11
      ∷ [])

pub record SessionResponse : Type 0 where
  pub session_id : SessionId
  pub worker_id : WorkerId
  pub profile : Str
  pub state : SessionState
  pub created_at : Time

unfoldable pub response : SessionSnapshot → SessionResponse
response s = record {
  session_id = s.session_id;
  worker_id = s.worker_id;
  profile = s.profile;
  state = s.state;
  created_at = s.created_at;
}

abbrev workdir_or : Option Str → Str → Str
workdir_or none default_workdir = default_workdir
workdir_or (some path) default_workdir = path

abbrev open_of : SessionId → Str → CreateSessionRequest → SessionOpenFrame
open_of id default_workdir req = record {
  session_id = id;
  working_dir = workdir_or req.workdir default_workdir;
  env = req.env;
  drop_to = req.drop_to;
  cols = req.cols;
  rows = req.rows;
}

create_answer : Result SessionSnapshot SessionError → Result (ℕ × SessionResponse) HttpError
unfolding response
create_answer (ok v) = ok (201, response v)
create_answer (err e) = err (map_error e (str "start session"))

unfoldable pub create :
    PoolState
    → Time
    → Str
    → (ℕ → ℕ)
    → CreateSessionRequest
    → Channel
    → (PoolState → PoolState)
    → Time
    → Drop
    → OpenOutcome
    → PoolState × Result (ℕ × SessionResponse) HttpError × List Effect
unfolding create_answer
create s now default_workdir uuid req ready between later drop outcome =
    elim (validate_session_request req) [
      | err e ↦ (s, err e, [])
      | ok _ ↦
          let (s', answer, effects) =
            create_session s now req.profile (open_of (new_public_id b's' uuid) default_workdir req)
              ready between later drop outcome in
          (s', create_answer answer, effects)
    ]

pub record SpawnResponse : Type 0 where
  pub handle : ExecId
  pub started_at : Time

run_answer : Result HandleSnapshot SessionError → Result (ℕ × SpawnResponse) HttpError
run_answer (ok v) = ok (202, record { handle = v.handle_id; started_at = v.started_at })
run_answer (err e) = err (map_error e (str "submit command"))

unfoldable pub run :
    PoolState
    → Time
    → Drop
    → SessionId
    → (ℕ → ℕ)
    → Str
    → SessionCommandMode
    → Option Str
    → (PoolState → PoolState)
    → Sending
    → Option Str
    → PoolState × Result (ℕ × SpawnResponse) HttpError × List Effect
unfolding run_answer
run s now drop id uuid command mode setup between sending sent =
    let (s', answer, effects) =
      submit_session_command s now drop id (new_public_id b'c' uuid) command mode setup between
        sending sent in
    (s', run_answer answer, effects)

-- A session that is known and does not take the command.
abbrev pub Bars : SessionCommandMode → Option SessionRecord → Type 0
Bars mode o =
    (r : SessionRecord) × (o ≡ some r)
    × ((r.state ≢ SessionState.active)
        ⊎ ((mode ≡ SessionCommandMode.stateful) × (is_some r.terminal ≡ true)))

abbrev pub IsBarred : SessionCommandMode → Option SessionRecord → HttpError → Type 0
IsBarred mode o e = ((e.0 ≡ 404) × (o ≡ none)) ⊎ ((e.0 ≡ 409) × Bars mode o)

-- What a client may be told, where `first` and `again` are what the pool's two tests find: 202 with the
-- new id where both sessions take the command; 404 where one test finds none and 409 where one finds a
-- session that does not take it; 502 only where the file system or the worker's socket failed.
abbrev pub IsTold :
    SessionCommandMode
    → Option SessionRecord
    → Option SessionRecord
    → (ℕ → ℕ)
    → Option Str
    → Option Str
    → Result (ℕ × SpawnResponse) HttpError
    → Type 0
IsTold mode first again uuid setup sent (ok (code, r)) =
    (code ≡ 202)
    × (r.handle ≡ new_public_id b'c' uuid)
    × ((x : SessionRecord) × (first ≡ some x) × Takes mode x)
    × ((x : SessionRecord) × (again ≡ some x) × Takes mode x)
IsTold mode first again uuid setup sent (err e) =
    IsBarred mode first e
    ⊎ (IsBarred mode again e ⊎ ((e.0 ≡ 502) × ((is_some setup ≡ true) ⊎ (is_some sent ≡ true))))

new_public_id-valid : (uuid : ℕ → ℕ) → valid_capture_id (new_public_id b'c' uuid) ≡ true
unfolding is_id_byte is_ascii_alphanumeric
new_public_id-valid uuid = (encode_public_id-valid b'c' _ refl).1

stateful_mode :
    (mode : SessionCommandMode) → is_stateful mode ≡ true → mode ≡ SessionCommandMode.stateful
stateful_mode SessionCommandMode.stateful h = refl
stateful_mode SessionCommandMode.parallel h = cc

abbrev told : SessionError → HttpError
told e = map_error e (str "submit command")

refused-IsBarred :
    (mode : SessionCommandMode) (o : Option SessionRecord) (e : SessionError)
    → admit mode o ≡ err e
    → IsBarred mode o (told e)
unfolding admit map_error
refused-IsBarred mode none SessionError.not_found h = inl (refl, refl)
refused-IsBarred mode (some r) SessionError.not_active h =
    inr (refl, (r, refl, inl (λ a. ground (arith, a, h))))
refused-IsBarred mode (some r) SessionError.terminal_busy h =
    inr (refl, (r, refl, inr (stateful_mode mode (ground (arith, h)), ground (arith, h))))
refused-IsBarred mode (some r) SessionError.not_found h = ground arith
refused-IsBarred mode none SessionError.not_active h = ground arith
refused-IsBarred mode none SessionError.terminal_busy h = ground arith
refused-IsBarred mode none SessionError.unknown_profile h = ground arith
refused-IsBarred mode none SessionError.busy h = ground arith
refused-IsBarred mode none (SessionError.worker x) h = ground arith
refused-IsBarred mode (some r) SessionError.unknown_profile h = ground arith
refused-IsBarred mode (some r) SessionError.busy h = ground arith
refused-IsBarred mode (some r) (SessionError.worker x) h = ground arith

-- Every answer to a command is one that the client can act on: 202 with the id made for it, and then both
-- tests of the pool found a session that takes the command; 404 only if one of them found no session; 409
-- only if one found a session that is not active, or that has a terminal where the command is stateful;
-- and 502 only if the spool files could not be set up or the frame could not be sent: an id made by the
-- server is never refused.
pub run-IsTold :
    (s : PoolState) (now : Time) (drop : Drop) (id : SessionId) (uuid : ℕ → ℕ) (command : Str)
    (mode : SessionCommandMode) (setup : Option Str) (between : PoolState → PoolState)
    (sending : Sending) (sent : Option Str)
    → IsTold mode
        (get id s.sessions)
        (get id (between s).sessions)
        uuid
        setup
        sent
        (run s now drop id uuid command mode setup between sending sent).1
unfolding run run_answer submit_session_command finish_submit map_error snapshot_from
run-IsTold s now drop id uuid command mode setup between sending sent =
    go (admit mode (get id s.sessions)) setup (admit mode (get id (between s).sessions)) sent refl
      refl
  where
    rid : Str
    rid = new_public_id b'c' uuid

    go :
        (a : Result SessionRecord SessionError) (f : Option Str)
        (b : Result SessionRecord SessionError) (g : Option Str)
        → admit mode (get id s.sessions) ≡ a
        → admit mode (get id (between s).sessions) ≡ b
        → IsTold mode (get id s.sessions) (get id (between s).sessions) uuid f g (
            run_answer
              (submit_session_command s now drop id rid command mode f between sending g).1)
    go (err x) f b g p q =
        rw (new_public_id-valid uuid, submit_session_command)
          (rw (p, submit_session_command) (inl (refused-IsBarred mode (get id s.sessions) x p)))
    go (ok first) (some e) b g p q =
        rw (new_public_id-valid uuid, submit_session_command)
          (rw (p, submit_session_command) (inr (inr (refl, inl refl))))
    go (ok first) none (err x) g p q =
        rw (new_public_id-valid uuid, submit_session_command)
          (rw (p, submit_session_command)
            (rw
              (
                register-err s (between s) now id rid command mode drop sending first x q,
                submit_session_command,
              )
              (inr (inl (refused-IsBarred mode (get id (between s).sessions) x q)))))
    go (ok first) none (ok again) none p q =
        let found = admit-ok s (between s) now id rid command mode drop sending in
        rw (new_public_id-valid uuid, submit_session_command)
          (rw (p, submit_session_command)
            (rw
              (
                register-ok s (between s) now id rid command mode drop sending first again q,
                submit_session_command,
              )
              (
                refl,
                refl,
                let a = found (get id s.sessions) first p in (first, a.0, a.1),
                let b = found (get id (between s).sessions) again q in (again, b.0, b.1),
              )))
    go (ok first) none (ok again) (some e) p q =
        rw (new_public_id-valid uuid, submit_session_command)
          (rw (p, submit_session_command)
            (rw
              (
                register-ok s (between s) now id rid command mode drop sending first again q,
                submit_session_command,
              )
              (inr (inr (refl, inr refl)))))
