-- ===== src/Http/Commands.antt =====
-- shiitake-server/src/http/{sessions,exec}.rs: reading and cancelling a command by the URL of its
-- session. Each handler takes the pool's lock twice, and `between` is what others did meanwhile.
use shiitake.Prelude.{
  ℕ, ◌≡◌, ap, ◌⊎◌, inl, inr, Bool, true, Option, none, some, List, [], arith, if◌then◌else◌,
  Bool-cases, Option-cases, Str, str, str_eq_iff, Result, ok, err, ◌>>=◌, ok_or,
}
use shiitake.Prelude.Map.{get}
use shiitake.Api.Wire.{ExecId, SessionId}
use shiitake.Api.Capture.{Stream, stream_path}
use shiitake.Pool.State.{Time, HandleRow, PoolState, Effect}
use shiitake.Pool.Handles.{belongs, touch_and_snapshot, touch_session_handle, cancel}
use shiitake.Http.Answers.{
  HttpError, StatusResponse, HandleSnapshotJson, status_response, handle_json,
}

-- `exec::status`
unfoldable pub status :
    (ExecId → Stream → ℕ) → PoolState → Time → ExecId → PoolState × Result StatusResponse HttpError
status capture_len s now handle =
    let (s', snap) = touch_and_snapshot s now handle in
    (s', ok_or snap (404, str "unknown handle") >>= λ v. ok (status_response capture_len v))

-- `exec::kill`
unfoldable pub kill :
    PoolState → ExecId → PoolState × Result HandleSnapshotJson HttpError × List Effect
kill s handle =
    let (s', snap, effects) = cancel s handle in
    (s', ok_or snap (404, str "unknown handle") >>= λ v. ok (handle_json v), effects)

-- What `read_stream` answers with: an empty body, or the file at a path.
pub data Body : Type 0 where
  empty : Body
  file : Str → Body

-- `exec::read_stream`; `exists` is what the file system says of a path.
unfoldable pub read_stream :
    Str → (Str → Bool) → PoolState → Time → ExecId → Stream → PoolState × Result Body HttpError
read_stream root exists s now handle stream =
    let (s', snap) = touch_and_snapshot s now handle in
    elim snap [
      | none ↦ (s', err (404, str "unknown handle"))
      | some snap ↦
          let path = stream_path root handle stream in
          (s', ok (if exists path then Body.file path else Body.empty))
    ]

unfoldable pub check_handle :
    PoolState → Time → SessionId → ExecId → PoolState × Result (Unit {0}) HttpError
check_handle s now id handle =
    let (s', snap) = touch_session_handle s now id handle in
    (s', ok_or snap (404, str "unknown command") >>= λ _. ok tt)

unfoldable pub command_status :
    (ExecId → Stream → ℕ)
    → (PoolState → PoolState)
    → PoolState
    → Time
    → SessionId
    → ExecId
    → PoolState × Result StatusResponse HttpError
command_status capture_len between s now id handle =
    let (s', checked) = check_handle s now id handle in
    elim checked [ err e ↦ (s', err e) | ok _ ↦ status capture_len (between s') now handle ]

unfoldable pub cancel_command :
    (PoolState → PoolState)
    → PoolState
    → Time
    → SessionId
    → ExecId
    → PoolState × Result HandleSnapshotJson HttpError × List Effect
cancel_command between s now id handle =
    let (s', checked) = check_handle s now id handle in
    elim checked [ err e ↦ (s', err e, []) | ok _ ↦ kill (between s') handle ]

unfoldable pub read_command :
    Str
    → (Str → Bool)
    → (PoolState → PoolState)
    → PoolState
    → Time
    → SessionId
    → ExecId
    → Stream
    → PoolState × Result Body HttpError
read_command root exists between s now id handle stream =
    let (s', checked) = check_handle s now id handle in
    elim checked [
      | err e ↦ (s', err e)
      | ok _ ↦ read_stream root exists (between s') now handle stream
    ]

-- The handle is one of the session's.
pub Reaches : PoolState → SessionId → ExecId → Type 0
Reaches s id handle =
    (row : HandleRow) × (get handle s.handles ≡ some row) × (row.session_id ≡ some id)

belongs-some : (id : SessionId) (o : Option SessionId) → belongs id o ≡ true → o ≡ some id
belongs-some id none h = cc
belongs-some id (some j) h = ap some ((str_eq_iff j id).0 h)

check_handle-cases :
    (s : PoolState) (now : Time) (id : SessionId) (handle : ExecId)
    → Reaches s id handle ⊎ (check_handle s now id handle ≡ (s, err (404, str "unknown command")))
unfolding check_handle touch_session_handle Reaches
check_handle-cases s now id handle = elim (Option-cases (get handle s.handles)) [
  | inl e ↦ inr (ground (arith, e))
  | inr (row, e) ↦ elim (Bool-cases (belongs id row.session_id)) [
    | inl b ↦ inl (row, e, belongs-some id row.session_id b)
    | inr b ↦ inr (ground (arith, e, b))
  ]
]

-- A handle that is not of the session in the URL is answered with 404 by the status, the cancel and the output
-- routes alike, and they leave the pool as it was and send nothing.
pub session_routes-AreScoped :
    (capture_len : ExecId → Stream → ℕ) (root : Str) (exists : Str → Bool)
    (between : PoolState → PoolState) (s : PoolState) (now : Time) (id : SessionId)
    (handle : ExecId) (stream : Stream)
    → Reaches s id handle
      ⊎ ((command_status capture_len between s now id handle
            ≡ (s, err (404, str "unknown command")))
          × (cancel_command between s now id handle ≡ (s, err (404, str "unknown command"), []))
          × (read_command root exists between s now id handle stream
              ≡ (s, err (404, str "unknown command"))))
unfolding command_status cancel_command read_command
session_routes-AreScoped capture_len root exists between s now id handle stream =
    elim (check_handle-cases s now id handle) [
      | inl r ↦ inl r
      | inr e ↦ inr (
        rw (command_status, e) (ap (λ c. (c.0, err (404, str "unknown command"))) e),
        rw (cancel_command, e) (ap (λ c. (c.0, err (404, str "unknown command"), [])) e),
        rw (read_command, e) (ap (λ c. (c.0, err (404, str "unknown command"))) e),
      )
    ]
