-- ===== src/Pool/Routing.antt =====
-- Where the output that a worker sends may go.
use shiitake.Prelude.{
  ℕ, ◌≡◌, refl, ◌⊎◌, inl, inr, true, false, Option, none, some, List, [], ◌∷◌, arith, Bool-cases,
  All, Str, str_eq_iff, str_eq_refl,
}
use shiitake.Prelude.Map.{get, get-adjust}
use shiitake.Api.Wire.{WorkerId, ExecId, SessionId}
use shiitake.Api.Chunk.{OutputStream, OutputChunk}
use shiitake.Api.Capture.{Stream}
use shiitake.Pool.State.{
  Channel, HandleRow, PendingEntry, SessionRecord, TerminalEvent, PoolState, Effect,
}
use shiitake.Pool.Handles.{mark_spool_failed, spool_broken}
use shiitake.Pool.Ids.{valid_capture_id}
use shiitake.Pool.Workers.{authorized, spool_output, terminal_of, route_output}

-- What lets bytes of a worker reach a spool file: a valid id, in flight on that very worker.
abbrev pub MaySpool : PoolState → WorkerId → ExecId → Type 0
MaySpool s worker id =
    (valid_capture_id id ≡ true)
    × ((p : PendingEntry) × (get id s.inflight ≡ some p) × (p.worker_id ≡ worker))

-- What lets bytes reach a terminal: the chunk names the session that the worker serves, whose terminal
-- this is.
abbrev pub MayShow : PoolState → WorkerId → SessionId → Channel → Type 0
MayShow s worker id tx =
    (get worker s.worker_sessions ≡ some id)
    × ((r : SessionRecord) × (get id s.sessions ≡ some r) × (r.terminal ≡ some tx))

authorized-inflight :
    (s : PoolState) (worker : WorkerId) (id : ExecId)
    → authorized s worker id ≡ true
    → (p : PendingEntry) × (get id s.inflight ≡ some p) × (p.worker_id ≡ worker)
unfolding authorized
authorized-inflight s worker id h = go (get id s.inflight) refl
  where
    go :
        (o : Option PendingEntry)
        → get id s.inflight ≡ o
        → (p : PendingEntry) × (get id s.inflight ≡ some p) × (p.worker_id ≡ worker)
    go none e = ground arith
    go (some p) e = (p, e, (str_eq_iff p.worker_id worker).0 (ground arith))

terminal_of-MayShow :
    (s : PoolState) (worker : WorkerId) (id : SessionId) (tx : Channel)
    → terminal_of s worker id ≡ some tx
    → MayShow s worker id tx
unfolding terminal_of
terminal_of-MayShow s worker id tx h = go (get worker s.worker_sessions) refl
  where
    found :
        (sid : SessionId) (o : Option SessionRecord)
        → get worker s.worker_sessions ≡ some sid
        → get sid s.sessions ≡ o
        → MayShow s worker id tx
    found sid none e q = ground arith
    found sid (some r) e q =
        let same : sid ≡ id = (str_eq_iff sid id).0 (ground arith) in
        (rw (← same) e, (r, rw (← same) q, ground arith))

    go : (o : Option SessionId) → get worker s.worker_sessions ≡ o → MayShow s worker id tx
    go none e = ground arith
    go (some sid) e = found sid (get sid s.sessions) e refl

-- What one effect of routing may be.
abbrev pub IsRouted : PoolState → WorkerId → OutputChunk → Effect → Type 0
IsRouted s worker chunk (Effect.spool id stream bytes) =
    (id ≡ chunk.id) × (bytes ≡ chunk.bytes) × MaySpool s worker chunk.id
IsRouted s worker chunk (Effect.terminal tx e) =
    (e ≡ TerminalEvent.output chunk.bytes) × MayShow s worker chunk.id tx
IsRouted s worker chunk _ = ⊥

spool_output-IsRouted :
    (s : PoolState) (worker : WorkerId) (chunk : OutputChunk) (stream : Stream)
    (failure : Option Str)
    → All (IsRouted s worker chunk) (spool_output s worker chunk.id stream chunk.bytes failure).1
unfolding spool_output
spool_output-IsRouted s worker chunk stream failure =
    go (Bool-cases (valid_capture_id chunk.id)) (Bool-cases (authorized s worker chunk.id)) failure
  where
    go :
        (valid_capture_id chunk.id ≡ true) ⊎ (valid_capture_id chunk.id ≡ false)
        → (authorized s worker chunk.id ≡ true) ⊎ (authorized s worker chunk.id ≡ false)
        → (f : Option Str)
        → All (IsRouted s worker chunk) (spool_output s worker chunk.id stream chunk.bytes f).1
    go (inr v) a f = rw (v, spool_output) tt
    go (inl v) (inr a) f = rw (v, spool_output) (rw (a, spool_output) tt)
    go (inl v) (inl a) none =
        rw (v, spool_output)
          (rw (a, spool_output) ((refl, refl, (v, authorized-inflight s worker chunk.id a)), tt))
    go (inl v) (inl a) (some e) = rw (v, spool_output) (rw (a, spool_output) tt)

-- A worker's output reaches only what is that worker's: whatever chunk it sends, each effect is an append
-- of the chunk's bytes to the spool of a handle with a valid id that is in flight on this worker, or a
-- message of the chunk's bytes to the terminal of the session that this worker serves.
pub route_output-IsRouted :
    (s : PoolState) (worker : WorkerId) (chunk : OutputChunk) (failure : Option Str)
    → All (IsRouted s worker chunk) (route_output s worker chunk failure).1
unfolding route_output
route_output-IsRouted s worker chunk failure = go chunk.stream refl
  where
    shown :
        (o : Option Channel)
        → terminal_of s worker chunk.id ≡ o
        → All (IsRouted s worker chunk) (elim o [
          | none ↦ []
          | some tx ↦ Effect.terminal tx (TerminalEvent.output chunk.bytes) ∷ []
        ])
    shown none e = tt
    shown (some tx) e = ((refl, terminal_of-MayShow s worker chunk.id tx e), tt)

    go :
        (stream : OutputStream)
        → chunk.stream ≡ stream
        → All (IsRouted s worker chunk) (route_output s worker chunk failure).1
    go OutputStream.stdout e =
        rw (e, route_output) (spool_output-IsRouted s worker chunk Stream.stdout failure)
    go OutputStream.stderr e =
        rw (e, route_output) (spool_output-IsRouted s worker chunk Stream.stderr failure)
    go OutputStream.terminal e = rw (e, route_output) (shown (terminal_of s worker chunk.id) refl)
    go OutputStream.stdin e = rw (e, route_output) tt

-- The two spooled streams on the wire.
abbrev pub output_of : Stream → OutputStream
output_of Stream.stdout = OutputStream.stdout
output_of Stream.stderr = OutputStream.stderr

-- The bytes went to the spool, or the handle carries the failure.
abbrev pub IsSpooled :
    ExecId → Stream → List ℕ → PoolState → Option Str → PoolState × List Effect → Type 0
IsSpooled id stream bytes s none r = r ≡ (s, Effect.spool id stream bytes ∷ [])
IsSpooled id stream bytes s (some e) r =
    (row : HandleRow) × (get id r.0.handles ≡ some row) × (row.inner.spool_failed ≡ true)

-- Output for a handle that is in flight on its worker is not lost in silence: it is appended to the
-- handle's spool of that stream and nothing else changes, or, where the file system refuses, the
-- handle's row is marked, from which its result becomes an output error.
pub route_output-IsSpooled :
    (s : PoolState) (worker : WorkerId) (id : ExecId) (stream : Stream) (bytes : List ℕ)
    (failure : Option Str) (p : PendingEntry) (row : HandleRow)
    → valid_capture_id id ≡ true
    → get id s.inflight ≡ some p
    → p.worker_id ≡ worker
    → get id s.handles ≡ some row
    → IsSpooled id stream bytes s failure (
        route_output s worker
          (record { stream = output_of stream; id = id; bytes = bytes })
          failure)
unfolding route_output spool_output authorized mark_spool_failed
route_output-IsSpooled s worker id Stream.stdout bytes none p row v e w q =
    ground (arith, str_eq_iff p.worker_id worker)
route_output-IsSpooled s worker id Stream.stderr bytes none p row v e w q =
    ground (arith, str_eq_iff p.worker_id worker)
route_output-IsSpooled s worker id Stream.stdout bytes (some x) p row v e w q = (
  spool_broken row,
  ground (
    arith,
    str_eq_iff p.worker_id worker,
    get-adjust id id spool_broken s.handles,
    str_eq_refl id,
  ),
  refl,
)
route_output-IsSpooled s worker id Stream.stderr bytes (some x) p row v e w q = (
  spool_broken row,
  ground (
    arith,
    str_eq_iff p.worker_id worker,
    get-adjust id id spool_broken s.handles,
    str_eq_refl id,
  ),
  refl,
)
