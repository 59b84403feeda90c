-- ===== src/Worker/Command/Streams.antt =====
-- client.rs: the two loops of `run_command`, over the messages and over the streams.
use shiitake.Prelude.{
  ◌≡◌, refl, sym, ap, ◌∙◌, inl, inr, Bool, true, false, not, ◌&&◌, ◌||◌, Option, none, some, List,
  [], ◌∷◌, ◌++◌, map, arith, if◌then◌else◌, Bool-cases, Option-cases, is_none, any, Str, Result, ok,
  err,
}
use mathlib.Core.List.{append-nil, append_assoc}
use shiitake.Api.Wire.{ExecId, ExecuteFrame, ResultFrame, errored}
use shiitake.Api.Chunk.{OutputStream, stdout, stderr, terminal, stdin, OutputChunk}
use shiitake.Worker.Exec.{Machine, run_exec}
use shiitake.Worker.Serve.{Inbound, text, bad_text, ping, close, failed, other, silence}
use shiitake.Worker.Serve.Rounds.{CmdOutcome, command_done, command_lost}
use shiitake.Worker.Command.{
  CommandAct, ask_cancel, answer_ping, process, forward_chunk, purge_capture, supervise, Captured,
  missing, unopened, opened, forward_reads, with_error, forward_streams, exec_result,
}

-- What a file holds up to its end, as far as it can be read.
abbrev read_bytes : List (Result Str Str × Bool) → Str
read_bytes [] = []
read_bytes ((err e, sent) ∷ rest) = []
read_bytes ((ok [], sent) ∷ rest) = []
read_bytes ((ok (b ∷ bs), sent) ∷ rest) = (b ∷ bs) ++ read_bytes rest

abbrev content : Captured → Str
content missing = []
content (unopened e) = []
content (opened reads) = read_bytes reads

abbrev same_stream : OutputStream → OutputStream → Bool
same_stream stdout stdout = true
same_stream stderr stderr = true
same_stream terminal terminal = true
same_stream stdin stdin = true
same_stream _ _ = false

-- The bytes of the chunks of one stream, in the order in which they are sent.
abbrev pub payload : OutputStream → List CommandAct → Str
payload stream [] = []
payload stream (forward_chunk c ∷ acts) =
    (if same_stream c.stream stream then c.bytes else []) ++ payload stream acts
payload stream (_ ∷ acts) = payload stream acts

abbrev pub is_cancel : CommandAct → Bool
is_cancel ask_cancel = true
is_cancel _ = false

abbrev pub is_loss : Inbound → Bool
is_loss close = true
is_loss (failed e) = true
is_loss silence = true
is_loss _ = false

abbrev is_unsent : Captured → Bool
is_unsent (opened reads) = any (λ r. not r.1) reads
is_unsent _ = false

pub payload-append :
    (w : OutputStream) (xs ys : List CommandAct)
    → payload w (xs ++ ys) ≡ payload w xs ++ payload w ys
payload-append w [] ys = refl
payload-append w (forward_chunk c ∷ xs) ys = rw (payload-append w xs ys) (
    sym
      (append_assoc (if same_stream c.stream w then c.bytes else []) (payload w xs) (payload w ys)))
payload-append w (ask_cancel ∷ xs) ys = payload-append w xs ys
payload-append w (answer_ping ∷ xs) ys = payload-append w xs ys
payload-append w (process p ∷ xs) ys = payload-append w xs ys
payload-append w (purge_capture ∷ xs) ys = payload-append w xs ys

-- A loss ends the loop, after the command was asked to stop.
pub supervise_lem :
    (id : ExecId) (inbound : List Inbound) (w : OutputStream)
    → ((supervise id inbound).1 ≡ any is_loss inbound)
      × ((supervise id inbound).1 ≡ true → any is_cancel (supervise id inbound).0 ≡ true)
      × (payload w (supervise id inbound).0 ≡ [])
unfolding supervise
supervise_lem id [] w = (refl, (λ h. cc), refl)
supervise_lem id (text frame ∷ rest) w = ground (arith, supervise_lem id rest w)
supervise_lem id (bad_text e ∷ rest) w = supervise_lem id rest w
supervise_lem id (ping ∷ rest) w = supervise_lem id rest w
supervise_lem id (close ∷ rest) w = (refl, (λ h. refl), refl)
supervise_lem id (failed e ∷ rest) w = (refl, (λ h. refl), refl)
supervise_lem id (silence ∷ rest) w = (refl, (λ h. refl), refl)
supervise_lem id (other ∷ rest) w = supervise_lem id rest w

-- Whether the stream's file is read to its end without a failure.
abbrev reads_whole : List (Result Str Str × Bool) → Bool
reads_whole [] = true
reads_whole ((err e, sent) ∷ rest) = false
reads_whole ((ok [], sent) ∷ rest) = true
reads_whole ((ok (b ∷ bs), sent) ∷ rest) = reads_whole rest

abbrev is_whole : Captured → Bool
is_whole missing = true
is_whole (unopened e) = false
is_whole (opened reads) = reads_whole reads

abbrev is_unopened : Captured → Bool
is_unopened (unopened e) = true
is_unopened _ = false

same_stream_refl : (w : OutputStream) → same_stream w w ≡ true
same_stream_refl stdout = refl
same_stream_refl stderr = refl
same_stream_refl terminal = refl
same_stream_refl stdin = refl

forward_reads_lem :
    (id : ExecId) (w v : OutputStream) (reads : List (Result Str Str × Bool))
    → let f = forward_reads id w reads in
      (f.lost ≡ false
        → (payload w (map forward_chunk f.chunks) ≡ read_bytes reads)
          × (is_none f.failure ≡ reads_whole reads))
      × (same_stream w v ≡ false → payload v (map forward_chunk f.chunks) ≡ [])
      × (f.lost ≡ true → any (λ r. not r.1) reads ≡ true)
unfolding forward_reads
forward_reads_lem id w v [] = (λ h. (refl, refl), λ h. refl, λ h. cc)
forward_reads_lem id w v ((err e, sent) ∷ rest) = (λ h. (refl, refl), λ h. refl, λ h. cc)
forward_reads_lem id w v ((ok [], sent) ∷ rest) = (λ h. (refl, refl), λ h. refl, λ h. cc)
forward_reads_lem id w v ((ok (b ∷ bs), true) ∷ rest) =
    let (whole, apart, unsent) = forward_reads_lem id w v rest in
    (
      λ h. (rw (same_stream_refl w, if◌then◌else◌, (whole h).0) refl, (whole h).1),
      λ h. rw (h, if◌then◌else◌) (apart h),
      unsent,
    )
forward_reads_lem id w v ((ok (b ∷ bs), false) ∷ rest) =
    (λ h. cc, λ h. rw (h, if◌then◌else◌) refl, λ h. refl)

pub exec_result_lem :
    (execute : ExecuteFrame) (machine : Machine)
    → (exec_result execute.request_id (run_exec execute machine).1).request_id ≡ execute.request_id
unfolding run_exec errored
exec_result_lem execute machine = elim (Option-cases machine.setup_error) [
  | inl e ↦ rw e refl
  | inr (message, e) ↦ rw e refl
]

with_error_lem :
    (failure : Option Str) (result : ResultFrame)
    → ((e : Option Str)
        → ◌≡◌ {A = ResultFrame}
            (record (with_error failure result) { error = e })
            (record result { error = e }))
      × ((with_error failure result).error ≡ none
          → (is_none failure ≡ true) × (result.error ≡ none))
with_error_lem none result = (λ e. refl, λ h. (refl, h))
with_error_lem (some e) result = (λ e. refl, λ h. cc)

-- What the two streams bring: the result of the command, but for an error of theirs, and their bytes.
abbrev pub AreForwarded : Captured → Captured → ResultFrame → List CommandAct → CmdOutcome → Type 0
AreForwarded out errors result acts (command_done r) =
    (r ≡ record result { error = r.error })
    × (payload stdout acts ≡ content out)
    × (payload stderr acts ≡ (if is_unopened out then [] else content errors))
    × (r.error ≡ none → (result.error ≡ none) × ((is_whole out && is_whole errors) ≡ true))
AreForwarded out errors result acts command_lost = (is_unsent out || is_unsent errors) ≡ true

forward_stderr_lem :
    (id : ExecId) (errors : Captured) (result : ResultFrame)
    → let f = forward_streams id ((stderr, errors) ∷ []) result in
      AreForwarded missing errors result (map forward_chunk f.0) f.1
unfolding forward_streams
forward_stderr_lem id missing result = (refl, refl, refl, λ h. (h, refl))
forward_stderr_lem id (unopened e) result = (refl, refl, refl, λ h. cc)
forward_stderr_lem id (opened reads) result =
    let f = forward_reads id stderr reads in
    let (whole, apart, unsent) = forward_reads_lem id stderr stdout reads in
    let kept = with_error_lem f.failure result in
    elim (Bool-cases f.lost) [
      | inl e ↦ rw (e, if◌then◌else◌) (unsent e)
      | inr e ↦
          rw (e, if◌then◌else◌, append-nil)
            (
              kept.0 (with_error f.failure result).error,
              apart refl,
              (whole e).0,
              λ h. ((kept.1 h).1, sym (whole e).1 ∙ (kept.1 h).0),
            )
    ]

joined :
    (reads : List (Result Str Str × Bool)) (errors : Captured) (result : ResultFrame)
    (failure : Option Str) (here acts : List CommandAct) (outcome : CmdOutcome)
    → payload stdout here ≡ read_bytes reads
    → payload stderr here ≡ []
    → is_none failure ≡ reads_whole reads
    → AreForwarded missing errors (with_error failure result) acts outcome
    → AreForwarded (opened reads) errors result (here ++ acts) outcome
joined reads errors result failure here acts (command_done r) out apart whole
      (kept, no_out, bytes, clean) =
    let same = with_error_lem failure result in
    (
      kept ∙ same.0 r.error,
      rw (payload-append stdout here acts, out, no_out, append-nil) refl,
      rw (payload-append stderr here acts, apart) bytes,
      λ e.
          let none_failed = same.1 (clean e).0 in
          (none_failed.1, ground (arith, (clean e).1, whole, none_failed.0)),
    )
joined reads errors result failure here acts command_lost out apart whole h = ground (arith, h)

map-append :
    (xs ys : List OutputChunk)
    → map forward_chunk (xs ++ ys) ≡ map forward_chunk xs ++ map forward_chunk ys
map-append [] ys = refl
map-append (x ∷ xs) ys = ap (λ zs. forward_chunk x ∷ zs) (map-append xs ys)

pub forward_streams_lem :
    (id : ExecId) (out errors : Captured) (result : ResultFrame)
    → let f = forward_streams id ((stdout, out) ∷ (stderr, errors) ∷ []) result in
      AreForwarded out errors result (map forward_chunk f.0) f.1
unfolding forward_streams
forward_streams_lem id missing errors result = forward_stderr_lem id errors result
forward_streams_lem id (unopened e) errors result = (refl, refl, refl, λ h. cc)
forward_streams_lem id (opened reads) errors result =
    let f = forward_reads id stdout reads in
    let (whole, _, unsent) = forward_reads_lem id stdout stdout reads in
    let (_, apart, _) = forward_reads_lem id stdout stderr reads in
    let later = forward_streams id ((stderr, errors) ∷ []) (with_error f.failure result) in
    elim (Bool-cases f.lost) [
      | inl e ↦ rw (e, if◌then◌else◌) (ground (arith, unsent e))
      | inr e ↦
          rw (e, if◌then◌else◌, map-append f.chunks later.0)
            (joined reads errors result f.failure (map forward_chunk f.chunks)
              (map forward_chunk later.0) later.1 (whole e).0 (apart refl) (whole e).1
              (forward_stderr_lem id errors (with_error f.failure result)))
    ]
