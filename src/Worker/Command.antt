-- ===== src/Worker/Command.antt =====
-- client.rs: `run_command`, a command outside a session. What the socket brings while it runs, its end
-- and the reads of its captured streams are arguments.
pub mod Streams
pub mod Forward
use shiitake.Prelude.{
  ℕ, zero, suc, ◌+◌, ◌-◌, ◌*◌, ◌/◌, ◌%◌, ◌^◌, ◌≤◌, ◌<◌, String, ◌≡◌, refl, sym, ap, ◌∙◌, ◌≢◌, ◌↔◌,
  ◌⊎◌, inl, inr, Bool, true, false, not, ◌&&◌, ◌||◌, Option, none, some, List, [], ◌∷◌, ◌++◌, map,
  arith, ltb, leb, ◌==◌, if◌then◌else◌, ltb→lt, leb→le, ==_iff, Bool-cases, Option-cases, is_some,
  is_none, length, take, drop, is_empty, all, any, retain, count, All, length-append, count-append,
  All-append, take-length-append, drop-length-append, take-append-drop, length-take, All-retain,
  Str, str, str_eq, str_eq_iff, str_eq_refl, str_le, str_le-total, is_ascii_alphanumeric, Result,
  ok, err, ◌>>=◌, ok_or, ℤ, pos, negsuc,
}
use shiitake.Api.Wire.{ExecId, ExecuteFrame, ResultFrame, errored, Frame}
use shiitake.Api.Chunk.{OutputStream, OutputChunk}
use shiitake.Worker.Exec.{ProcessAct, Machine, run_exec}
use shiitake.Worker.Serve.{Inbound, text, bad_text, ping, close, failed, other, silence}
use shiitake.Worker.Serve.Rounds.{CmdOutcome, command_done, command_lost}

pub data CommandAct : Type 0 where
  ask_cancel : CommandAct
  answer_ping : CommandAct
  process : ProcessAct → CommandAct
  forward_chunk : OutputChunk → CommandAct
  purge_capture : CommandAct

-- The loop while the command runs, over what it sees before the command ends; the Boolean tells whether
-- the session is lost, after which only the end of the command is awaited.
unfoldable pub supervise : ExecId → List Inbound → List CommandAct × Bool
supervise id [] = ([], false)
supervise id (text (Frame.cancel rid) ∷ rest) =
    let later = supervise id rest in
    if str_eq rid id then (ask_cancel ∷ later.0, later.1) else later
supervise id (text _ ∷ rest) = supervise id rest
supervise id (bad_text e ∷ rest) = supervise id rest
supervise id (ping ∷ rest) = let later = supervise id rest in (answer_ping ∷ later.0, later.1)
supervise id (close ∷ rest) = (ask_cancel ∷ [], true)
supervise id (failed e ∷ rest) = (ask_cancel ∷ [], true)
supervise id (silence ∷ rest) = (ask_cancel ∷ [], true)
supervise id (other ∷ rest) = supervise id rest

-- A captured stream: no file, a file that cannot be opened, or its reads, each with whether the chunk
-- of it could be sent within the lease. After the last read comes the end of the file.
pub data Captured : Type 0 where
  missing : Captured
  unopened : Str → Captured
  opened : List (Result Str Str × Bool) → Captured

pub record Forwarding : Type 0 where
  pub chunks : List OutputChunk
  pub lost : Bool
  pub failure : Option Str

abbrev unread_output : Str → Str
unread_output e = str "could not read command output: " ++ e

abbrev chunk_of : ExecId → OutputStream → Str → OutputChunk
chunk_of request_id stream read = record { stream = stream; id = request_id; bytes = read }

-- The inner loop. An empty read is the end of the file.
unfoldable pub forward_reads : ExecId → OutputStream → List (Result Str Str × Bool) → Forwarding
forward_reads id stream [] = record { chunks = []; lost = false; failure = none }
forward_reads id stream ((err e, sent) ∷ rest) = record {
  chunks = [];
  lost = false;
  failure = some (unread_output e);
}
forward_reads id stream ((ok [], sent) ∷ rest) = record {
  chunks = [];
  lost = false;
  failure = none;
}
forward_reads id stream ((ok (b ∷ bs), sent) ∷ rest) =
    let later = forward_reads id stream rest in
    if sent
    then record later { chunks = chunk_of id stream (b ∷ bs) ∷ later.chunks }
    else record { chunks = chunk_of id stream (b ∷ bs) ∷ []; lost = true; failure = none }

abbrev pub with_error : Option Str → ResultFrame → ResultFrame
with_error none result = result
with_error (some e) result = record result { error = some e }

-- The loop over the two streams. One that cannot be opened ends it, one that cannot be read does not.
unfoldable pub forward_streams :
    ExecId → List (OutputStream × Captured) → ResultFrame → List OutputChunk × CmdOutcome
unfolding forward_reads
forward_streams id [] result = ([], command_done result)
forward_streams id ((stream, missing) ∷ rest) result = forward_streams id rest result
forward_streams id ((stream, unopened e) ∷ rest) result =
    ([], command_done (with_error (some (unread_output e)) result))
forward_streams id ((stream, opened reads) ∷ rest) result =
    let here = forward_reads id stream reads in
    let later = forward_streams id rest (with_error here.failure result) in
    if here.lost then (here.chunks, command_lost) else (here.chunks ++ later.0, later.1)

abbrev pub exec_result : ExecId → Result ResultFrame Str → ResultFrame
exec_result id (ok result) = result
exec_result id (err e) = errored id (str "worker error: " ++ e)

-- `run_command`. The child's acts, which its own task does meanwhile, stand after the loop's.
unfoldable pub run_command :
    ExecuteFrame → List Inbound → Machine → Captured → Captured → List CommandAct × CmdOutcome
unfolding supervise run_exec forward_streams
run_command execute inbound machine out errors =
    let (watched, lost) = supervise execute.request_id inbound in
    let (acts, ended) = run_exec execute machine in
    let (chunks, outcome) =
      forward_streams execute.request_id
        ((OutputStream.stdout, out) ∷ (OutputStream.stderr, errors) ∷ [])
        (exec_result execute.request_id ended) in
    if lost
    then (watched ++ map process acts, command_lost)
    else (watched ++ map process acts ++ map forward_chunk chunks ++ purge_capture ∷ [], outcome)
