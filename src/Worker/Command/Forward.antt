-- ===== src/Worker/Command/Forward.antt =====
-- client.rs: what `run_command` reports.
use shiitake.Prelude.{
  ◌≡◌, refl, sym, ◌∙◌, ◌⊎◌, inl, inr, Bool, true, false, List, [], ◌∷◌, ◌++◌, map, arith,
  if◌then◌else◌, Bool-cases, any,
}
use mathlib.Core.List.{append-nil}
use shiitake.Api.Wire.{ExecuteFrame, ResultFrame}
use shiitake.Api.Chunk.{OutputStream, stdout, stderr, OutputChunk}
use shiitake.Worker.Exec.{ProcessAct, Machine, run_exec}
use shiitake.Worker.Serve.{Inbound}
use shiitake.Worker.Serve.Rounds.{CmdOutcome, command_done, command_lost}
use shiitake.Worker.Command.{
  CommandAct, process, forward_chunk, purge_capture, supervise, Captured, forward_streams,
  exec_result, run_command,
}
use shiitake.Worker.Command.Streams.{
  payload, is_cancel, is_loss, payload-append, supervise_lem, exec_result_lem, AreForwarded,
  forward_streams_lem,
}

payload-process : (w : OutputStream) (acts : List ProcessAct) → payload w (map process acts) ≡ []
payload-process w [] = refl
payload-process w (a ∷ acts) = payload-process w acts

-- The acts around the chunks carry no output.
payload_around :
    (w : OutputStream) (watched : List CommandAct) (acts : List ProcessAct)
    (chunks : List OutputChunk)
    → payload w watched ≡ []
    → payload w (watched ++ map process acts ++ map forward_chunk chunks ++ purge_capture ∷ [])
      ≡ payload w (map forward_chunk chunks)
payload_around w watched acts chunks h =
    rw
      (
        payload-append w (watched ++ map process acts ++ map forward_chunk chunks)
            (purge_capture ∷ []),
        payload-append w (watched ++ map process acts) (map forward_chunk chunks),
        payload-append w watched (map process acts),
        h,
        payload-process w acts,
        append-nil,
      )
      refl

AreForwarded-payload :
    (out errors : Captured) (result : ResultFrame) (acts acts' : List CommandAct)
    (outcome : CmdOutcome)
    → payload stdout acts' ≡ payload stdout acts
    → payload stderr acts' ≡ payload stderr acts
    → AreForwarded out errors result acts outcome
    → AreForwarded out errors result acts' outcome
AreForwarded-payload out errors result acts acts' (command_done r) eo ee
      (kept, bytes, more, clean) =
    (kept, eo ∙ bytes, ee ∙ more, clean)
AreForwarded-payload out errors result acts acts' command_lost eo ee h = h

any-append :
    (p : CommandAct → Bool) (xs ys : List CommandAct) → any p xs ≡ true → any p (xs ++ ys) ≡ true
any-append p (x ∷ xs) ys h = ground (arith, any-append p xs ys)
any-append p [] ys h = cc

abbrev pub IsReported : ExecuteFrame → List Inbound → Machine → Captured → Captured → Type 0
IsReported execute inbound machine out errors =
    let run = run_command execute inbound machine out errors in
    let result = exec_result execute.request_id (run_exec execute machine).1 in
    (result.request_id ≡ execute.request_id)
    × ((any is_loss inbound ≡ true) × (any is_cancel run.0 ≡ true) × (run.1 ≡ command_lost)
        ⊎ (any is_loss inbound ≡ false) × AreForwarded out errors result run.0 run.1)

-- The result of a command is under the command's id. If the connection is lost or silent for a lease
-- while it runs, it is asked to stop and no result is reported. Otherwise the result that is reported is
-- the command's but for an error in its output; the chunks of each stream are, in order, the bytes that
-- could be read (of stderr none where stdout could not be opened), all of them where the result has no
-- error; and only a chunk that could not be sent withholds the result.
pub run_command-IsReported :
    (execute : ExecuteFrame) (inbound : List Inbound) (machine : Machine) (out errors : Captured)
    → IsReported execute inbound machine out errors
unfolding run_command
run_command-IsReported execute inbound machine out errors =
    let id = execute.request_id in
    let result = exec_result id (run_exec execute machine).1 in
    let acts = (run_exec execute machine).0 in
    let watched = supervise id inbound in
    let (lost, cancels, silent) = supervise_lem id inbound stdout in
    let (_, _, quiet) = supervise_lem id inbound stderr in
    let f = forward_streams id ((stdout, out) ∷ (stderr, errors) ∷ []) result in
    (
      exec_result_lem execute machine,
      elim (Bool-cases watched.1) [
        | inl e ↦ inl (
          sym lost ∙ e,
          rw (e, if◌then◌else◌) (any-append is_cancel watched.0 (map process acts) (cancels e)),
          rw (e, if◌then◌else◌) refl,
        )
        | inr e ↦ inr (
          sym lost ∙ e,
          rw (e, if◌then◌else◌)
              (AreForwarded-payload out errors result (map forward_chunk f.0)
                (watched.0 ++ map process acts ++ map forward_chunk f.0 ++ purge_capture ∷ []) f.1
                (payload_around stdout watched.0 acts f.0 silent)
                (payload_around stderr watched.0 acts f.0 quiet)
                (forward_streams_lem id out errors result)),
        )
      ],
    )
