-- ===== src/Worker/Stateful.antt =====
-- client.rs: `prepare_stateful_job`, `read_shell_state` and `watch_stateful_job`, a command that runs in
-- the session's shell. The files and the clock are arguments.
pub mod Quoting
pub mod Snapshot
pub mod Watch
use shiitake.Prelude.{
  ℕ, zero, suc, ◌+◌, ◌-◌, ◌*◌, ◌/◌, ◌%◌, ◌^◌, ◌≤◌, ◌<◌, String, ◌≡◌, refl, sym, ap, ◌∙◌, ◌≢◌, ◌↔◌,
  ◌⊎◌, inl, inr, Bool, true, false, not, ◌&&◌, ◌||◌, Option, none, some, List, [], ◌∷◌, ◌++◌, map,
  arith, ltb, leb, ◌==◌, if◌then◌else◌, ltb→lt, leb→le, ==_iff, Bool-cases, Option-cases, is_some,
  is_none, length, take, drop, is_empty, all, any, retain, count, All, length-append, count-append,
  All-append, take-length-append, drop-length-append, take-append-drop, length-take, All-retain,
  Str, str, str_eq, str_eq_iff, str_eq_refl, str_le, str_le-total, is_ascii_alphanumeric, Result,
  ok, err, ◌>>=◌, ok_or, ℤ, pos, negsuc,
}
use shiitake.Prelude.Map.{Map, insert}
use shiitake.Prelude.Strings.{concat, split, trim, parse_i32}
use shiitake.Api.Wire.{ExecId, ExecuteFrame, ResultFrame, default_usage}
use shiitake.Api.Capture.{Stream, handle_dir, stream_path, join}
use shiitake.Api.Utf8.{is_utf8, from_utf8_lossy}
use shiitake.Worker.Session.Handle.{Event, job_interrupt, job_abort, job_result}

-- `replace('\'', "'\\''")`
unfoldable pub replace_quotes : Str → Str
replace_quotes [] = []
replace_quotes (b ∷ bs) =
    let rest = replace_quotes bs in if b == 39 then 39 ∷ 92 ∷ 39 ∷ 39 ∷ rest else b ∷ rest

-- A path is bytes; `to_string_lossy` comes first.
unfoldable pub shell_quote : Str → Str
unfolding replace_quotes from_utf8_lossy
shell_quote path = 39 ∷ (replace_quotes (from_utf8_lossy path) ++ 39 ∷ [])

-- The line that is written to the shell, before its end.
abbrev pub finish_pieces : Str → Str → Str → Str → Str → Str → Str → List Str
finish_pieces cwd env status script out errors nonce =
    str "__shiitake_finish() { printf '%s' \"$PWD\" > "
    ∷ cwd
    ∷ str
        "; while IFS= read -r __shiitake_name; do printf '%s=%s\\0' \"$__shiitake_name\" \"${!__shiitake_name}\"; done < <(compgen -e) > "
    ∷ env
    ∷ str "; printf '%s' \"$1\" > "
    ∷ status
    ∷ str "; }; __shiitake_interrupted=0; trap '__shiitake_interrupted=1; return 130' INT; source "
    ∷ script
    ∷ str " > "
    ∷ out
    ∷ str " 2> "
    ∷ errors
    ∷ str
        "; __shiitake_rc=$?; trap - INT; if [[ \"$__shiitake_interrupted\" == 1 ]]; then __shiitake_rc=130; fi; __shiitake_finish \"$__shiitake_rc\"; printf '\\033]shiitake-complete:"
    ∷ nonce
    ∷ str "\\007'"
    ∷ (10 ∷ [])
    ∷ []

-- `prepare_stateful_job`: an error of the file system, or the line and the marker.
unfoldable pub prepare_stateful_job : Str → ExecuteFrame → Str → Option Str → Result (Str × Str) Str
unfolding shell_quote handle_dir stream_path
prepare_stateful_job root execute nonce (some e) = err e
prepare_stateful_job root execute nonce none =
    let dir = handle_dir root execute.request_id in
    ok (
      concat (
          finish_pieces (shell_quote (join dir (str "cwd"))) (shell_quote (join dir (str "env")))
            (shell_quote (join dir (str "status"))) (shell_quote (join dir (str "command.sh")))
            (shell_quote (stream_path root execute.request_id Stream.stdout))
            (shell_quote (stream_path root execute.request_id Stream.stderr)) nonce),
      27 ∷ (str "]shiitake-complete:" ++ nonce ++ 7 ∷ []),
    )

-- `split_once`
unfoldable pub split_once : ℕ → Str → Option (Str × Str)
split_once separator [] = none
split_once separator (b ∷ bs) =
    let rest = split_once separator bs in
    if b == separator
    then some ([], bs)
    else elim rest [ none ↦ none | some (before, after) ↦ some (b ∷ before, after) ]

-- The loop over the entries of the environment.
unfoldable pub read_entries : Map Str → List Str → Result (Map Str) Str
unfolding split_once
read_entries env [] = ok env
read_entries env (entry ∷ rest) =
    let env' : Map Str = elim (split_once b'=' entry) [
      | none ↦ env
      | some (key, value) ↦ insert key value env
    ] in
    let skipped = read_entries env rest in
    let more = read_entries env' rest in
    if is_empty entry
    then skipped
    else if is_utf8 entry
    then more
    else err (str "invalid utf-8 sequence")

-- `read_shell_state`, from the texts of the two files or the errors of reading them.
unfoldable pub read_shell_state : Result Str Str → Result Str Str → Result (Str × Map Str) Str
unfolding read_entries
read_shell_state cwd env = do
  dir ← cwd
  bytes ← env
  read ← read_entries [] (split 0 [] bytes)
  ok (dir, read)

-- What the shell prints of its exported variables.
unfoldable pub print_env : Map Str → Str
print_env [] = []
print_env ((name, value) ∷ rest) = name ++ b'=' ∷ (value ++ 0 ∷ print_env rest)

-- One look of the watching task: whether the marker was seen, the text of the status file, the
-- cancellation, whether the interrupt could be sent, and whether two seconds have passed since it.
pub record Look : Type 0 where
  pub completed : Bool
  pub status : Option Str
  pub cancel : Bool
  pub sent : Bool
  pub late : Bool

-- The status that ends the watch, if the look has one.
unfoldable pub finished : Look → Option ℤ
finished look =
    if look.completed
    then elim look.status [ none ↦ none | some code ↦ parse_i32 (trim code) ]
    else none

-- A look that ends the watch with its status, or that finds none: it interrupts the command once, ends the
-- watch where that cannot be sent, gives the command up two seconds after, or leaves it to later looks.
unfoldable pub watch_look :
    ExecId
    → Result (Str × Map Str) Str
    → Bool
    → Look
    → Option ℤ
    → List Event × Bool
    → List Event × Bool
watch_look id state interrupted look (some code) later = (
  job_result
        (record {
          request_id = id;
          exit_code = some code;
          exit_signal = none;
          cancelled = interrupted;
          usage = default_usage;
          error = none;
        })
        state
      ∷ [],
  true,
)
watch_look id state interrupted look none later =
    if look.cancel && not interrupted
    then if look.sent then (job_interrupt ∷ later.0, later.1) else ([], true)
    else if interrupted && look.late
    then (job_abort id ∷ [], true)
    else later

-- `watch_stateful_job`, by whether the command was interrupted: the events that it sends, and whether
-- it has ended. The state of the shell is read where the result is handled.
unfoldable pub watch_stateful_job :
    ExecId → Result (Str × Map Str) Str → Bool → List Look → List Event × Bool
unfolding finished watch_look
watch_stateful_job id state interrupted [] = ([], false)
watch_stateful_job id state interrupted (look ∷ looks) =
    watch_look id state interrupted look (finished look)
      (watch_stateful_job id state (interrupted || look.cancel) looks)
