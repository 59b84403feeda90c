-- ===== src/Examples/Commands.antt =====
-- The theorems on single commands, at one that runs and one in a shell.
use shiitake.Prelude.{
  ◌≡◌, refl, true, false, none, some, List, [], ◌∷◌, ◌++◌, Str, str, str_eq, ok, err, pos,
}
use shiitake.Prelude.Map.{Map, get}
use shiitake.Prelude.Strings.{concat}
use shiitake.Prelude.Strings.Laws.{lacks}
use shiitake.Api.Utf8.{is_utf8, from_utf8_lossy}
use shiitake.Worker.Exec.{Machine, child_done, ExitStatus}
use shiitake.Worker.Command.{Captured, opened}
use shiitake.Worker.Command.Forward.{IsReported, run_command-IsReported}
use shiitake.Worker.Stateful.{shell_quote, prepare_stateful_job, read_shell_state, print_env, Look}
use shiitake.Worker.Stateful.Quoting.{
  shell_word, shell_word-shell_quote, prepare_stateful_job-IsUnseen,
}
use shiitake.Worker.Stateful.Snapshot.{read_shell_state-print_env}
use shiitake.Worker.Marker.{feed_all, new_completion}
use shiitake.Worker.Serve.{Inbound}
use shiitake.Examples.{a_command, an_execute}

abbrev a_machine : Machine
a_machine = record {
  setup_error = none;
  pid = 7;
  waiting = child_done (some (ExitStatus.code (pos 0)));
  cgroup = record {
    cpu_before = none;
    cpu_after = none;
    memory_peak = none;
    memory_max_v2 = none;
    memory_max_v1 = none;
  };
}

-- Two reads of stdout, and an error after one of stderr.
abbrev some_out : Captured
some_out = opened ((ok (str "a"), true) ∷ (ok (str "b"), true) ∷ [])

abbrev some_errors : Captured
some_errors = opened ((ok (str "c"), true) ∷ (err (str "gone"), true) ∷ [])

run_command-IsReported_example :
    IsReported (an_execute a_command) (Inbound.ping ∷ []) a_machine some_out some_errors
run_command-IsReported_example =
    run_command-IsReported (an_execute a_command) (Inbound.ping ∷ []) a_machine some_out some_errors

shell_word-shell_quote_example :
    shell_word false (39 ∷ str "it" ++ 39 ∷ 92 ∷ 39 ∷ 39 ∷ str "s" ++ 39 ∷ 32 ∷ [])
    ≡ some (str "it" ++ 39 ∷ str "s", 32 ∷ [])
unfolding shell_quote is_utf8 from_utf8_lossy
shell_word-shell_quote_example = shell_word-shell_quote (str "it" ++ 39 ∷ str "s") 32 [] refl

abbrev a_line : Str
a_line = elim (prepare_stateful_job (str "/capture") (an_execute a_command) (str "n") none) [
  | ok pair ↦ pair.0
  | err e ↦ []
]

prepare_stateful_job-IsUnseen_example :
    (lacks 27 a_line ≡ true)
    × ((reads : List Str)
        → concat reads ≡ a_line
        → (feed_all (new_completion (27 ∷ str "]shiitake-complete:n" ++ 7 ∷ [])) reads).1.seen
          ≡ false)
unfolding prepare_stateful_job
prepare_stateful_job-IsUnseen_example =
    prepare_stateful_job-IsUnseen (str "/capture") (an_execute a_command) (str "n") none a_line
      (27 ∷ str "]shiitake-complete:n" ++ 7 ∷ []) refl refl refl

abbrev an_env : Map Str
an_env = (str "HOME", str "/home/ann") ∷ (str "A", str "x=y") ∷ []

read_shell_state-print_env_example :
    read_shell_state (ok (str "/work")) (ok (print_env an_env)) ≡ ok (str "/work", an_env)
unfolding get is_utf8 str_eq
read_shell_state-print_env_example =
    read_shell_state-print_env (str "/work") an_env ((refl, refl, refl), ((refl, refl, refl), tt))
      (refl, (refl, tt))

-- The command is interrupted, and the shell then reports 130.
abbrev some_looks : List Look
some_looks =
    record { completed = false; status = none; cancel = true; sent = true; late = false }
    ∷ record {
      completed = true;
      status = some (str "130");
      cancel = true;
      sent = true;
      late = false;
    }
    ∷ []
