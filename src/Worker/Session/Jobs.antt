-- ===== src/Worker/Session/Jobs.antt =====
-- client.rs, `run_session`: every job is answered once.
use shiitake.Prelude.{
  ℕ, suc, ◌+◌, ◌≤◌, ◌≡◌, refl, inl, inr, Bool, true, false, not, ◌&&◌, ◌||◌, none, List, [], ◌∷◌,
  arith, ltb, if◌then◌else◌, Bool-cases, is_none, length, any, count, Str, str_eq, str_eq_iff,
  str_eq_refl,
}
use shiitake.Prelude.Map.{
  Map, get, contains_key, insert, remove, adjust, get-insert, get-remove, get-adjust,
}
use shiitake.Api.Wire.{
  ExecId, SessionId, SessionCommandMode, stateful, parallel, ExecuteFrame, errored, Frame,
}
use shiitake.Worker.Session.{
  Act, send_frame, Session, Shell, max_jobs, with_state, start_stateful, start_queued, start_ready,
}
use shiitake.Worker.Session.Handle.{Event, job_result, job_abort, text, has_id, remove_queued}

-- The report of a job, whatever it says.
abbrev pub is_answer : ExecId → Act → Bool
is_answer id (send_frame (Frame.result r)) = str_eq r.request_id id
is_answer id _ = false

abbrev pub held : ExecId → Map Bool → ℕ
held id running = if contains_key id running then 1 else 0

-- How often a job runs or waits.
abbrev pub pending : ExecId → List (ExecuteFrame × SessionCommandMode) → Session → ℕ
pending id queue s = held id s.running + count (has_id id) queue

-- The jobs of the loop: each stands once, and there are no more than the limit.
pub record IsWithin (queue : List (ExecuteFrame × SessionCommandMode)) (s : Session) : Type 0 where
  pub once : (id : ExecId) → pending id queue s ≤ 1
  pub few : length s.running + length queue ≤ max_jobs

contains_key-insert :
    (k id : Str) (m : Map Bool)
    → contains_key id (insert k false m) ≡ (str_eq k id || contains_key id m)
contains_key-insert k id m = ground (arith, get-insert k id false m)

contains_key-remove :
    (k id : Str) (m : Map Bool)
    → contains_key id (remove k m) ≡ (not (str_eq k id) && contains_key id m)
contains_key-remove k id m = ground (arith, get-remove k id m)

length-insert :
    (k : Str) (m : Map Bool) → contains_key k m ≡ false → length (insert k false m) ≡ suc (length m)
unfolding insert get
length-insert k [] h = refl
length-insert k ((j, v) ∷ m) h = ground (arith, length-insert k m)

pub length-remove : (k : Str) (m : Map Bool) → length (remove k m) ≤ length m
unfolding remove
length-remove k [] = omega arith
length-remove k ((j, v) ∷ m) = ground (arith, length-remove k m)

held-insert :
    (k id : Str) (m : Map Bool)
    → contains_key k m ≡ false
    → held id (insert k false m) ≡ held id m + (if str_eq k id then 1 else 0)
held-insert k id m h = elim (Bool-cases (str_eq k id)) [
  | inl e ↦
      let same = (str_eq_iff k id).0 e in
      let absent : contains_key id m ≡ false = rw (← same) h in
      rw (contains_key-insert k id m, e, absent) refl
  | inr e ↦ rw (contains_key-insert k id m, e) (omega arith)
]

-- Reports and jobs together are as many as before, less the one that the shell could not be given.
abbrev pub Keeps : ExecId → ℕ → List Act × Session → Type 0
Keeps id n (acts, s) =
    (count (is_answer id) acts + pending id s.queued s ≤ n)
    × (s.close_error ≡ none → count (is_answer id) acts + pending id s.queued s ≡ n)

abbrev pub can_start : Session → Bool
can_start s = is_none s.stateful_running && ltb (length s.running) max_jobs

-- A session with one more running job.
abbrev pub started : ExecuteFrame → Session → Session
started execute s = record s { running = insert execute.request_id false s.running }

pub head_absent :
    (execute : ExecuteFrame) (mode : SessionCommandMode)
    (rest : List (ExecuteFrame × SessionCommandMode)) (s : Session)
    → IsWithin ((execute, mode) ∷ rest) s
    → contains_key execute.request_id s.running ≡ false
head_absent execute mode rest s w =
    ground (arith, w.once execute.request_id, str_eq_refl execute.request_id)

started-IsWithin :
    (execute : ExecuteFrame) (mode : SessionCommandMode)
    (rest : List (ExecuteFrame × SessionCommandMode)) (s : Session)
    → IsWithin ((execute, mode) ∷ rest) s
    → IsWithin rest (started execute s)
started-IsWithin execute mode rest s w =
    let absent = head_absent execute mode rest s w in
    record {
      once = λ id. omega (arith, w.once id, held-insert execute.request_id id s.running absent);
      few = omega (arith, w.few, length-insert execute.request_id s.running absent);
    }

module _ (shell : Shell) (id : ExecId) where
  start_stateful-Keeps :
      (execute : ExecuteFrame) (s : Session)
      → contains_key execute.request_id s.running ≡ false
      → Keeps id
          ((if str_eq execute.request_id id then 1 else 0) + pending id s.queued s)
          (start_stateful shell execute s)
  unfolding start_stateful errored
  start_stateful-Keeps execute s absent =
      ground (arith, held-insert execute.request_id id s.running absent)

  pub start_queued-Keeps :
      (queue : List (ExecuteFrame × SessionCommandMode)) (s : Session)
      → IsWithin queue s
      → Keeps id (pending id queue s) (start_queued shell queue s)
  unfolding start_queued
  start_queued-Keeps [] s w = (omega arith, λ _. omega arith)
  start_queued-Keeps ((execute, stateful) ∷ rest) s w =
      let absent = head_absent execute stateful rest s w in
      let stepped =
        start_stateful-Keeps (with_state s execute) (record s { queued = rest }) absent in
      elim (Bool-cases (can_start s)) [
        | inl e ↦ rw (e, if◌then◌else◌) (omega (arith, stepped.0), λ h. omega (arith, stepped.1 h))
        | inr e ↦ rw (e, if◌then◌else◌) (omega arith, λ _. omega arith)
      ]
  start_queued-Keeps ((execute, parallel) ∷ rest) s w =
      let absent = head_absent execute parallel rest s w in
      let joined = held-insert execute.request_id id s.running absent in
      let ih =
        start_queued-Keeps rest (started execute s) (started-IsWithin execute parallel rest s w) in
      elim (Bool-cases (can_start s)) [
        | inl e ↦ rw (e, if◌then◌else◌) (omega (arith, ih.0), λ h. omega (arith, ih.1 h))
        | inr e ↦ rw (e, if◌then◌else◌) (omega arith, λ _. omega arith)
      ]

start_queued_few :
    (shell : Shell) (queue : List (ExecuteFrame × SessionCommandMode)) (s : Session)
    → IsWithin queue s
    → length (start_queued shell queue s).1.running + length (start_queued shell queue s).1.queued
      ≤ length s.running + length queue
unfolding start_queued start_stateful
start_queued_few shell [] s w = omega arith
start_queued_few shell ((execute, stateful) ∷ rest) s w =
    ground
      (arith, length-insert execute.request_id s.running (head_absent execute stateful rest s w))
start_queued_few shell ((execute, parallel) ∷ rest) s w =
    let absent = head_absent execute parallel rest s w in
    ground (
      arith,
      length-insert execute.request_id s.running absent,
      start_queued_few shell rest (started execute s) (started-IsWithin execute parallel rest s w),
    )

start_queued_opened :
    (shell : Shell) (queue : List (ExecuteFrame × SessionCommandMode)) (s : Session)
    → (start_queued shell queue s).1.opened ≡ s.opened
unfolding start_queued start_stateful
start_queued_opened shell [] s = refl
start_queued_opened shell ((execute, stateful) ∷ rest) s = ground arith
start_queued_opened shell ((execute, parallel) ∷ rest) s =
    ground (arith, start_queued_opened shell rest (started execute s))

pub start_ready_opened : (shell : Shell) (s : Session) → (start_ready shell s).1.opened ≡ s.opened
unfolding start_ready
start_ready_opened shell s = start_queued_opened shell s.queued s

pub start_ready-Keeps :
    (shell : Shell) (id : ExecId) (s : Session)
    → IsWithin s.queued s
    → Keeps id (pending id s.queued s) (start_ready shell s)
unfolding start_ready
start_ready-Keeps shell id s w = start_queued-Keeps shell id s.queued s w

pub start_ready-IsWithin :
    (shell : Shell) (s : Session)
    → IsWithin s.queued s
    → IsWithin (start_ready shell s).1.queued (start_ready shell s).1
unfolding start_ready
start_ready-IsWithin shell s w = record {
  once = λ id. omega (arith, (start_queued-Keeps shell id s.queued s w).0, w.once id);
  few = omega (arith, start_queued_few shell s.queued s w, w.few);
}

-- A command for this session.
abbrev pub submits : ExecId → Event → SessionId → ℕ
submits id (text (Frame.session_run session execute mode)) own =
    if str_eq session own && str_eq execute.request_id id then 1 else 0
submits id _ own = 0

-- A task reports of a job that runs.
abbrev pub IsOwn : Event → Session → Type 0
IsOwn (job_result r state) s = contains_key r.request_id s.running ≡ true
IsOwn (job_abort id) s = contains_key id s.running ≡ true
IsOwn _ s = Unit

pub count-remove_queued :
    (k id : ExecId) (queue : List (ExecuteFrame × SessionCommandMode))
    → any (has_id k) queue ≡ true
    → count (has_id id) (remove_queued k queue) + (if str_eq k id then 1 else 0)
      ≡ count (has_id id) queue
unfolding remove_queued
count-remove_queued k id [] h = cc
count-remove_queued k id ((execute, mode) ∷ rest) h = ground (
  arith,
  count-remove_queued k id rest,
  str_eq_iff execute.request_id k,
  str_eq_iff execute.request_id id,
  str_eq_iff k id,
)

pub length-remove_queued :
    (k : ExecId) (queue : List (ExecuteFrame × SessionCommandMode))
    → length (remove_queued k queue) ≤ length queue
unfolding remove_queued
length-remove_queued k [] = omega arith
length-remove_queued k (job ∷ rest) = ground (arith, length-remove_queued k rest)

pub count-any :
    (id : ExecId) (queue : List (ExecuteFrame × SessionCommandMode))
    → any (has_id id) queue ≡ false
    → count (has_id id) queue ≡ 0
count-any id [] h = refl
count-any id (job ∷ rest) h = ground (arith, count-any id rest)

pub held-remove :
    (k id : Str) (m : Map Bool)
    → contains_key k m ≡ true
    → held id (remove k m) + (if str_eq k id then 1 else 0) ≡ held id m
held-remove k id m h = ground (arith, contains_key-remove k id m, str_eq_iff k id)

pub held-adjust : (k id : Str) (m : Map Bool) → held id (adjust k (λ _. true) m) ≡ held id m
held-adjust k id m = ground (arith, get-adjust k id (λ _. true) m)

pub length-adjust : (k : Str) (m : Map Bool) → length (adjust k (λ _. true) m) ≡ length m
unfolding adjust
length-adjust k [] = refl
length-adjust k ((j, v) ∷ m) = ground (arith, length-adjust k m)
