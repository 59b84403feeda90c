-- ===== src/Worker/Session/Ledger.antt =====
-- client.rs, `run_session`: the account of the jobs over a whole session.
use shiitake.Prelude.{
  ℕ, ◌+◌, ◌≤◌, ◌≡◌, refl, ap, ◌∙◌, ◌⊎◌, inl, inr, Bool, true, false, Option, none, some, List, [],
  ◌∷◌, ◌++◌, map, arith, if◌then◌else◌, Bool-cases, Option-cases, is_some, is_none, count,
  count-append, Str,
}
use shiitake.Prelude.Map.{get, keys}
use shiitake.Api.Wire.{ExecId, SessionId, SessionOpenFrame}
use shiitake.Worker.Session.{Act, Session, Shell, start_ready, cancel_job, shutdown, purge}
use shiitake.Worker.Session.Run.{session_loop, new_session, finish, Start, run_session}
use shiitake.Worker.Session.Handle.{Event, Step, on_event}
use shiitake.Worker.Session.Jobs.{
  is_answer, pending, IsWithin, submits, IsOwn, start_ready-Keeps, start_ready-IsWithin,
  start_ready_opened,
}
use shiitake.Worker.Session.Answers.{on_event-Turns, on_event_opened, on_event-IsWithin}

-- How often a command is sent to the session.
abbrev pub submitted : ExecId → SessionId → List (Event × Bool) → ℕ
submitted id own [] = 0
submitted id own ((event, sent) ∷ events) = submits id event own + submitted id own events

-- Every task's report is of a job that runs at the time.
abbrev pub AllOwn : Shell → List (Event × Bool) → Session → Type 0
AllOwn shell [] s = Unit
AllOwn shell ((event, sent) ∷ events) s =
    IsOwn event (start_ready shell s).1
    × AllOwn shell events (on_event sent event (start_ready shell s).1).2

-- The account of one job over the loop.
abbrev Accounts : ExecId → ℕ → Step → Type 0
Accounts id n (more, acts, s) =
    (count (is_answer id) acts ≤ n)
    × (more ≡ true → count (is_answer id) acts + pending id s.queued s ≡ n)

none_of : (o : Option Str) → is_none o ≡ true → o ≡ none
none_of none h = refl
none_of (some a) h = cc

module _ (shell : Shell) (id : ExecId) (own : SessionId) where
  session_loop-Accounts :
      (events : List (Event × Bool)) (s : Session)
      → s.opened.session_id ≡ own
      → IsWithin s.queued s
      → AllOwn shell events s
      → Accounts id (submitted id own events + pending id s.queued s) (session_loop shell events s)
  unfolding session_loop
  session_loop-Accounts [] s same w h =
      let kept = start_ready-Keeps shell id s w in
      (omega (arith, kept.0), λ goes. omega (arith, kept.1 (none_of _ goes)))
  session_loop-Accounts ((event, sent) ∷ events) s same w h =
      let s' = (start_ready shell s).1 in
      let kept = start_ready-Keeps shell id s w in
      let turn = on_event-Turns id sent event s' h.0 in
      let still : s'.opened.session_id ≡ own =
        ap (λ (o : SessionOpenFrame). o.session_id) (start_ready_opened shell s) ∙ same in
      let counts = count-append (is_answer id) (start_ready shell s).0 (on_event sent event s').1 in
      elim (Option-cases s'.close_error) [
        | inr (e, closing) ↦ rw (closing, if◌then◌else◌) (omega (arith, kept.0), λ goes. cc)
        | inl goes_on ↦
            let balance = kept.1 goes_on in
            let turned = rw still at turn in
            elim (Bool-cases (on_event sent event s').0) [
              | inr stops ↦
                  rw (goes_on, stops, if◌then◌else◌)
                    (omega (arith, turned.0, balance, counts), λ goes. cc)
              | inl more ↦
                  let ih =
                    session_loop-Accounts events (on_event sent event s').2
                      (ap (λ (o : SessionOpenFrame). o.session_id) (on_event_opened sent event s')
                        ∙ still)
                      (on_event-IsWithin sent event s' h.0 (start_ready-IsWithin shell s w) more)
                      h.1 in
                  let all_counts =
                    count-append (is_answer id)
                      ((start_ready shell s).0 ++ (on_event sent event s').1)
                      (session_loop shell events (on_event sent event s').2).1 in
                  rw (goes_on, more, if◌then◌else◌)
                    (
                      omega (arith, turned.1 more, balance, counts, all_counts, ih.0),
                      λ goes. omega (arith, turned.1 more, balance, counts, all_counts, ih.1 goes),
                    )
            ]
      ]

loop_answers :
    (shell : Shell) (opened : SessionOpenFrame) (home : Option Str) (events : List (Event × Bool))
    (id : ExecId)
    → AllOwn shell events (new_session opened home)
    → Accounts id
        (submitted id opened.session_id events)
        (session_loop shell events (new_session opened home))
unfolding new_session get
loop_answers shell opened home events id own =
    let account =
      session_loop-Accounts shell id opened.session_id events (new_session opened home) refl
        (record { once = λ k. omega arith; few = omega arith }) own in
    (omega (arith, account.0), λ goes. omega (arith, account.1 goes))

quiet_map :
    (id : ExecId) (f : Str → Act) (ks : List Str)
    → ((k : Str) → is_answer id (f k) ≡ false)
    → count (is_answer id) (map f ks) ≡ 0
quiet_map id f [] quiet = refl
quiet_map id f (k ∷ ks) quiet = ground (arith, quiet k, quiet_map id f ks quiet)

-- What follows the loop answers nobody.
quiet-finish : (id : ExecId) (s : Session) → count (is_answer id) (finish s).0 ≡ 0
unfolding finish
quiet-finish id s = ground (
  arith,
  quiet_map id cancel_job (keys s.running) (λ k. refl),
  quiet_map id purge (keys s.running) (λ k. refl),
  count-append (is_answer id) (map cancel_job (keys s.running) ++ shutdown ∷ [])
      (map purge (keys s.running)),
  count-append (is_answer id) (map cancel_job (keys s.running)) (shutdown ∷ []),
)

-- Over any events of a session, for any command: while the session goes on, it was sent as often as it
-- is answered, runs or waits; once it has ended, it is answered no more often than it was sent. The
-- tasks report only of jobs that run.
pub run_session_answers :
    (shell : Shell) (start : Start) (opened : SessionOpenFrame) (events : List (Event × Bool))
    (id : ExecId)
    → AllOwn shell events (new_session opened start.home)
    → let (acts, outcome) = run_session shell start opened events in
      let s = (session_loop shell events (new_session opened start.home)).2 in
      ((outcome ≡ none)
        × (count (is_answer id) acts + pending id s.queued s
            ≡ submitted id opened.session_id events))
      ⊎ ((is_some outcome ≡ true)
          × (count (is_answer id) acts ≤ submitted id opened.session_id events))
unfolding run_session
run_session_answers shell start opened events id own =
    let account = loop_answers shell opened start.home events id own in
    let (more, acts, s) = session_loop shell events (new_session opened start.home) in
    let closing = count-append (is_answer id) acts (finish s).0 in
    let going = count-append (is_answer id) acts [] in
    let quiet = quiet-finish id s in
    elim (Option-cases start.spawned) [
      | inr (e, unspawned) ↦ rw (unspawned, run_session) (inr (refl, omega arith))
      | inl spawned ↦ elim (Bool-cases start.ready_sent) [
        | inr unready ↦ rw (spawned, unready, run_session, if◌then◌else◌) (inr (refl, omega arith))
        | inl ready ↦ elim (Bool-cases more) [
          | inl goes ↦
              rw (spawned, ready, goes, run_session, if◌then◌else◌)
                (inl (refl, omega (arith, going, account.1 goes)))
          | inr ends ↦
              rw (spawned, ready, ends, run_session, if◌then◌else◌)
                (inr (refl, omega (arith, closing, quiet, account.0)))
        ]
      ]
    ]
