-- ===== src/Pool/Sections/Coherent.antt =====
-- The session records: which parts of a record belong to which state.
use shiitake.Prelude.{
  ℕ, ◌≡◌, true, false, Option, none, some, List, [], arith, ltb, is_some, Str, ok,
}
use shiitake.Prelude.Map.{
  Map, adjust, AllValues, insert-AllValues, adjust-AllValues, adjust_at-AllValues, retain-AllValues,
}
use shiitake.Api.Wire.{SessionCommandMode}
use shiitake.Api.Public.{is_active, is_opening, is_closing, is_finished}
use shiitake.Pool.State.{SessionRecord, PoolState, new_pool, clear_inputs}
use shiitake.Pool.Dispatch.{command_done}
use shiitake.Pool.Workers.{fail_session}
use shiitake.Pool.Sessions.{touch_active}
use shiitake.Pool.Sessions.Close.{closing_record}
use shiitake.Pool.Sessions.Reports.{ready_record, closed_record}
use shiitake.Pool.Commands.{admit, command_added}
use shiitake.Pool.Terminal.{attached, detached}
use shiitake.Pool.Sections.{Section, interleave, interleave-keeps}
use shiitake.Pool.Sections.Writes.{Written, enter-sessions}

pub record IsCoherent (r : SessionRecord) : Type 0 where
  pub finished_when : is_some r.finished_at ≡ is_finished r.state
  pub no_opener : is_finished r.state ≡ true → r.opened ≡ none
  pub no_closers : is_closing r.state ≡ false → r.closed ≡ []
  pub no_terminal : is_finished r.state ≡ true → r.terminal ≡ none
  pub no_inputs :
      is_finished r.state ≡ true → (r.working_dir ≡ []) × (r.env ≡ []) × (r.drop_to ≡ none)
  pub opener : is_opening r.state ≡ true → is_some r.opened ≡ true
  pub opened_early : is_some r.opened ≡ true → is_active r.state ≡ false
  pub terminal_alone : is_some r.terminal ≡ true → r.stateful_count ≡ 0
  pub terminal_late : is_some r.terminal ≡ true → is_opening r.state ≡ false

-- One lemma for each way in which the code writes a record.
fail_session-IsCoherent : (now : ℕ) (r : SessionRecord) → IsCoherent (fail_session now r)
unfolding fail_session clear_inputs
fail_session-IsCoherent now r = ground arith

closed_record-IsCoherent :
    (now : ℕ) (error : Option Str) (r : SessionRecord) → IsCoherent (closed_record now error r)
unfolding closed_record clear_inputs
closed_record-IsCoherent now error r = ground arith

ready_record-IsCoherent :
    (now : ℕ) (error : Option Str) (r : SessionRecord)
    → IsCoherent r
    → IsCoherent (ready_record now error r)
unfolding ready_record clear_inputs
ready_record-IsCoherent now error r h = ground arith

closing_record-IsCoherent :
    (tx : ℕ) (r : SessionRecord)
    → is_finished r.state ≡ false
    → IsCoherent r
    → IsCoherent (closing_record tx r)
closing_record-IsCoherent tx r u h = ground arith

touch_active-IsCoherent :
    (now : ℕ) (r : SessionRecord) → IsCoherent r → IsCoherent (touch_active now r)
touch_active-IsCoherent now r h = ground arith

touched-IsCoherent :
    (now : ℕ) (r : SessionRecord) → IsCoherent r → IsCoherent (record r { last_activity_at = now })
touched-IsCoherent now r h = ground arith

command_done-IsCoherent :
    (now : ℕ) (mode : SessionCommandMode) (r : SessionRecord)
    → IsCoherent r
    → IsCoherent (command_done now mode r)
unfolding command_done
command_done-IsCoherent now SessionCommandMode.stateful r h = ground arith
command_done-IsCoherent now SessionCommandMode.parallel r h = ground arith

command_added-IsCoherent :
    (now : ℕ) (mode : SessionCommandMode) (r x : SessionRecord)
    → admit mode (some r) ≡ ok x
    → IsCoherent r
    → IsCoherent (command_added now mode r)
unfolding admit
command_added-IsCoherent now mode r x e h = ground arith

attached-IsCoherent :
    (now tx : ℕ) (r : SessionRecord)
    → is_active r.state ≡ true
    → ltb 0 r.stateful_count ≡ false
    → IsCoherent r
    → IsCoherent (attached now tx r)
attached-IsCoherent now tx r a n h = ground arith

detached-IsCoherent :
    (now tx : ℕ) (r : SessionRecord) → IsCoherent r → IsCoherent (detached now tx r)
detached-IsCoherent now tx r h = ground arith

abbrev pub AllCoherent : PoolState → Type 0
AllCoherent s = AllValues IsCoherent s.sessions

IsCoherent-writes :
    (c : Section) (m : Map SessionRecord)
    → AllValues IsCoherent m
    → Written (AllValues IsCoherent) c m
IsCoherent-writes c m h = record {
  same = h;
  fails = λ k now. each k _ (λ r c. fail_session-IsCoherent now r);
  closes = λ k now error. each k _ (λ r c. closed_record-IsCoherent now error r);
  opens = λ k now error. each k _ (ready_record-IsCoherent now error);
  begins_close = λ k tx u.
      adjust_at-AllValues IsCoherent k _ m (λ r g. closing_record-IsCoherent tx r (u r g)) h;
  touches = λ k now. each k _ (touch_active-IsCoherent now);
  confirms = λ k now. each k _ (touched-IsCoherent now);
  retires = λ k now mode. each k _ (command_done-IsCoherent now mode);
  adds = λ k now mode x q.
      adjust_at-AllValues IsCoherent k _ m
        (λ r g. command_added-IsCoherent now mode r x (rw g at q)) h;
  attaches = λ k now tx u.
      adjust_at-AllValues IsCoherent k _ m (λ r g. attached-IsCoherent now tx r (u r g).0 (u r g).1)
        h;
  detaches = λ k now tx. each k _ (detached-IsCoherent now tx);
  reserves =
      λ now profile o ready w _. insert-AllValues IsCoherent o.session_id _ m (ground arith) h;
  sweeps = λ now ttl. retain-AllValues IsCoherent _ m h;
}
  where
    each :
        (k : Str) (f : SessionRecord → SessionRecord)
        → ((r : SessionRecord) → IsCoherent r → IsCoherent (f r))
        → AllValues IsCoherent (adjust k f m)
    each k f keep = adjust-AllValues IsCoherent k f m keep h

-- Whatever the tasks and the workers do, in any interleaving of the parts that hold the lock, every
-- session record that the pool holds is coherent: it has a finish time exactly if it is closed or
-- failed, and then holds no opener, closer, terminal, directory, environment or identity; one that is
-- opening has its opener, and an active one none; closers wait only while it is closing; and while a
-- terminal is attached, no stateful command is counted and the session is not opening.
pub interleave-AllCoherent : (cs : List Section) → AllCoherent (interleave new_pool cs)
interleave-AllCoherent cs =
    interleave-keeps AllCoherent
      (λ s c h. enter-sessions (AllValues IsCoherent) s c (IsCoherent-writes c s.sessions h))
      new_pool cs tt
