-- ===== src/Examples/Registry.antt =====
-- The theorems on the interleaved sections, the sweeper and the keepalive, at the pool at work.
use shiitake.Prelude.{
  ◌≡◌, refl, true, ◌&&◌, none, some, List, [], ◌∷◌, ◌++◌, if◌then◌else◌, count, retain, Str, str,
  str_eq,
}
use shiitake.Prelude.Map.{get, contains_key, insert, values}
use shiitake.Api.Wire.{SessionCommandMode}
use shiitake.Pool.State.{SessionRecord, new_pool}
use shiitake.Pool.Workers.{register}
use shiitake.Pool.Dispatch.{push_back}
use shiitake.Pool.Sessions.{take_profile, reserve, opening_record}
use shiitake.Pool.Sections.{Section, enter, interleave}
use shiitake.Pool.Sections.Coherent.{AllCoherent, interleave-AllCoherent}
use shiitake.Pool.Sections.Lifecycle.{Later, enter-Later}
use shiitake.Pool.Sections.Settled.{AllSettled, interleave-AllSettled}
use shiitake.Pool.Sections.Final.{LaterRow, interleave-LaterRow}
use shiitake.Pool.Sweeper.{sweep_handles, expired_sessions, close_expired}
use shiitake.Pool.Handles.{cancel, list_snapshots}
use shiitake.Pool.Sections.Asked.{cancel-once}
use shiitake.Pool.Expiry.{swept, sweep_effects, concerns, sweep_handles-swept}
use shiitake.Pool.Unused.{gated, expired_sessions-gated}
use shiitake.Pool.Keepalive.{targets}
use shiitake.Pool.Occupancy.{profiles}
use shiitake.Pool.Occupancy.Tally.{
  IsOrdered, tally_of, is_known, of_profile, allocates, profiles_exact,
}
use shiitake.Pool.Pings.{among, IsDistinct, target_ids, in_use, targets_exact}
use shiitake.Examples.{
  first_worker, a_session, a_command, active_record, quiet_record, running_row, running_entry,
  busy_pool, quiet_pool, open_frame,
}

-- A worker connects, a session is opened on it and runs a command, and the worker is lost.
abbrev opening : List Section
opening =
    Section.connects 1 first_worker (str "default") none 1 11
    ∷ Section.reserves 4 (str "default") open_frame 21
    ∷ []

abbrev life : List Section
life =
    opening
    ++ (Section.opens 5 first_worker a_session none
        ∷ Section.registers_command 6 a_session a_command SessionCommandMode.stateful active_record
        ∷ Section.takes_pending first_worker
        ∷ Section.forgets 9 first_worker
        ∷ Section.ends_with_worker 9 true (a_command ∷ [])
        ∷ Section.cancels a_command
        ∷ [])

interleave-AllCoherent_example : AllCoherent (interleave new_pool life)
interleave-AllCoherent_example = interleave-AllCoherent life

interleave-AllSettled_example : AllSettled (interleave new_pool life)
interleave-AllSettled_example = interleave-AllSettled life

interleave-LaterRow_example : LaterRow running_row (
    get a_command
      (interleave busy_pool (Section.cancels a_command ∷ Section.purges a_command ∷ [])).handles)
unfolding get str_eq
interleave-LaterRow_example =
    interleave-LaterRow busy_pool (Section.cancels a_command ∷ Section.purges a_command ∷ [])
      a_command running_row refl refl

abbrev opened_record : SessionRecord
opened_record =
    opening_record 4 (str "default") open_frame 21
      (record { worker_id = first_worker; profile = str "default"; sink = 1 })

enter-Later_example : Later opened_record (
    get a_session
      (enter (interleave new_pool opening) (Section.opens 5 first_worker a_session none)).sessions)
unfolding interleave enter register push_back insert reserve take_profile get str_eq
enter-Later_example =
    enter-Later opening (Section.opens 5 first_worker a_session none) a_session opened_record refl
      refl

-- The handle belongs to a session and runs, so the round leaves it, whatever its age.
sweep_handles-swept_example :
    let (s', effects) =
      sweep_handles busy_pool 9000 10 10 (λ _ s. s) (λ _ s. s) (list_snapshots busy_pool) in
    (get a_command s'.handles ≡ swept 9000 10 10 running_row)
    × (retain (concerns a_command) effects
        ≡ sweep_effects 9000 10 10 (some running_entry) a_command running_row)
unfolding get str_eq
sweep_handles-swept_example =
    sweep_handles-swept 9000 10 10 (λ _ s. s) (λ _ s. s) busy_pool a_command running_row
      (λ j t. (refl, refl)) (λ j t. (refl, refl)) (refl, tt) (refl, tt) refl

expired_sessions-gated_example :
    get a_session
      (close_expired quiet_pool 9000 10
        (λ _. 31)
        (λ _ t. t)
        (expired_sessions quiet_pool 9000 10)).0.sessions
    ≡ some (gated 9000 10 quiet_pool (λ _. 31) a_session quiet_record)
unfolding get str_eq
expired_sessions-gated_example =
    expired_sessions-gated 9000 10 quiet_pool (λ _. 31) a_session quiet_record (refl, tt) refl

targets_exact_example :
    IsDistinct (target_ids (targets busy_pool))
    × ((worker : Str)
        → among worker (target_ids (targets busy_pool))
          ≡ (in_use busy_pool worker && contains_key worker busy_pool.liveness))
targets_exact_example = targets_exact busy_pool

-- Between the two cancellations the command is polled and a write to its spool fails.
cancel-once_example :
    (cancel
      (interleave
        (cancel busy_pool a_command).0
        (Section.touches 8 a_command ∷ Section.fails_spool a_command ∷ []))
      a_command).2
    ≡ []
unfolding str_eq
cancel-once_example =
    cancel-once busy_pool (Section.touches 8 a_command ∷ Section.fails_spool a_command ∷ [])
      a_command refl

profiles_exact_example :
    IsOrdered (profiles busy_pool)
    × ((n : Str)
        → tally_of n (profiles busy_pool) ≡ (
            if is_known busy_pool n
            then some (
              count (of_profile n) busy_pool.idle,
              count (allocates n) (values busy_pool.sessions),
            )
            else none))
profiles_exact_example = profiles_exact busy_pool
