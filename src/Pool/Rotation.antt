-- ===== src/Pool/Rotation.antt =====
-- Which worker a one-shot command gets, and where the worker goes afterwards.
use shiitake.Prelude.{
  ◌≡◌, refl, sym, ◌∙◌, true, none, some, List, [], ◌∷◌, ◌++◌, arith, length, All, str_eq_refl,
}
use shiitake.Prelude.Map.{get, get-insert}
use mathlib.Core.List.{append_assoc, append-nil}
use shiitake.Api.Wire.{ExecuteFrame, ResultFrame}
use shiitake.Pool.State.{Time, WorkerEntry, PendingEntry, PoolState}
use shiitake.Pool.Ids.{valid_capture_id}
use shiitake.Pool.Dispatch.{
  Answers, pop_idle, push_back, register_handle, dispatch_to, dispatch, retire, complete_request,
  dispatched_entry, entry_of,
}

-- Everything succeeds, and nobody else is at work.
abbrev pub all_well : Answers
all_well = record {
  setup = none;
  encoded = none;
  sent = none;
  preparing = λ s. s;
  sending = λ s. s;
  evicting = λ s. s;
}

-- A command and the result that its worker reports.
pub record Job : Type 0 where
  pub start : Time
  pub end : Time
  pub execute : ExecuteFrame
  pub result : ResultFrame

abbrev pub IsJob : Job → Type 0
IsJob j =
    (valid_capture_id j.execute.request_id ≡ true) × (j.result.request_id ≡ j.execute.request_id)

-- One command after another, each dispatched when the one before it is complete.
pub serve : PoolState → Job → PoolState
serve s j = (complete_request (dispatch s j.start j.execute all_well).0 j.end j.result).0

pub serve_all : PoolState → List Job → PoolState
serve_all s [] = s
serve_all s (j ∷ js) = serve_all (serve s j) js

dispatched : Time → ExecuteFrame → WorkerEntry → List WorkerEntry → PoolState → PoolState
dispatched now execute w ws s = register_handle now w execute.request_id (record s { idle = ws })

dispatch-front :
    (s : PoolState) (now : Time) (execute : ExecuteFrame) (w : WorkerEntry) (ws : List WorkerEntry)
    → valid_capture_id execute.request_id ≡ true
    → s.idle ≡ w ∷ ws
    → (dispatch s now execute all_well).0 ≡ dispatched now execute w ws s
unfolding dispatch pop_idle dispatch_to dispatched
dispatch-front s now execute w ws v e = ground arith

idle_complete :
    (s : PoolState) (now : Time) (r : ResultFrame) (p : PendingEntry)
    → get r.request_id s.inflight ≡ some p
    → p.session_id ≡ none
    → (complete_request s now r).0.idle ≡ s.idle ++ (entry_of p ∷ [])
unfolding complete_request retire push_back
idle_complete s now r p e q = ground arith

idle-serve :
    (s : PoolState) (j : Job) (w : WorkerEntry) (ws : List WorkerEntry)
    → IsJob j
    → s.idle ≡ w ∷ ws
    → (serve s j).idle ≡ ws ++ (w ∷ [])
unfolding serve dispatched register_handle complete_request
idle-serve s j w ws v e = rw (dispatch-front s j.start j.execute w ws v.0 e) (
    idle_complete (dispatched j.start j.execute w ws s) j.end j.result (dispatched_entry j.start w)
      (rw v.1 (
        rw
          (
            get-insert j.execute.request_id j.execute.request_id (dispatched_entry j.start w)
                s.inflight,
            str_eq_refl j.execute.request_id,
          )
          refl))
      refl)

-- A serial stream of commands rotates through the idle queue: after as many commands as the queue's
-- first part has workers, each under a valid id and reported by a result of its own, that part stands in
-- its order behind the rest. So every worker serves once before any serves twice.
pub serve_all-rotates :
    (s : PoolState) (ws vs : List WorkerEntry) (js : List Job)
    → s.idle ≡ ws ++ vs
    → length js ≡ length ws
    → All IsJob js
    → (serve_all s js).idle ≡ vs ++ ws
unfolding serve_all
serve_all-rotates s [] vs [] e n h = e ∙ sym (append-nil vs)
serve_all-rotates s [] vs (j ∷ js) e n h = absurd (omega arith)
serve_all-rotates s (w ∷ ws) vs [] e n h = absurd (omega arith)
serve_all-rotates s (w ∷ ws) vs (j ∷ js) e n h =
    serve_all-rotates (serve s j) ws (vs ++ (w ∷ [])) js
      (idle-serve s j w (ws ++ vs) h.0 e ∙ append_assoc ws vs (w ∷ [])) (omega arith) h.1
    ∙ append_assoc vs (w ∷ []) ws
