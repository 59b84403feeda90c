-- ===== src/Pool/Ends.antt =====
-- What the loop that ends the commands of a worker or a session does to each handle.
use shiitake.Prelude.{
  ◌≡◌, refl, inl, inr, Bool, true, false, Option, none, some, List, [], ◌∷◌, arith, if◌then◌else◌,
  Option-cases, any, str_eq, str_eq_iff,
}
use shiitake.Prelude.Map.{Map, get, adjust, get-adjust}
use shiitake.Api.Wire.{ExecId}
use shiitake.Api.Public.{ExitCause, is_running}
use shiitake.Pool.State.{Time, HandleRow}
use shiitake.Pool.Outcome.{finalize_telemetry, end_with_session, end_with_worker, end_handles}

abbrev pub ended {ℓ} : {A : Type ℓ} → (A → A) → Option A → Option A
ended f none = none
ended f (some a) = some (f a)

-- Each listed handle is ended, also where its id is listed twice, and no other.
pub get-end_handles :
    (f : HandleRow → HandleRow) (id : ExecId) (ids : List ExecId) (m : Map HandleRow)
    → ((row : HandleRow) → f (f row) ≡ f row)
    → get id (end_handles f ids m) ≡ (if any (str_eq id) ids then ended f (get id m) else get id m)
unfolding end_handles
get-end_handles f id [] m twice = refl
get-end_handles f id (k ∷ ks) m twice = elim (Option-cases (get id m)) [
  | inl e ↦ ground (arith, get-end_handles f id ks (adjust k f m) twice, get-adjust k id f m)
  | inr (row, e) ↦ ground (
    arith,
    get-end_handles f id ks (adjust k f m) twice,
    get-adjust k id f m,
    twice row,
    str_eq_iff k id,
    str_eq_iff id k,
  )
]

pub end_with_worker_twice :
    (now : Time) (oom : Bool) (row : HandleRow)
    → end_with_worker now oom (end_with_worker now oom row) ≡ end_with_worker now oom row
unfolding end_with_worker finalize_telemetry
end_with_worker_twice now true row = ground arith
end_with_worker_twice now false row = ground arith

pub end_with_session_twice :
    (now : Time) (cause : ExitCause) (row : HandleRow)
    → end_with_session now cause (end_with_session now cause row) ≡ end_with_session now cause row
unfolding end_with_session finalize_telemetry
end_with_session_twice now cause row = ground arith

pub end_with_worker-not_running :
    (now : Time) (oom : Bool) (row : HandleRow)
    → is_running (end_with_worker now oom row).inner.status ≡ false
unfolding end_with_worker finalize_telemetry
end_with_worker-not_running now true row = ground arith
end_with_worker-not_running now false row = ground arith
