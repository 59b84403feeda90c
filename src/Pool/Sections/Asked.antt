-- ===== src/Pool/Sections/Asked.antt =====
-- What later sections may do to a handle that was asked to stop.
use shiitake.Prelude.{
  ◌≡◌, refl, sym, inl, inr, true, false, not, Option, none, some, List, [], ◌∷◌, arith, Bool-cases,
  all, str_eq, str_eq_refl,
}
use shiitake.Prelude.Map.{Map, get, adjust, get-insert, get-remove, get-adjust, get-map_values}
use shiitake.Api.Wire.{ExecId}
use shiitake.Pool.State.{HandleRow, PoolState}
use shiitake.Pool.Outcome.{
  classify, finalize_telemetry, record_result, end_with_session, end_with_worker, end_handles,
}
use shiitake.Pool.Handles.{cancel, cancels, request_cancel}
use shiitake.Pool.Commands.{poll_of_session}
use shiitake.Pool.Sections.{Section, enter, interleave}
use shiitake.Pool.Sections.Rows.{Rows, registers_id, enter-handles}

-- A cancellation would send nothing for this row.
abbrev IsQuiet : Option HandleRow → Type 0
IsQuiet none = Unit
IsQuiet (some row) = cancels row ≡ false

module _ (id : ExecId) where
  IsQuiet-step :
      (f : HandleRow → HandleRow)
      → ((x : HandleRow) → cancels x ≡ false → cancels (f x) ≡ false)
      → (o : Option HandleRow) → IsQuiet o
      → IsQuiet (elim o [ none ↦ none | some x ↦ some (f x) ])
  IsQuiet-step f keep none h = tt
  IsQuiet-step f keep (some x) h = keep x h

  IsQuiet-adjust :
      (k : ExecId) (f : HandleRow → HandleRow)
      → ((x : HandleRow) → cancels x ≡ false → cancels (f x) ≡ false)
      → (m : Map HandleRow) → IsQuiet (get id m)
      → IsQuiet (get id (adjust k f m))
  IsQuiet-adjust k f keep m h = elim (Bool-cases (str_eq k id)) [
    | inl e ↦ rw (get-adjust k id f m, e) (IsQuiet-step f keep (get id m) h)
    | inr e ↦ rw (get-adjust k id f m, e) h
  ]

  IsQuiet-end_handles :
      (f : HandleRow → HandleRow)
      → ((x : HandleRow) → cancels x ≡ false → cancels (f x) ≡ false)
      → (ids : List ExecId) (m : Map HandleRow) → IsQuiet (get id m)
      → IsQuiet (get id (end_handles f ids m))
  unfolding end_handles
  IsQuiet-end_handles f keep [] m h = h
  IsQuiet-end_handles f keep (k ∷ ks) m h =
      IsQuiet-end_handles f keep ks (adjust k f m) (IsQuiet-adjust k f keep m h)

  IsQuiet-Rows :
      (c : Section) (m : Map HandleRow)
      → registers_id c id ≡ false
      → IsQuiet (get id m)
      → Rows (λ m'. IsQuiet (get id m')) c m
  unfolding record_result classify finalize_telemetry end_with_session end_with_worker
  IsQuiet-Rows c m other h = record {
    same = h;
    results = λ now r. IsQuiet-adjust r.request_id _ (λ x. ground arith) m h;
    ends_session = λ now asked ids. IsQuiet-end_handles _ (λ x. ground arith) ids m h;
    ends_worker = λ now oom ids. IsQuiet-end_handles _ (λ x. ground arith) ids m h;
    polls = λ k now. IsQuiet-adjust k _ (λ x. ground arith) m h;
    cancels = λ k. IsQuiet-adjust k _ (λ x. ground arith) m h;
    breaks = λ k. IsQuiet-adjust k _ (λ x. ground arith) m h;
    lists = λ now k.
        rw (get-map_values id (poll_of_session now k) m)
          (IsQuiet-step (poll_of_session now k) (λ x. ground arith) (get id m) h);
    removes = λ k. elim (Bool-cases (str_eq k id)) [
      | inl e ↦ rw (get-remove k id m, e) tt
      | inr e ↦ rw (get-remove k id m, e) h
    ];
    inserts = λ k v now _ is_c. rw (get-insert k id v m, sym (is_c id), other) h;
  }

  interleave-IsQuiet :
      (t : PoolState) (ds : List Section)
      → IsQuiet (get id t.handles)
      → all (λ c. not (registers_id c id)) ds ≡ true
      → IsQuiet (get id (interleave t ds).handles)
  unfolding interleave
  interleave-IsQuiet t [] h q = h
  interleave-IsQuiet t (d ∷ ds) h q =
      interleave-IsQuiet (enter t d) ds
        (enter-handles (λ m. IsQuiet (get id m)) t d (IsQuiet-Rows d t.handles (ground arith) h))
        (ground arith)

cancel-IsQuiet : (s : PoolState) (id : ExecId) → IsQuiet (get id (cancel s id).0.handles)
unfolding cancel
cancel-IsQuiet s id = go (get id s.handles) refl
  where
    go : (o : Option HandleRow) → get id s.handles ≡ o → IsQuiet (get id (cancel s id).0.handles)
    go none e = rw (e, cancel) (rw e tt)
    go (some row) e =
        rw (e, cancel)
          (rw (get-adjust id id request_cancel s.handles, str_eq_refl id, e) (ground arith))

quiet-cancel : (s : PoolState) (id : ExecId) → IsQuiet (get id s.handles) → (cancel s id).2 ≡ []
unfolding cancel
quiet-cancel s id h = go (get id s.handles) refl h
  where
    go : (o : Option HandleRow) → get id s.handles ≡ o → IsQuiet o → (cancel s id).2 ≡ []
    go none e q = ground arith
    go (some row) e q = ground arith

-- A command is told to stop at most once: after a first cancellation, and whatever the tasks then do short of
-- registering the handle anew, a second cancellation sends nothing.
pub cancel-once :
    (s : PoolState) (cs : List Section) (id : ExecId)
    → all (λ c. not (registers_id c id)) cs ≡ true
    → (cancel (interleave (cancel s id).0 cs) id).2 ≡ []
cancel-once s cs id others =
    quiet-cancel (interleave (cancel s id).0 cs) id
      (interleave-IsQuiet id (cancel s id).0 cs (cancel-IsQuiet s id) others)
