-- ===== src/Pool/Sections/Final.antt =====
-- What later sections may do to a handle's row.
use shiitake.Prelude.{
  ◌≡◌, refl, sym, inl, inr, true, false, not, Option, none, some, List, [], ◌∷◌, arith, Bool-cases,
  all, str_eq,
}
use shiitake.Prelude.Map.{Map, get, adjust, get-insert, get-remove, get-adjust, get-map_values}
use shiitake.Api.Wire.{ExecId}
use shiitake.Api.Public.{is_running}
use shiitake.Pool.State.{HandleRow, PoolState}
use shiitake.Pool.Outcome.{
  snapshot_from, classify, finalize_telemetry, record_result, end_with_session, end_with_worker,
  end_handles,
}
use shiitake.Pool.Commands.{poll_of_session}
use shiitake.Pool.Sections.{Section, enter, interleave}
use shiitake.Pool.Sections.Rows.{Rows, registers_id, enter-handles}

-- `row'` is a later row of the handle that `row` was.
pub record Follows (row row' : HandleRow) : Type 0 where
  pub handle : row'.handle_id ≡ row.handle_id
  pub session : row'.session_id ≡ row.session_id
  pub worker : row'.worker_id ≡ row.worker_id
  pub started : row'.started_at ≡ row.started_at
  pub final : is_running row.inner.status ≡ false → snapshot_from row' ≡ snapshot_from row

Follows-refl : (row : HandleRow) → Follows row row
Follows-refl row = record {
  handle = refl;
  session = refl;
  worker = refl;
  started = refl;
  final = λ _. refl;
}

Follows-trans : (a b c : HandleRow) → Follows a b → Follows b c → Follows a c
unfolding snapshot_from
Follows-trans a b c p q = ground arith

-- What became of a row: it was purged, or another follows it.
abbrev pub LaterRow : HandleRow → Option HandleRow → Type 0
LaterRow row none = Unit
LaterRow row (some row') = Follows row row'

module _ (row : HandleRow) (id : ExecId) where
  LaterRow-step :
      (f : HandleRow → HandleRow)
      → ((x : HandleRow) → Follows x (f x))
      → (o : Option HandleRow) → LaterRow row o
      → LaterRow row (elim o [ none ↦ none | some x ↦ some (f x) ])
  LaterRow-step f onward none h = tt
  LaterRow-step f onward (some x) h = Follows-trans row x (f x) h (onward x)

  LaterRow-adjust :
      (k : ExecId) (f : HandleRow → HandleRow)
      → ((x : HandleRow) → Follows x (f x))
      → (m : Map HandleRow) → LaterRow row (get id m)
      → LaterRow row (get id (adjust k f m))
  LaterRow-adjust k f onward m h = elim (Bool-cases (str_eq k id)) [
    | inl e ↦ rw (get-adjust k id f m, e) (LaterRow-step f onward (get id m) h)
    | inr e ↦ rw (get-adjust k id f m, e) h
  ]

  LaterRow-end_handles :
      (f : HandleRow → HandleRow)
      → ((x : HandleRow) → Follows x (f x))
      → (ids : List ExecId) (m : Map HandleRow) → LaterRow row (get id m)
      → LaterRow row (get id (end_handles f ids m))
  unfolding end_handles
  LaterRow-end_handles f onward [] m h = h
  LaterRow-end_handles f onward (k ∷ ks) m h =
      LaterRow-end_handles f onward ks (adjust k f m) (LaterRow-adjust k f onward m h)

  later-Rows :
      (c : Section) (m : Map HandleRow)
      → registers_id c id ≡ false
      → LaterRow row (get id m)
      → Rows (λ m'. LaterRow row (get id m')) c m
  unfolding record_result classify finalize_telemetry end_with_session end_with_worker snapshot_from
  later-Rows c m other h = record {
    same = h;
    results = λ now r. LaterRow-adjust r.request_id _ (λ x. ground arith) m h;
    ends_session = λ now asked ids. LaterRow-end_handles _ (λ x. ground arith) ids m h;
    ends_worker = λ now oom ids. LaterRow-end_handles _ (λ x. ground arith) ids m h;
    polls = λ k now. LaterRow-adjust k _ (λ x. ground arith) m h;
    cancels = λ k. LaterRow-adjust k _ (λ x. ground arith) m h;
    breaks = λ k. LaterRow-adjust k _ (λ x. ground arith) m h;
    lists = λ now k.
        rw (get-map_values id (poll_of_session now k) m)
          (LaterRow-step (poll_of_session now k) (λ x. ground arith) (get id m) h);
    removes = λ k. elim (Bool-cases (str_eq k id)) [
      | inl e ↦ rw (get-remove k id m, e) tt
      | inr e ↦ rw (get-remove k id m, e) h
    ];
    inserts = λ k v now _ is_c. rw (get-insert k id v m, sym (is_c id), other) h;
  }

-- From any state and through any interleaving whose sections do not register the handle anew, the
-- handle's row is gone, or has its id, session, worker and start, and, if the handle no longer ran,
-- shows a client the very outcome it had: no late result, cancellation, session end, worker loss or
-- failed spool write changes it.
pub interleave-LaterRow :
    (s : PoolState) (cs : List Section) (id : ExecId) (row : HandleRow)
    → get id s.handles ≡ some row
    → all (λ c. not (registers_id c id)) cs ≡ true
    → LaterRow row (get id (interleave s cs).handles)
unfolding interleave
interleave-LaterRow s cs id row at_id others = go s cs (rw at_id (Follows-refl row)) others
  where
    go :
        (t : PoolState) (ds : List Section)
        → LaterRow row (get id t.handles)
        → all (λ c. not (registers_id c id)) ds ≡ true
        → LaterRow row (get id (interleave t ds).handles)
    go t [] h q = h
    go t (d ∷ ds) h q =
        go (enter t d) ds
          (enter-handles (λ m. LaterRow row (get id m)) t d
            (later-Rows row id d t.handles (ground arith) h))
          (ground arith)
