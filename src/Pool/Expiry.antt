-- ===== src/Pool/Expiry.antt =====
-- shiitake-server/src/pool/mod.rs: what one round of the sweeper does to each handle.
use mathlib.Core.List.{append-nil}
use shiitake.Prelude.{
  ℕ, ◌-◌, ◌≡◌, refl, sym, ap, ◌∙◌, not, Bool, ◌++◌, inl, inr, true, false, ◌&&◌, Option, none, some,
  List, [], ◌∷◌, map, arith, ltb, if◌then◌else◌, Bool-cases, is_none, retain, All, str_eq,
  str_eq_iff,
}
use shiitake.Prelude.Map.{Map, get, values, get-remove, get-adjust, IsUnique}
use shiitake.Api.Wire.{ExecId, Frame}
use shiitake.Api.Public.{is_running}
use shiitake.Pool.State.{Time, PendingEntry, HandleRow, PoolState, Effect}
use shiitake.Pool.Outcome.{snapshot_from}
use shiitake.Pool.Handles.{request_cancel, list_snapshots}
use shiitake.Pool.Sweeper.{sweep_handle, sweep_handles}

-- The row of a handle that was asked to stop.
abbrev pub stop_asked : HandleRow → HandleRow
stop_asked row =
    let runtime = row.inner in record row { inner = record runtime { cancel_requested = true } }

-- The handle runs outside any session and was not polled within the running TTL.
abbrev pub is_abandoned : Time → ℕ → HandleRow → Bool
is_abandoned now running_ttl row =
    is_running row.inner.status
    && (is_none row.session_id && ltb running_ttl (now - row.inner.last_polled_at))

-- The handle has ended and was not polled within the terminal TTL.
abbrev pub is_stale : Time → ℕ → HandleRow → Bool
is_stale now terminal_ttl row =
    not (is_running row.inner.status) && ltb terminal_ttl (now - row.inner.last_polled_at)

-- What should become of a handle, and what should be done for it: an ended one goes with its output; an
-- abandoned one is asked to stop, by a frame to the worker that has it in flight unless it was asked
-- before; any other stays.
abbrev pub swept : Time → ℕ → ℕ → HandleRow → Option HandleRow
swept now running_ttl terminal_ttl row =
    if is_stale now terminal_ttl row
    then none
    else some (if is_abandoned now running_ttl row then stop_asked row else row)

abbrev pub frame_to : Option PendingEntry → ExecId → List Effect
frame_to none id = []
frame_to (some p) id = Effect.send p.sink (Frame.cancel id) ∷ []

abbrev pub sweep_effects : Time → ℕ → ℕ → Option PendingEntry → ExecId → HandleRow → List Effect
sweep_effects now running_ttl terminal_ttl pending id row =
    if is_stale now terminal_ttl row
    then Effect.purge id ∷ []
    else if is_abandoned now running_ttl row && not row.inner.cancel_requested
    then frame_to pending id
    else []

-- The effect is a Cancel of the handle or the removal of its output.
abbrev pub concerns : ExecId → Effect → Bool
concerns id (Effect.send sink (Frame.cancel j)) = str_eq j id
concerns id (Effect.purge j) = str_eq j id
concerns id _ = false

-- A map of handles lists each under its own id.
abbrev pub IsKeyed : Map HandleRow → Type 0
IsKeyed = All λ e. e.0 ≡ e.1.handle_id

request_cancel-stop_asked :
    (row : HandleRow) → is_running row.inner.status ≡ true → request_cancel row ≡ stop_asked row
request_cancel-stop_asked row r = elim (Bool-cases row.inner.cancel_requested) [
  | inl e ↦
      let same : request_cancel row ≡ row = ground (arith, r, e) in
      same ∙ ap (λ c. record row { inner = record row.inner { cancel_requested = c } }) e
  | inr e ↦ rw (r, e, if◌then◌else◌) refl
]

retain-append-effects :
    (p : Effect → Bool) (xs ys : List Effect) → retain p (xs ++ ys) ≡ retain p xs ++ retain p ys
retain-append-effects p [] ys = refl
retain-append-effects p (x ∷ xs) ys = ground (arith, retain-append-effects p xs ys)

-- What the others do leaves the handle's row and its place in flight alone.
abbrev pub Spares : ExecId → (ExecId → PoolState → PoolState) → Type 0
Spares id others =
    (j : ExecId) (t : PoolState)
    → (get id (others j t).handles ≡ get id t.handles)
      × (get id (others j t).inflight ≡ get id t.inflight)

module _ (now : Time) (running_ttl terminal_ttl : ℕ)
    (before within : ExecId → PoolState → PoolState) where
  sweep_handle_own :
      (s : PoolState) (row : HandleRow) (id : ExecId)
      → row.handle_id ≡ id
      → Spares id within
      → get id s.handles ≡ some row
      → let (s', effects) =
          sweep_handle s now running_ttl terminal_ttl within (snapshot_from row) in
        (get id s'.handles ≡ swept now running_ttl terminal_ttl row)
        × (retain (concerns id) effects
            ≡ sweep_effects now running_ttl terminal_ttl (get id s.inflight) id row)
  unfolding sweep_handle snapshot_from
  sweep_handle_own s row id named spares e =
      let t = within row.handle_id s in
      let kept = spares row.handle_id s in
      let seen : get row.handle_id s.handles ≡ get id s.handles = ap (λ k. get k s.handles) named in
      let here : get row.handle_id t.handles ≡ get id t.handles = ap (λ k. get k t.handles) named in
      let place : get row.handle_id t.inflight ≡ get id t.inflight =
        ap (λ k. get k t.inflight) named in
      (
        ground (
          arith,
          get-adjust row.handle_id id request_cancel t.handles,
          get-remove row.handle_id id t.handles,
          str_eq_iff row.handle_id id,
          request_cancel-stop_asked row,
          kept.0,
          seen,
          here,
        ),
        ground (arith, kept.0, kept.1, str_eq_iff row.handle_id id, seen, here, place),
      )

  sweep_handle_other :
      (s : PoolState) (row : HandleRow) (id : ExecId)
      → Spares id within
      → str_eq row.handle_id id ≡ false
      → let (s', effects) =
          sweep_handle s now running_ttl terminal_ttl within (snapshot_from row) in
        (get id s'.handles ≡ get id s.handles)
        × (get id s'.inflight ≡ get id s.inflight)
        × (retain (concerns id) effects ≡ [])
  unfolding sweep_handle snapshot_from
  sweep_handle_other s row id spares ne =
      let t = within row.handle_id s in
      let kept = spares row.handle_id s in
      (
        ground (
          arith,
          get-adjust row.handle_id id request_cancel t.handles,
          get-remove row.handle_id id t.handles,
          kept.0,
        ),
        ground (arith, kept.1),
        ground (arith, ne),
      )

  abbrev rows_swept : ExecId → Option HandleRow → Option HandleRow → Option HandleRow
  rows_swept id none other = other
  rows_swept id (some row) other = swept now running_ttl terminal_ttl row

  abbrev rows_effects : ExecId → Option HandleRow → Option PendingEntry → List Effect
  rows_effects id none pending = []
  rows_effects id (some row) pending = sweep_effects now running_ttl terminal_ttl pending id row

  -- The loop over the rows `m`, from a pool that still holds the handle as they do.
  sweep_rows :
      (m : Map HandleRow) (s : PoolState) (id : ExecId)
      → Spares id before
      → Spares id within
      → IsKeyed m
      → IsUnique m
      → ((row : HandleRow) → get id m ≡ some row → get id s.handles ≡ some row)
      → let (s', effects) =
          sweep_handles s now running_ttl terminal_ttl before within
            (map snapshot_from (values m)) in
        (get id s'.handles ≡ rows_swept id (get id m) (get id s.handles))
        × (retain (concerns id) effects ≡ rows_effects id (get id m) (get id s.inflight))
  unfolding sweep_handles get snapshot_from
  sweep_rows [] s id b w k u same = (refl, refl)
  sweep_rows ((j, row) ∷ m) s id b w k u same =
      let t = before row.handle_id s in
      let kept = b row.handle_id s in
      let step = sweep_handle t now running_ttl terminal_ttl within (snapshot_from row) in
      let later =
        sweep_handles step.0 now running_ttl terminal_ttl before within
          (map snapshot_from (values m)) in
      let both = retain-append-effects (concerns id) step.1 later.1 in
      elim (Bool-cases (str_eq j id)) [
        | inl hit ↦
            let named : row.handle_id ≡ id = sym k.0 ∙ (str_eq_iff j id).0 hit in
            let absent : get id m ≡ none = ground (arith, u.0, str_eq_iff j id) in
            let found : get id t.handles ≡ some row = kept.0 ∙ same row (rw (hit, get) refl) in
            let own = sweep_handle_own t row id named w found in
            let ih = sweep_rows m step.0 id b w k.1 u.1 (λ r e. cc) in
            let quiet : retain (concerns id) later.1 ≡ [] =
              ih.1 ∙ ap (λ o. rows_effects id o (get id step.0.inflight)) absent in
            let acted =
              own.1 ∙ ap (λ p. sweep_effects now running_ttl terminal_ttl p id row) kept.1 in
            rw (hit, if◌then◌else◌)
              (
                ih.0 ∙ (ap (λ o. rows_swept id o (get id step.0.handles)) absent ∙ own.0),
                both
                    ∙ (ap (λ l. retain (concerns id) step.1 ++ l) quiet
                        ∙ (append-nil (retain (concerns id) step.1) ∙ acted)),
              )
        | inr miss ↦
            let other = sweep_handle_other t row id w (ground (arith, miss, k.0)) in
            let ih =
              sweep_rows m step.0 id b w k.1 u.1
                (λ r e. other.0 ∙ (kept.0 ∙ same r (rw (miss, get) e))) in
            rw (miss, if◌then◌else◌)
              (
                ih.0 ∙ ap (rows_swept id (get id m)) (other.0 ∙ kept.0),
                both
                    ∙ (ap (λ l. l ++ retain (concerns id) later.1) other.2
                        ∙ (ih.1 ∙ ap (rows_effects id (get id m)) (other.1 ∙ kept.1))),
              )
      ]

  -- One round over a well-formed registry (each handle under its own id, once), whatever the others do
  -- meanwhile short of touching the handle's row or its place in flight: an ended handle that was not
  -- polled within the terminal TTL goes, and its output with it; one that runs outside any session and
  -- was not polled within the running TTL is marked as asked to stop, and the worker that has it in
  -- flight gets the one Cancel frame unless it was asked before; any other handle stays as it is, and
  -- nothing is sent or removed for it.
  pub sweep_handles-swept :
      (s : PoolState) (id : ExecId) (row : HandleRow)
      → Spares id before
      → Spares id within
      → IsKeyed s.handles
      → IsUnique s.handles
      → get id s.handles ≡ some row
      → let (s', effects) =
          sweep_handles s now running_ttl terminal_ttl before within (list_snapshots s) in
        (get id s'.handles ≡ swept now running_ttl terminal_ttl row)
        × (retain (concerns id) effects
            ≡ sweep_effects now running_ttl terminal_ttl (get id s.inflight) id row)
  unfolding list_snapshots
  sweep_handles-swept s id row b w k u e =
      let all_rows = sweep_rows s.handles s id b w k u (λ r h. h) in
      (
        all_rows.0 ∙ ap (λ o. rows_swept id o (get id s.handles)) e,
        all_rows.1 ∙ ap (λ o. rows_effects id o (get id s.inflight)) e,
      )
