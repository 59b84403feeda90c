-- ===== src/Pool/Listing.antt =====
-- shiitake-server/src/pool/mod.rs: what a listing of a session's commands holds.
use shiitake.Prelude.{◌⊎◌, ◌<◌, ◌+◌, ℕ, ltb, str_le, count, if◌then◌else◌}
use shiitake.Prelude.{
  ◌≡◌, refl, ◌∙◌, inl, inr, Bool, true, false, Option, none, some, List, [], ◌∷◌, map, arith,
  Bool-cases, Option-cases, retain, str_eq, str_eq_iff, str_le-total,
}
use shiitake.Prelude.Map.{Map, get, values, IsUnique}
use shiitake.Api.Wire.{ExecId, SessionId}
use shiitake.Pool.State.{Time, HandleRow, HandleSnapshot, PoolState}
use shiitake.Pool.Outcome.{snapshot_from}
use shiitake.Pool.Handles.{poll, belongs}
use shiitake.Pool.Expiry.{IsKeyed}
use shiitake.Pool.Commands.{started_before, insert_by_start, sort_by_start, list_session_commands}

-- One command comes before another: it started earlier, or at the same time with the smaller id.
abbrev pub Precedes : HandleSnapshot → HandleSnapshot → Type 0
Precedes a b =
    (a.started_at < b.started_at)
    ⊎ ((a.started_at ≡ b.started_at) × (str_le a.handle_id b.handle_id ≡ true))

-- Each entry comes before the next.
abbrev pub IsSorted : List HandleSnapshot → Type 0
IsSorted [] = Unit
IsSorted (a ∷ []) = Unit
IsSorted (a ∷ b ∷ l) = Precedes a b × IsSorted (b ∷ l)

started_before-Precedes : (a b : HandleSnapshot) → started_before a b ≡ true → Precedes a b
unfolding started_before
started_before-Precedes a b h = elim (Bool-cases (ltb a.started_at b.started_at)) [
  | inl e ↦ inl (ground (arith, e))
  | inr e ↦ inr (ground (arith, e), ground (arith, e))
]

started_before-total :
    (a b : HandleSnapshot) → started_before a b ≡ false → started_before b a ≡ true
unfolding started_before
started_before-total a b h = ground (arith, str_le-total a.handle_id b.handle_id)

insert_by_start-IsSorted :
    (a : HandleSnapshot) (l : List HandleSnapshot) → IsSorted l → IsSorted (insert_by_start a l)
unfolding insert_by_start
insert_by_start-IsSorted a [] h = tt
insert_by_start-IsSorted a (b ∷ []) h = elim (Bool-cases (started_before a b)) [
  | inl e ↦ rw e (started_before-Precedes a b e, tt)
  | inr e ↦ rw e (started_before-Precedes b a (started_before-total a b e), tt)
]
insert_by_start-IsSorted a (b ∷ c ∷ l) h =
    let ih = insert_by_start-IsSorted a (c ∷ l) h.1 in
    elim (Bool-cases (started_before a b)) [
      | inl e ↦ rw e (started_before-Precedes a b e, h)
      | inr e ↦
          let later = started_before-Precedes b a (started_before-total a b e) in
          elim (Bool-cases (started_before a c)) [
            | inl f ↦ rw (e, f) (later, (started_before-Precedes a c f, h.1))
            | inr f ↦ rw (e, f) (h.0, rw f at ih)
          ]
    ]

sort_by_start-IsSorted : (l : List HandleSnapshot) → IsSorted (sort_by_start l)
unfolding sort_by_start
sort_by_start-IsSorted [] = tt
sort_by_start-IsSorted (a ∷ l) =
    insert_by_start-IsSorted a (sort_by_start l) (sort_by_start-IsSorted l)

-- How often a handle is listed.
abbrev pub listed : ExecId → List HandleSnapshot → ℕ
listed id = count λ v. str_eq id v.handle_id

listed-insert_by_start :
    (id : ExecId) (a : HandleSnapshot) (l : List HandleSnapshot)
    → listed id (insert_by_start a l) ≡ (if str_eq id a.handle_id then 1 else 0) + listed id l
unfolding insert_by_start
listed-insert_by_start id a [] = refl
listed-insert_by_start id a (b ∷ l) = ground (arith, listed-insert_by_start id a l)

listed-sort_by_start :
    (id : ExecId) (l : List HandleSnapshot) → listed id (sort_by_start l) ≡ listed id l
unfolding sort_by_start
listed-sort_by_start id [] = refl
listed-sort_by_start id (a ∷ l) =
    ground (arith, listed-insert_by_start id a (sort_by_start l), listed-sort_by_start id l)

-- The handle is one of the session's.
abbrev pub in_session_row : SessionId → Option HandleRow → Bool
in_session_row id none = false
in_session_row id (some row) = elim row.session_id [ none ↦ false | some j ↦ str_eq j id ]

abbrev pub once : Bool → ℕ
once true = 1
once false = 0

-- What is listed, in the order of the map.
abbrev rows_of : Time → SessionId → Map HandleRow → List HandleSnapshot
rows_of now id m =
    map (λ row. snapshot_from (poll now row)) (retain (λ row. belongs id row.session_id) (values m))

listed-rows_of :
    (now : Time) (id : SessionId) (j : ExecId) (m : Map HandleRow)
    → IsKeyed m
    → IsUnique m
    → listed j (rows_of now id m) ≡ once (in_session_row id (get j m))
unfolding get snapshot_from
listed-rows_of now id j [] k u = refl
listed-rows_of now id j ((i, row) ∷ m) k u =
    ground (
      arith,
      listed-rows_of now id j m k.1 u.1,
      str_eq_iff j row.handle_id,
      str_eq_iff i j,
      k.0,
      u.0,
    )

abbrev pub IsListing : PoolState → SessionId → Option (List HandleSnapshot) → Type 0
IsListing s id none = get id s.sessions ≡ none
IsListing s id (some out) =
    IsSorted out × ((j : ExecId) → listed j out ≡ once (in_session_row id (get j s.handles)))

-- A listing of a session's commands, over a registry that holds each handle once and under its own id, is refused
-- only for a session that the pool does not know; else it is in the order of the starts, ties by id, and lists a
-- handle once if it is the session's and else not at all.
pub list_session_commands-IsListing :
    (s : PoolState) (now : Time) (id : SessionId)
    → IsKeyed s.handles
    → IsUnique s.handles
    → IsListing s id (list_session_commands s now id).1
unfolding list_session_commands
list_session_commands-IsListing s now id k u = elim (Option-cases (get id s.sessions)) [
  | inl e ↦ rw (e, list_session_commands) e
  | inr (r, e) ↦
      rw (e, list_session_commands)
        (
          sort_by_start-IsSorted (rows_of now id s.handles),
          λ j.
              listed-sort_by_start j (rows_of now id s.handles)
              ∙ listed-rows_of now id j s.handles k u,
        )
]
