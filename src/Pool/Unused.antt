-- ===== src/Pool/Unused.antt =====
-- shiitake-server/src/pool/mod.rs: which sessions one round of the sweeper closes.
use shiitake.Prelude.{
  ℕ, ◌-◌, ◌≡◌, refl, inl, inr, Bool, true, false, not, ◌&&◌, Option, none, some, List, [], ◌∷◌,
  ◌++◌, arith, ltb, if◌then◌else◌, Bool-cases, is_none, any, retain, str_eq, str_eq_iff,
}
use shiitake.Prelude.Map.{Map, get, values, keys, get-adjust, IsUnique, any-keys-retain}
use shiitake.Api.Wire.{SessionId}
use shiitake.Api.Public.{SessionState}
use shiitake.Pool.State.{Time, Channel, SessionRecord, PendingEntry, PoolState}
use shiitake.Pool.Sessions.Close.{still_idle, closing_record, start_close, begin_close}
use shiitake.Pool.Handles.{belongs}
use shiitake.Pool.Sweeper.{expired_sessions, close_expired}

-- The state is the active one.
abbrev is_open : SessionState → Bool
is_open SessionState.active = true
is_open _ = false

-- The command is one of the session's.
abbrev is_its : SessionId → PendingEntry → Bool
is_its id p = elim p.session_id [ none ↦ false | some j ↦ str_eq j id ]

-- The session is active, has no terminal and no command in flight, and was not used within the TTL.
abbrev pub is_unused : Time → ℕ → PoolState → SessionId → SessionRecord → Bool
is_unused now ttl s id r =
    is_open r.state
    && (is_none r.terminal
        && (not (any (λ e. is_its id e.1) s.inflight) && ltb ttl (now - r.last_activity_at)))

-- What should become of a session: an unused one is closing, with the sweeper among those who wait.
abbrev pub gated :
    Time → ℕ → PoolState → (SessionId → Channel) → SessionId → SessionRecord → SessionRecord
gated now ttl s tx id r =
    if is_unused now ttl s id r
    then record r { state = SessionState.closing; closed = r.closed ++ tx id ∷ [] }
    else r

any-values :
    (id : SessionId) (m : Map PendingEntry)
    → any (λ p. belongs id p.session_id) (values m) ≡ any (λ e. is_its id e.1) m
any-values id [] = refl
any-values id (e ∷ m) = ground (arith, any-values id m)

still_idle-is_unused :
    (s : PoolState) (now : Time) (ttl : ℕ) (id : SessionId) (r : SessionRecord)
    → still_idle s now ttl id r ≡ is_unused now ttl s id r
unfolding still_idle
still_idle-is_unused s now ttl id r = ground (arith, any-values id s.inflight)

module _ (now : Time) (running_ttl : ℕ) where
  abbrev gated_code : PoolState → (SessionId → Channel) → SessionId → SessionRecord → SessionRecord
  gated_code s tx id r = if still_idle s now running_ttl id r then closing_record (tx id) r else r

  begin_close-gated :
      (s : PoolState) (tx : SessionId → Channel) (j id : SessionId) (r : SessionRecord)
      → get id s.sessions ≡ some r
      → get id (begin_close s j (some (now, running_ttl)) (tx j)).0.sessions
        ≡ some (if str_eq j id then gated_code s tx id r else r)
  unfolding begin_close start_close still_idle
  begin_close-gated s tx j id r e = go (get j s.sessions) refl
    where
      go :
          (o : Option SessionRecord)
          → get j s.sessions ≡ o
          → get id (begin_close s j (some (now, running_ttl)) (tx j)).0.sessions
            ≡ some (if str_eq j id then gated_code s tx id r else r)
      go none q = ground (arith, str_eq_iff j id)
      go (some x) q =
          ground (arith, str_eq_iff j id, get-adjust j id (closing_record (tx j)) s.sessions)

  begin_close-inflight :
      (s : PoolState) (tx : Channel) (j : SessionId)
      → (begin_close s j (some (now, running_ttl)) tx).0.inflight ≡ s.inflight
  unfolding begin_close start_close
  begin_close-inflight s tx j = ground arith

  gated-inflight :
      (s s' : PoolState) (tx : SessionId → Channel) (id : SessionId) (r : SessionRecord)
      → s'.inflight ≡ s.inflight
      → gated_code s' tx id r ≡ gated_code s tx id r
  unfolding still_idle
  gated-inflight s s' tx id r e = ground arith

  gated_twice :
      (s : PoolState) (tx : SessionId → Channel) (id : SessionId) (r : SessionRecord)
      → gated_code s tx id (gated_code s tx id r) ≡ gated_code s tx id r
  unfolding still_idle
  gated_twice s tx id r = ground arith

  close_expired-gated :
      (tx : SessionId → Channel) (ids : List SessionId) (s : PoolState) (id : SessionId)
      (r : SessionRecord)
      → get id s.sessions ≡ some r
      → get id (close_expired s now running_ttl tx (λ _ t. t) ids).0.sessions
        ≡ some (if any (str_eq id) ids then gated_code s tx id r else r)
  unfolding close_expired
  close_expired-gated tx [] s id r e = e
  close_expired-gated tx (j ∷ js) s id r e =
      let s' = (begin_close s j (some (now, running_ttl)) (tx j)).0 in
      let r' : SessionRecord = if str_eq j id then gated_code s tx id r else r in
      let ih = close_expired-gated tx js s' id r' (begin_close-gated s tx j id r e) in
      elim (Bool-cases (str_eq j id)) [
        | inl hit ↦ ground (
          arith,
          ih,
          gated-inflight s s' tx id (gated_code s tx id r) (begin_close-inflight s (tx j) j),
          gated_twice s tx id r,
          str_eq_iff j id,
          str_eq_iff id j,
        )
        | inr miss ↦ ground (
          arith,
          ih,
          gated-inflight s s' tx id r (begin_close-inflight s (tx j) j),
          str_eq_iff j id,
          str_eq_iff id j,
        )
      ]

  -- One round that nothing disturbs (each session under one id) starts to close exactly the sessions that
  -- are active, have no terminal and no command in flight and were not used within the running TTL, and
  -- leaves every other record as it was: running commands and attached terminals keep their session.
  pub expired_sessions-gated :
      (s : PoolState) (tx : SessionId → Channel) (id : SessionId) (r : SessionRecord)
      → IsUnique s.sessions
      → get id s.sessions ≡ some r
      → get id
          (close_expired s now running_ttl tx
            (λ _ t. t)
            (expired_sessions s now running_ttl)).0.sessions
        ≡ some (gated now running_ttl s tx id r)
  unfolding expired_sessions
  expired_sessions-gated s tx id r u e = ground (
    arith,
    close_expired-gated tx (keys (retain (λ x. still_idle s now running_ttl x.0 x.1) s.sessions)) s
        id r e,
    any-keys-retain (λ x. still_idle s now running_ttl x.0 x.1) id s.sessions u,
    still_idle-is_unused s now running_ttl id r,
  )
