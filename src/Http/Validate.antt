-- ===== src/Http/Validate.antt =====
-- shiitake-server/src/http/sessions.rs: the limits on a request for a session, and `terminal_resize`
-- after the parse of its text.
use shiitake.Prelude.{
  ℕ, ◌+◌, ◌-◌, ◌*◌, ◌^◌, ◌≤◌, ◌<◌, ◌≡◌, refl, ◌∙◌, ◌↔◌, Bool, true, false, not, ◌&&◌, ◌||◌, Option,
  none, some, [], ◌∷◌, arith, ltb, ◌==◌, if◌then◌else◌, length, is_empty, all, Str, str, Result, ok,
  err,
}
use shiitake.Prelude.Map.{Map}
use shiitake.Api.Public.{CreateSessionRequest}
use shiitake.Api.Capture.{is_id_byte}
use shiitake.Http.Answers.{HttpError}
use shiitake.Http.Handshake.{is_profile_name}

abbrev max_session_env_entries : ℕ
max_session_env_entries = 128

abbrev max_session_env_bytes : ℕ
max_session_env_bytes = 64 * 1024

abbrev max_session_workdir_bytes : ℕ
max_session_workdir_bytes = 4096

-- `usize::saturating_add`, of 64 bits.
saturating_add : ℕ → ℕ → ℕ
saturating_add a b = if ltb (a + b) (2 ^ 64) then a + b else 2 ^ 64 - 1

env_bytes : ℕ → Map Str → ℕ
unfolding saturating_add
env_bytes size [] = size
env_bytes size ((key, value) ∷ env) =
    env_bytes (saturating_add (saturating_add size (length key)) (length value)) env

-- `req.workdir.as_ref().is_some_and(…)`
is_too_long : Option Str → Bool
is_too_long none = false
is_too_long (some path) = ltb max_session_workdir_bytes (length path)

unfoldable pub validate_session_request : CreateSessionRequest → Result (Unit {0}) HttpError
unfolding env_bytes is_too_long is_profile_name
validate_session_request req =
    if not (is_profile_name req.profile) || req.cols == 0 || req.rows == 0
    then err (400, str "invalid profile or terminal size")
    else if ltb max_session_env_entries (length req.env)
        || ltb max_session_env_bytes (env_bytes 0 req.env)
        || is_too_long req.workdir
    then err (400, str "session input is too large")
    else ok tt

-- `none` is a text that is not a resize control.
unfoldable pub terminal_resize : Option (ℕ × ℕ) → Result (ℕ × ℕ) (Unit {0})
terminal_resize none = err tt
terminal_resize (some (cols, rows)) = if ltb 0 cols && ltb 0 rows then ok (cols, rows) else err tt

-- The size of an environment, without a bound.
total_bytes : Map Str → ℕ
total_bytes [] = 0
total_bytes ((key, value) ∷ env) = length key + length value + total_bytes env

-- The limits, as the request reads them.
pub record IsWithin (req : CreateSessionRequest) : Type 0 where
  profile : (is_empty req.profile ≡ false) × (all is_id_byte req.profile ≡ true)
  size : (0 < req.cols) × (0 < req.rows)
  entries : length req.env ≤ 128
  bytes : total_bytes req.env ≤ 65536
  workdir : (path : Str) → req.workdir ≡ some path → length path ≤ 4096

saturating_add-bound : (a b : ℕ) → saturating_add a b < 2 ^ 64
unfolding saturating_add
saturating_add-bound a b = ground arith

saturating_add-twice :
    (a b c n : ℕ)
    → (if ltb (saturating_add (saturating_add a b) c + n) (2 ^ 64)
        then saturating_add (saturating_add a b) c + n
        else 2 ^ 64 - 1)
      ≡ (if ltb (a + (b + c + n)) (2 ^ 64) then a + (b + c + n) else 2 ^ 64 - 1)
unfolding saturating_add
saturating_add-twice a b c n = ground arith

env_bytes-exact :
    (size : ℕ) (env : Map Str)
    → size < 2 ^ 64
    → env_bytes size env
      ≡ (if ltb (size + total_bytes env) (2 ^ 64) then size + total_bytes env else 2 ^ 64 - 1)
unfolding env_bytes total_bytes
env_bytes-exact size [] h = ground arith
env_bytes-exact size ((key, value) ∷ env) h =
    env_bytes-exact (saturating_add (saturating_add size (length key)) (length value)) env
      (saturating_add-bound _ _)
    ∙ saturating_add-twice size (length key) (length value) (total_bytes env)

env_bytes-limit :
    (env : Map Str) → (ltb 65536 (env_bytes 0 env) ≡ false) ↔ (total_bytes env ≤ 65536)
env_bytes-limit env = ground (arith, env_bytes-exact 0 env (omega arith))

workdir-limit :
    (workdir : Option Str)
    → (is_too_long workdir ≡ false) ↔ ((path : Str) → workdir ≡ some path → length path ≤ 4096)
unfolding is_too_long
workdir-limit none = ((λ _ path e. cc), λ _. refl)
workdir-limit (some path) = ((λ h q e. ground arith), (λ h. ground (arith, h path refl)))

is_profile_name-parts :
    (p : Str) → (is_profile_name p ≡ true) ↔ ((is_empty p ≡ false) × (all is_id_byte p ≡ true))
unfolding is_profile_name
is_profile_name-parts p = ground arith

tests_iff :
    (req : CreateSessionRequest)
    → (validate_session_request req ≡ ok tt) ↔ (
        (is_profile_name req.profile ≡ true)
        × ((0 < req.cols) × (0 < req.rows))
        × (length req.env ≤ 128)
        × (ltb 65536 (env_bytes 0 req.env) ≡ false)
        × (is_too_long req.workdir ≡ false))
unfolding validate_session_request
tests_iff req = ground arith

validate_session_request-limits :
    (req : CreateSessionRequest) → ((validate_session_request req ≡ ok tt) ↔ IsWithin req)
validate_session_request-limits req =
    let (to, from) = tests_iff req in
    (
      (λ h.
          let (p, s, n, b, w) = to h in
          record {
            profile = (is_profile_name-parts req.profile).0 p;
            size = s;
            entries = n;
            bytes = (env_bytes-limit req.env).0 b;
            workdir = (workdir-limit req.workdir).0 w;
          }),
      (λ w. from (
        (is_profile_name-parts req.profile).1 w.profile,
        w.size,
        w.entries,
        (env_bytes-limit req.env).1 w.bytes,
        (workdir-limit req.workdir).1 w.workdir,
      )),
    )

-- A request passes exactly when its profile's name, its terminal's size, its environment and its directory are
-- within the limits, and the saturating sum of the environment's bytes hides no overflow; every other request
-- is answered with 400.
pub validate_session_request-IsWithin :
    (req : CreateSessionRequest)
    → ((validate_session_request req ≡ ok tt) ↔ IsWithin req)
      × ((e : HttpError) → validate_session_request req ≡ err e → e.0 ≡ 400)
unfolding validate_session_request
validate_session_request-IsWithin req = (validate_session_request-limits req, λ e h. ground arith)
