-- ===== src/Http/Handshake.antt =====
-- shiitake-server/src/http/{mod,dispatch}.rs: the profile that a worker's credential binds it to. The
-- answer of the socket to the acknowledgement is an argument.
pub mod Binding
use shiitake.Prelude.Strings.{strip_prefix}
use shiitake.Prelude.{
  ℕ, zero, suc, ◌+◌, ◌-◌, ◌*◌, ◌/◌, ◌%◌, ◌^◌, ◌≤◌, ◌<◌, String, ◌≡◌, refl, sym, ap, ◌∙◌, ◌≢◌, ◌↔◌,
  ◌⊎◌, inl, inr, Bool, true, false, not, ◌&&◌, ◌||◌, Option, none, some, List, [], ◌∷◌, ◌++◌, map,
  arith, ltb, leb, ◌==◌, if◌then◌else◌, ltb→lt, leb→le, ==_iff, Bool-cases, Option-cases, is_some,
  is_none, length, take, drop, is_empty, all, any, retain, count, All, length-append, count-append,
  All-append, take-length-append, drop-length-append, take-append-drop, length-take, All-retain,
  Str, str, str_eq, str_eq_iff, str_eq_refl, str_le, is_ascii_alphanumeric, Result, ok, err, ◌>>=◌,
  ok_or, ℤ, pos, negsuc,
}
use shiitake.Prelude.Map.{
  Map, get, contains_key, insert, remove, adjust, values, keys, get-insert, get-remove, get-adjust,
  AllValues, get-AllValues, insert-AllValues, remove-AllValues, adjust-AllValues,
  adjust_at-AllValues, retain-AllValues, IsUnique, insert-IsUnique, remove-IsUnique,
  adjust-IsUnique, retain-IsUnique, keep_if, get-retain, map_values, get-map_values,
  map_values-AllValues, any-keys-retain,
}
use shiitake.Api.Wire.{WorkerId, WorkerLocation, Frame, protocol_version}
use shiitake.Api.Capture.{is_id_byte}

-- The test on a profile's name, which three places of the code repeat.
unfoldable pub is_profile_name : Str → Bool
unfolding is_id_byte
is_profile_name profile = not (is_empty profile) && all is_id_byte profile

-- The loop over `extra_tokens`; `seen` is the set of the tokens so far.
unfoldable pub check_tokens : Map Str → List Str → Result (Unit {0}) Str
check_tokens [] seen = ok tt
check_tokens ((profile, token) ∷ rest) seen =
    if not (str_eq profile (str "default")) && is_profile_name profile
    then if not (is_empty token) && not (any (str_eq token) seen)
      then check_tokens rest (token ∷ seen)
      else err (str "each profile needs a distinct non-empty dispatch token")
    else err (str "invalid additional profile name")

-- `BTreeMap::extend`
unfoldable pub extend : Map Str → Map Str → Map Str
extend tokens [] = tokens
extend tokens ((profile, token) ∷ rest) = extend (insert profile token tokens) rest

-- The credentials of `build_dispatch_router_with_profiles`.
unfoldable pub build_tokens : Str → Map Str → Result (Map Str) Str
unfolding check_tokens extend
build_tokens default_token extra_tokens =
    if is_empty default_token
    then err (str "default dispatch token is required")
    else check_tokens extra_tokens (default_token ∷ []) >>= λ _.
        ok (extend ((str "default", default_token) ∷ []) extra_tokens)

-- `tokens.iter().find(|(_, expected)| expected == token)`
unfoldable pub find_profile : Map Str → Str → Option Str
find_profile [] token = none
find_profile ((name, expected) ∷ rest) token =
    if str_eq expected token then some name else find_profile rest token

-- `connect_scoped`: the profile of the credential, or the answer 401. No header, and one that is not text,
-- is `none`.
unfoldable pub connect_scoped : Map Str → Option Str → Result Str ℕ
unfolding strip_prefix find_profile
connect_scoped tokens none = err 401
connect_scoped tokens (some header) = elim (strip_prefix (str "Bearer ") header) [
  | none ↦ err 401
  | some token ↦ ok_or (find_profile tokens token) 401
]

pub record Registration : Type 0 where
  pub worker_id : WorkerId
  pub profile : Str
  pub location : Option WorkerLocation

-- `run_socket` up to the registration: `first` is the first message, where it is text that parses as a frame.
unfoldable pub run_socket : Option Frame → Option Str → Bool → List Frame × Option Registration
unfolding is_profile_name
run_socket (some (Frame.hello worker_id version profile location)) expected acked =
    if version == protocol_version
    then if is_profile_name profile && elim expected [ none ↦ true | some e ↦ str_eq e profile ]
      then (
        Frame.hello_ack protocol_version ∷ [],
        if acked
            then some (record { worker_id = worker_id; profile = profile; location = location })
            else none,
      )
      else ([], none)
    else ([], none)
run_socket _ expected acked = ([], none)
