-- ===== src/Http/Handshake/Binding.antt =====
-- shiitake-server/src/http/{mod,dispatch}.rs: which profile a credential stands for.
use shiitake.Prelude.{
  ◌≡◌, refl, sym, ap, ◌≢◌, inl, inr, Bool, true, false, Option, none, some, List, [], ◌∷◌, ◌++◌,
  arith, Option-cases, any, Str, str, str_eq, str_eq_iff, str_eq_refl, ok,
}
use shiitake.Prelude.Map.{Map, get, insert, get-insert, IsUnique, insert-IsUnique}
use shiitake.Api.Wire.{Frame}
use shiitake.Prelude.Strings.{strip_prefix}
use shiitake.Http.Handshake.{
  check_tokens, extend, build_tokens, find_profile, connect_scoped, Registration, run_socket,
}

-- No two profiles share a token.
AreDistinct : Map Str → Type 0
AreDistinct tokens = (p q : Str) (t : Str) → get p tokens ≡ some t → get q tokens ≡ some t → p ≡ q

Fresh : Str → Map Str → Type 0
Fresh t tokens = (p : Str) → get p tokens ≢ some t

insert-AreDistinct :
    (k t : Str) (tokens : Map Str)
    → AreDistinct tokens
    → Fresh t tokens
    → AreDistinct (insert k t tokens)
unfolding AreDistinct Fresh
insert-AreDistinct k t tokens h fresh p q u hp hq = ground (
  arith,
  get-insert k p t tokens,
  get-insert k q t tokens,
  h p q u,
  fresh p,
  fresh q,
  str_eq_iff k p,
  str_eq_iff k q,
)

-- `seen` holds every token of the map.
Covers : List Str → Map Str → Type 0
Covers seen tokens = (p t : Str) → get p tokens ≡ some t → any (str_eq t) seen ≡ true

insert-Covers :
    (k t : Str) (seen : List Str) (tokens : Map Str)
    → Covers seen tokens
    → Covers (t ∷ seen) (insert k t tokens)
unfolding Covers
insert-Covers k t seen tokens h p u e =
    ground (arith, get-insert k p t tokens, h p u, str_eq_refl u)

Fresh-Covers :
    (t : Str) (seen : List Str) (tokens : Map Str)
    → Covers seen tokens
    → any (str_eq t) seen ≡ false
    → Fresh t tokens
unfolding Covers Fresh
Fresh-Covers t seen tokens h e p hp = ground (arith, h p t hp)

check_tokens-rest :
    (k t : Str) (extra : Map Str) (seen : List Str)
    → check_tokens ((k, t) ∷ extra) seen ≡ ok tt
    → (check_tokens extra (t ∷ seen) ≡ ok tt) × (any (str_eq t) seen ≡ false)
unfolding check_tokens
check_tokens-rest k t extra seen h = ground arith

extend-AreDistinct :
    (tokens extra : Map Str) (seen : List Str)
    → AreDistinct tokens
    → Covers seen tokens
    → check_tokens extra seen ≡ ok tt
    → AreDistinct (extend tokens extra)
unfolding extend
extend-AreDistinct tokens [] seen d c h = d
extend-AreDistinct tokens ((k, t) ∷ extra) seen d c h =
    let (hrest, new) = check_tokens-rest k t extra seen h in
    extend-AreDistinct (insert k t tokens) extra (t ∷ seen)
      (insert-AreDistinct k t tokens d (Fresh-Covers t seen tokens c new))
      (insert-Covers k t seen tokens c) hrest

single-AreDistinct : (k t : Str) → AreDistinct ((k, t) ∷ [])
unfolding AreDistinct get
single-AreDistinct k t p q u hp hq = ground (arith, str_eq_iff k p, str_eq_iff k q)

single-Covers : (k t : Str) → Covers (t ∷ []) ((k, t) ∷ [])
unfolding Covers get
single-Covers k t p u hp = ground (arith, str_eq_refl u)

build_tokens-parts :
    (d : Str) (extra tokens : Map Str)
    → build_tokens d extra ≡ ok tokens
    → (check_tokens extra (d ∷ []) ≡ ok tt) × (extend ((str "default", d) ∷ []) extra ≡ tokens)
unfolding build_tokens
build_tokens-parts d extra tokens h = ground arith

build_tokens-AreDistinct :
    (d : Str) (extra tokens : Map Str) → build_tokens d extra ≡ ok tokens → AreDistinct tokens
build_tokens-AreDistinct d extra tokens h =
    let (c, e) = build_tokens-parts d extra tokens h in
    rw (sym e) (
      extend-AreDistinct _ extra (d ∷ []) (single-AreDistinct (str "default") d)
        (single-Covers (str "default") d) c)

strip_prefix-append : (p b t : Str) → strip_prefix p b ≡ some t → b ≡ p ++ t
unfolding strip_prefix
strip_prefix-append [] b t h = ground arith
strip_prefix-append (c ∷ cs) [] t h = cc
strip_prefix-append (c ∷ cs) (d ∷ ds) t h = ground (arith, strip_prefix-append cs ds t)

extend-IsUnique : (tokens extra : Map Str) → IsUnique tokens → IsUnique (extend tokens extra)
unfolding extend
extend-IsUnique tokens [] u = u
extend-IsUnique tokens ((k, t) ∷ extra) u =
    extend-IsUnique (insert k t tokens) extra (insert-IsUnique k t tokens u)

single-IsUnique : (k t : Str) → IsUnique ((k, t) ∷ [])
unfolding get
single-IsUnique k t = (refl, tt)

build_tokens-IsUnique :
    (d : Str) (extra tokens : Map Str) → build_tokens d extra ≡ ok tokens → IsUnique tokens
build_tokens-IsUnique d extra tokens h =
    let (c, e) = build_tokens-parts d extra tokens h in
    rw (sym e) (extend-IsUnique ((str "default", d) ∷ []) extra (single-IsUnique (str "default") d))

find_profile-get :
    (tokens : Map Str) (t p : Str)
    → IsUnique tokens
    → find_profile tokens t ≡ some p
    → get p tokens ≡ some t
unfolding find_profile get
find_profile-get [] t p u h = cc
find_profile-get ((q, e) ∷ tokens) t p u h =
    ground (arith, find_profile-get tokens t p u.1, u.0, str_eq_iff q p, str_eq_iff e t)

connect_scoped-find_profile :
    (tokens : Map Str) (header : Option Str) (p : Str)
    → connect_scoped tokens header ≡ ok p
    → (t : Str) × (header ≡ some (str "Bearer " ++ t)) × (find_profile tokens t ≡ some p)
unfolding connect_scoped
connect_scoped-find_profile tokens none p h = cc
connect_scoped-find_profile tokens (some header) p h =
    elim (Option-cases (strip_prefix (str "Bearer ") header)) [
      | inl e ↦ ground arith
      | inr (t, e) ↦ (t, ap some (strip_prefix-append (str "Bearer ") header t e), ground arith)
    ]

run_socket-profile :
    (first : Option Frame) (p : Str) (acked : Bool) (frames : List Frame) (r : Registration)
    → run_socket first (some p) acked ≡ (frames, some r)
    → r.profile ≡ p
unfolding run_socket
run_socket-profile none p acked frames r h = ground arith
run_socket-profile (some (Frame.hello w v q l)) p acked frames r h = ground (arith, str_eq_iff p q)
run_socket-profile (some _) p acked frames r h = ground arith

-- Where the router was built, a worker that is registered under a profile presented that profile's token as its
-- bearer credential, and no other profile has this token.
pub run_socket-IsBound :
    (d : Str) (extra tokens : Map Str) (header : Option Str) (p : Str) (first : Option Frame)
    (acked : Bool) (frames : List Frame) (r : Registration)
    → build_tokens d extra ≡ ok tokens
    → connect_scoped tokens header ≡ ok p
    → run_socket first (some p) acked ≡ (frames, some r)
    → (t : Str) × (header ≡ some (str "Bearer " ++ t))
      × (get r.profile tokens ≡ some t)
      × ((q : Str) → get q tokens ≡ some t → q ≡ r.profile)
unfolding AreDistinct
run_socket-IsBound d extra tokens header p first acked frames r hb hc hr =
    let (t, ht, hf) = connect_scoped-find_profile tokens header p hc in
    let same : r.profile ≡ p = run_socket-profile first p acked frames r hr in
    let found : get p tokens ≡ some t =
      find_profile-get tokens t p (build_tokens-IsUnique d extra tokens hb) hf in
    (
      t,
      ht,
      rw same found,
      λ q hq. build_tokens-AreDistinct d extra tokens hb q r.profile t hq (rw same found),
    )
