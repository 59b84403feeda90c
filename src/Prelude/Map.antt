-- ===== src/Prelude/Map.antt =====
-- `HashMap` and `BTreeMap` with string keys, as association lists. The order of the entries stands
-- for the iteration order, of which nothing is claimed.
use mathlib.Core.Path.{◌≡◌, refl}
use mathlib.Core.Bool.{Bool, false}
use mathlib.Core.Option.{Option, none, some}
use mathlib.Core.List.{List, [], ◌∷◌, map}
use native.Mathlib.Omega.{arith}
use mathlib.Core.Logic.{inl, inr}
use shiitake.Prelude.Tests.{if◌then◌else◌, is_some, Bool-cases}
use shiitake.Prelude.Lists.{All, any, retain}
use shiitake.Prelude.Text.{Str, str_eq, str_eq_iff}

abbrev pub Map {ℓ} : Type ℓ → Type ℓ
Map V = List (Str × V)

module _ {ℓ} {V : Type ℓ} where
  unfoldable pub get : Str → Map V → Option V
  get k [] = none
  get k ((j, v) ∷ m) = if str_eq j k then some v else get k m

  abbrev pub contains_key : Str → Map V → Bool
  contains_key k m = is_some (get k m)

  unfoldable pub insert : Str → V → Map V → Map V
  insert k v [] = (k, v) ∷ []
  insert k v ((j, w) ∷ m) = if str_eq j k then (k, v) ∷ m else (j, w) ∷ insert k v m

  unfoldable pub remove : Str → Map V → Map V
  remove k [] = []
  remove k ((j, v) ∷ m) = if str_eq j k then remove k m else (j, v) ∷ remove k m

  -- `if let Some(v) = m.get_mut(k) { *v = f(*v) }`
  unfoldable pub adjust : Str → (V → V) → Map V → Map V
  adjust k f [] = []
  adjust k f ((j, v) ∷ m) = if str_eq j k then (j, f v) ∷ m else (j, v) ∷ adjust k f m

  abbrev pub values : Map V → List V
  values = map λ e. e.1

  abbrev pub keys : Map V → List Str
  keys = map λ e. e.0

  pub get-insert :
      (k j : Str) (v : V) (m : Map V)
      → get j (insert k v m) ≡ (if str_eq k j then some v else get j m)
  unfolding get insert
  get-insert k j v [] = refl
  get-insert k j v ((i, w) ∷ m) =
      ground (arith, str_eq_iff k j, str_eq_iff i k, str_eq_iff i j, get-insert k j v m)

  pub get-remove :
      (k j : Str) (m : Map V) → get j (remove k m) ≡ (if str_eq k j then none else get j m)
  unfolding get remove
  get-remove k j [] = ground arith
  get-remove k j ((i, w) ∷ m) =
      ground (arith, str_eq_iff k j, str_eq_iff i k, str_eq_iff i j, get-remove k j m)

  pub get-adjust :
      (k j : Str) (f : V → V) (m : Map V)
      → get j (adjust k f m)
        ≡ (if str_eq k j then elim (get j m) [ none ↦ none | some v ↦ some (f v) ] else get j m)
  unfolding get adjust
  get-adjust k j f [] = ground arith
  get-adjust k j f ((i, w) ∷ m) =
      ground (arith, str_eq_iff k j, str_eq_iff i k, str_eq_iff i j, get-adjust k j f m)

  -- A property of all values.
  abbrev pub AllValues {κ} : (V → Type κ) → Map V → Type κ
  AllValues P m = All (λ e. P e.1) m

  pub get-AllValues {κ} :
      (P : V → Type κ) (k : Str) (m : Map V) (v : V) → AllValues P m → get k m ≡ some v → P v
  unfolding get
  get-AllValues P k [] v h e = cc
  get-AllValues P k ((j, w) ∷ m) v h e = ground (arith, get-AllValues P k m v h.1)

  pub insert-AllValues {κ} :
      (P : V → Type κ) (k : Str) (v : V) (m : Map V)
      → P v
      → AllValues P m
      → AllValues P (insert k v m)
  unfolding insert
  insert-AllValues P k v [] hv h = (hv, tt)
  insert-AllValues P k v ((j, w) ∷ m) hv h = ground (arith, insert-AllValues P k v m hv h.1)

  pub remove-AllValues {κ} :
      (P : V → Type κ) (k : Str) (m : Map V) → AllValues P m → AllValues P (remove k m)
  unfolding remove
  remove-AllValues P k [] h = tt
  remove-AllValues P k ((j, w) ∷ m) h = ground (arith, remove-AllValues P k m h.1)

  pub adjust-AllValues {κ} :
      (P : V → Type κ) (k : Str) (f : V → V) (m : Map V)
      → ((v : V) → P v → P (f v))
      → AllValues P m
      → AllValues P (adjust k f m)
  unfolding adjust
  adjust-AllValues P k f [] keep h = tt
  adjust-AllValues P k f ((j, w) ∷ m) keep h =
      ground (arith, keep w h.0, adjust-AllValues P k f m keep h.1)

  -- `adjust` changes the value that `get` finds, and no other.
  pub adjust_at-AllValues {κ} :
      (P : V → Type κ) (k : Str) (f : V → V) (m : Map V)
      → ((v : V) → get k m ≡ some v → P v → P (f v))
      → AllValues P m
      → AllValues P (adjust k f m)
  unfolding adjust get
  adjust_at-AllValues P k f [] keep h = tt
  adjust_at-AllValues P k f ((j, w) ∷ m) keep h = elim (Bool-cases (str_eq j k)) [
    | inl e ↦ rw (e, adjust) (keep w (rw e) h.0, h.1)
    | inr e ↦ rw (e, adjust) (h.0, adjust_at-AllValues P k f m (λ v g. keep v (rw e g)) h.1)
  ]

  pub retain-AllValues {κ} :
      (P : V → Type κ) (p : Str × V → Bool) (m : Map V) → AllValues P m → AllValues P (retain p m)
  retain-AllValues P p [] h = tt
  retain-AllValues P p (e ∷ m) h = ground (arith, retain-AllValues P p m h.1)

  -- No key stands twice.
  abbrev pub IsUnique : Map V → Type 0
  IsUnique [] = Unit
  IsUnique ((k, v) ∷ m) = (contains_key k m ≡ false) × IsUnique m

  pub insert-IsUnique : (k : Str) (v : V) (m : Map V) → IsUnique m → IsUnique (insert k v m)
  unfolding insert get
  insert-IsUnique k v [] h = (refl, tt)
  insert-IsUnique k v ((j, w) ∷ m) h =
      ground (arith, insert-IsUnique k v m h.1, get-insert k j v m, str_eq_iff j k, str_eq_iff k j)

  pub remove-IsUnique : (k : Str) (m : Map V) → IsUnique m → IsUnique (remove k m)
  unfolding remove
  remove-IsUnique k [] h = tt
  remove-IsUnique k ((j, w) ∷ m) h =
      ground (arith, remove-IsUnique k m h.1, get-remove k j m, str_eq_iff j k, str_eq_iff k j)

  pub adjust-IsUnique : (k : Str) (f : V → V) (m : Map V) → IsUnique m → IsUnique (adjust k f m)
  unfolding adjust
  adjust-IsUnique k f [] h = tt
  adjust-IsUnique k f ((j, w) ∷ m) h =
      ground (arith, adjust-IsUnique k f m h.1, get-adjust k j f m, str_eq_iff j k, str_eq_iff k j)

  get-retain_absent :
      (p : Str × V → Bool) (k : Str) (m : Map V)
      → contains_key k m ≡ false
      → get k (retain p m) ≡ none
  unfolding get
  get-retain_absent p k [] h = refl
  get-retain_absent p k ((j, w) ∷ m) h = ground (arith, get-retain_absent p k m)

  pub retain-IsUnique : (p : Str × V → Bool) (m : Map V) → IsUnique m → IsUnique (retain p m)
  retain-IsUnique p [] h = tt
  retain-IsUnique p ((j, w) ∷ m) h =
      ground (arith, retain-IsUnique p m h.1, get-retain_absent p j m h.0)

  abbrev pub keep_if : (Str × V → Bool) → Str → Option V → Option V
  keep_if p k none = none
  keep_if p k (some v) = if p (k, v) then some v else none

  pub get-retain :
      (p : Str × V → Bool) (k : Str) (m : Map V)
      → IsUnique m
      → get k (retain p m) ≡ keep_if p k (get k m)
  unfolding get
  get-retain p k [] h = refl
  get-retain p k ((j, w) ∷ m) h =
      ground (arith, get-retain p k m h.1, get-retain_absent p j m h.0, str_eq_iff j k)

  -- `iter_mut()`: every value is rewritten.
  abbrev pub map_values : (V → V) → Map V → Map V
  map_values f = map λ e. (e.0, f e.1)

  pub get-map_values :
      (k : Str) (f : V → V) (m : Map V)
      → get k (map_values f m) ≡ elim (get k m) [ none ↦ none | some v ↦ some (f v) ]
  unfolding get
  get-map_values k f [] = refl
  get-map_values k f ((j, w) ∷ m) = ground (arith, get-map_values k f m)

  pub map_values-AllValues {κ} :
      (P : V → Type κ) (f : V → V) (m : Map V)
      → ((v : V) → P v → P (f v))
      → AllValues P m
      → AllValues P (map_values f m)
  map_values-AllValues P f [] keep h = tt
  map_values-AllValues P f ((j, w) ∷ m) keep h = (keep w h.0, map_values-AllValues P f m keep h.1)

  any-keys : (k : Str) (m : Map V) → any (str_eq k) (keys m) ≡ contains_key k m
  unfolding get
  any-keys k [] = refl
  any-keys k ((j, w) ∷ m) = ground (arith, any-keys k m, str_eq_iff k j, str_eq_iff j k)

  -- The key stands among those of the entries that pass the test.
  pub any-keys-retain :
      (p : Str × V → Bool) (k : Str) (m : Map V)
      → IsUnique m
      → any (str_eq k) (keys (retain p m)) ≡ elim (get k m) [ none ↦ false | some v ↦ p (k, v) ]
  any-keys-retain p k m u = rw (any-keys k (retain p m), get-retain p k m u) (ground arith)
