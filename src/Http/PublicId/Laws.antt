-- ===== src/Http/PublicId/Laws.antt =====
-- shiitake-server/src/http/sessions.rs: the short ids against their random bytes.
use shiitake.Prelude.{
  ℕ, zero, suc, ◌+◌, ◌*◌, ◌/◌, ◌%◌, ◌^◌, ◌≤◌, ◌<◌, ◌≡◌, refl, sym, ap, ◌∙◌, Bool, true, false, List,
  [], ◌∷◌, arith, ◌==◌, if◌then◌else◌, ==_iff, length, all, All, Str, is_ascii_alphanumeric,
}
use native.Mathlib.Nat.{
  add-zero, pow-suc, div-div-eq-div-mul, div-eq_of_lt, pow-le-pow_right, mod-eq_of_lt, mod-lt,
}
use mathlib.Core.Path.{subst}
use shiitake.Api.Capture.{is_id_byte}
use shiitake.Pool.Ids.{valid_capture_id}
use shiitake.Http.PublicId.{push_byte, fold_bytes, alphabet, char_at, digits, encode_public_id}

-- Facts about the 32 characters, by evaluation.
holds_under : (ℕ → Bool) → ℕ → Bool
holds_under test zero = true
holds_under test (suc top) = if test top then holds_under test top else false

holds_under_lem :
    (test : ℕ → Bool) (top digit : ℕ)
    → digit < top
    → holds_under test top ≡ true
    → test digit ≡ true
unfolding holds_under
holds_under_lem test zero digit less h = absurd (omega arith)
holds_under_lem test (suc top) digit less h = ground (arith, holds_under_lem test top digit)

index_of : ℕ → Str → ℕ
index_of c [] = 0
index_of c (d ∷ ds) = if c == d then 0 else suc (index_of c ds)

index_table : holds_under (λ d. index_of (char_at alphabet d) alphabet == d) 32 ≡ true
unfolding holds_under index_of char_at
index_table = refl

id_table : holds_under (λ d. is_id_byte (char_at alphabet d)) 32 ≡ true
unfolding holds_under char_at is_id_byte is_ascii_alphanumeric
id_table = refl

char_at-injective : (d e : ℕ) → d < 32 → e < 32 → char_at alphabet d ≡ char_at alphabet e → d ≡ e
char_at-injective d e hd he h =
    sym ((==_iff _ d).0 (holds_under_lem _ 32 d hd index_table))
    ∙ ap (λ c. index_of c alphabet) h
    ∙ (==_iff _ e).0 (holds_under_lem _ 32 e he index_table)

shift-suc : (n : ℕ) → 2 ^ (suc n * 5) ≡ 2 ^ (n * 5) * 32
shift-suc n =
    let e : suc n * 5 ≡ suc (suc (suc (suc (suc (n * 5))))) = omega arith in
    rw (e, pow-suc, pow-suc, pow-suc, pow-suc, pow-suc) (omega arith)

same_quotient : (p q : ℕ) → p / 32 ≡ q / 32 → p % 32 ≡ q % 32 → p ≡ q
same_quotient p q h l = omega arith

head_eq : {c d : ℕ} {cs ds : Str} → c ∷ cs ≡ d ∷ ds → c ≡ d
head_eq h = ground (arith, h)

tail_eq : {c d : ℕ} {cs ds : Str} → c ∷ cs ≡ d ∷ ds → cs ≡ ds
tail_eq h = ground (arith, h)

digits-injective : (n v w : ℕ) → v / 2 ^ (n * 5) ≡ w / 2 ^ (n * 5) → digits n v ≡ digits n w → v ≡ w
unfolding digits
digits-injective zero v w h e = omega arith
digits-injective (suc n) v w h e =
    digits-injective n v w (same_quotient (v / 2 ^ (n * 5)) (w / 2 ^ (n * 5)) high low) (tail_eq e)
  where
    low : v / 2 ^ (n * 5) % 32 ≡ w / 2 ^ (n * 5) % 32
    low = char_at-injective _ _ (mod-lt _ (omega arith)) (mod-lt _ (omega arith)) (head_eq e)

    high : v / 2 ^ (n * 5) / 32 ≡ w / 2 ^ (n * 5) / 32
    high =
        div-div-eq-div-mul v _ 32
        ∙ ap (λ q. v / q) (sym (shift-suc n))
        ∙ h
        ∙ ap (λ q. w / q) (shift-suc n)
        ∙ sym (div-div-eq-div-mul w _ 32)

push_byte-exact : (k a x : ℕ) → a < 256 ^ k → suc k ≤ 16 → push_byte a x ≡ a * 256 + x
unfolding push_byte
push_byte-exact k a x h r =
    let wide : 256 ^ suc k ≡ 256 ^ k * 256 = pow-suc 256 k in
    let top : 256 ^ suc k ≤ 256 ^ 16 = pow-le-pow_right (omega arith) r in
    ap (λ y. y + x) (mod-eq_of_lt (omega arith))

push_byte-bound : (k a x : ℕ) → a < 256 ^ k → suc k ≤ 16 → x < 256 → push_byte a x < 256 ^ suc k
push_byte-bound k a x h r hx =
    let wide : 256 ^ suc k ≡ 256 ^ k * 256 = pow-suc 256 k in
    let e : push_byte a x ≡ a * 256 + x = push_byte-exact k a x h r in omega arith

fold_bytes-bound :
    (k a : ℕ) (xs : List ℕ)
    → a < 256 ^ k
    → k + length xs ≤ 16
    → All (λ x. x < 256) xs
    → fold_bytes a xs < 256 ^ (k + length xs)
unfolding fold_bytes
fold_bytes-bound k a [] h r hx = rw (add-zero k) h
fold_bytes-bound k a (x ∷ xs) h r (hx, hxs) =
    let more : k + suc (length xs) ≡ suc k + length xs = omega arith in
    rw more (
      fold_bytes-bound (suc k) (push_byte a x) xs (push_byte-bound k a x h (omega arith) hx)
        (omega arith) hxs)

fold_bytes-injective :
    (k a b : ℕ) (xs ys : List ℕ)
    → a < 256 ^ k
    → b < 256 ^ k
    → k + length xs ≤ 16
    → length xs ≡ length ys
    → All (λ x. x < 256) xs
    → All (λ x. x < 256) ys
    → fold_bytes a xs ≡ fold_bytes b ys
    → (a ≡ b) × (xs ≡ ys)
unfolding fold_bytes
fold_bytes-injective k a b [] [] ha hb r l hx hy h = (h, refl)
fold_bytes-injective k a b [] (y ∷ ys) ha hb r l hx hy h = absurd (omega arith)
fold_bytes-injective k a b (x ∷ xs) [] ha hb r l hx hy h = absurd (omega arith)
fold_bytes-injective k a b (x ∷ xs) (y ∷ ys) ha hb r l (hx, hxs) (hy, hys) h =
    let rest =
      fold_bytes-injective (suc k) (push_byte a x) (push_byte b y) xs ys
        (push_byte-bound k a x ha (omega arith) hx) (push_byte-bound k b y hb (omega arith) hy)
        (omega arith) (omega arith) hxs hys h in
    let ea : push_byte a x ≡ a * 256 + x = push_byte-exact k a x ha (omega arith) in
    let eb : push_byte b y ≡ b * 256 + y = push_byte-exact k b y hb (omega arith) in
    let sum : a * 256 + x ≡ b * 256 + y = sym ea ∙ rest.0 ∙ eb in
    let hi : a ≡ b = omega arith in let lo : x ≡ y = omega arith in (hi, cc (lo, rest.1))

ten_bytes-bound :
    (xs : List ℕ) → length xs ≡ 10 → All (λ x. x < 256) xs → fold_bytes 0 xs < 2 ^ (16 * 5)
ten_bytes-bound xs l h =
    let b = fold_bytes-bound 0 0 xs (omega arith) (omega arith) h in
    let ten : 0 + length xs ≡ 10 = omega arith in
    let c : fold_bytes 0 xs < 256 ^ 10 = subst (λ n. fold_bytes 0 xs < 256 ^ n) ten b in omega arith

-- Two ids of one kind, made of ten bytes each, are equal only when the bytes are.
pub encode_public_id-injective :
    (kind : ℕ) (xs ys : List ℕ)
    → length xs ≡ 10
    → length ys ≡ 10
    → All (λ x. x < 256) xs
    → All (λ x. x < 256) ys
    → encode_public_id kind xs ≡ encode_public_id kind ys
    → xs ≡ ys
unfolding encode_public_id
encode_public_id-injective kind xs ys lx ly hx hy h =
    let bx : fold_bytes 0 xs < 2 ^ (16 * 5) = ten_bytes-bound xs lx hx in
    let by : fold_bytes 0 ys < 2 ^ (16 * 5) = ten_bytes-bound ys ly hy in
    let same =
      digits-injective 16 _ _ (div-eq_of_lt bx ∙ sym (div-eq_of_lt by)) (tail_eq (tail_eq h)) in
    (fold_bytes-injective 0 0 0 xs ys (omega arith) (omega arith) (omega arith) (omega arith) hx hy
      same).1

digits-length : (n v : ℕ) → length (digits n v) ≡ n
unfolding digits
digits-length zero v = refl
digits-length (suc n) v = ap suc (digits-length n v)

digits-valid : (n v : ℕ) → all is_id_byte (digits n v) ≡ true
unfolding digits
digits-valid zero v = refl
digits-valid (suc n) v =
    rw (holds_under_lem _ 32 (v / 2 ^ (n * 5) % 32) (mod-lt _ (omega arith)) id_table)
      (digits-valid n v)

joined-valid :
    (kind : ℕ) (ds : Str)
    → is_id_byte kind ≡ true
    → length ds ≡ 16
    → all is_id_byte ds ≡ true
    → valid_capture_id (kind ∷ b'-' ∷ ds) ≡ true
unfolding valid_capture_id is_id_byte
joined-valid kind ds h l v = ground arith

-- Whatever the random bytes are, a session id and a command id have eighteen bytes, and each is a valid capture
-- id, so that it can name a capture directory.
pub encode_public_id-valid :
    (kind : ℕ) (xs : List ℕ)
    → is_id_byte kind ≡ true
    → (length (encode_public_id kind xs) ≡ 18)
      × (valid_capture_id (encode_public_id kind xs) ≡ true)
unfolding encode_public_id
encode_public_id-valid kind xs h =
    let n = digits-length 16 (fold_bytes 0 xs) in
    let v = digits-valid 16 (fold_bytes 0 xs) in
    (ap (λ n. suc (suc n)) n, joined-valid kind _ h n v)
