-- ===== src/Api/Capture/Paths.antt =====
-- The capture directories of distinct handles are distinct, and lie directly below the root.
use shiitake.Prelude.{
  ◌≡◌, refl, sym, ◌∙◌, true, not, ◌&&◌, [], ◌∷◌, ◌++◌, arith, ◌==◌, all, Str, is_ascii_alphanumeric,
}
use shiitake.Api.Capture.{join, is_id_byte, sanitize_id, handle_dir, separator}

-- An id that the filter leaves alone.
pub sanitize_id-eq : (id : Str) → all is_id_byte id ≡ true → sanitize_id id ≡ id
unfolding sanitize_id
sanitize_id-eq [] h = refl
sanitize_id-eq (b ∷ bs) h = ground (arith, sanitize_id-eq bs)

-- What the filter leaves has no separator and no dot.
pub sanitize_id_safe :
    (id : Str) → all (λ b. not (b == b'/') && not (b == b'.')) (sanitize_id id) ≡ true
unfolding sanitize_id is_ascii_alphanumeric
sanitize_id_safe [] = refl
sanitize_id_safe (b ∷ bs) = ground (arith, sanitize_id_safe bs)

append_cancel : (xs ys zs : Str) → xs ++ ys ≡ xs ++ zs → ys ≡ zs
append_cancel [] ys zs h = h
append_cancel (x ∷ xs) ys zs h = append_cancel xs ys zs (ground arith)

safe-join :
    (root id : Str) → join root (sanitize_id id) ≡ root ++ (separator root ++ sanitize_id id)
unfolding join
safe-join root id = go (sanitize_id id) (sanitize_id_safe id)
  where
    go :
        (s : Str)
        → all (λ b. not (b == b'/') && not (b == b'.')) s ≡ true
        → join root s ≡ root ++ (separator root ++ s)
    go [] h = refl
    go (b ∷ bs) h = ground arith

pub handle_dir-injective :
    (root a b : Str)
    → all is_id_byte a ≡ true
    → all is_id_byte b ≡ true
    → handle_dir root a ≡ handle_dir root b
    → a ≡ b
unfolding handle_dir
handle_dir-injective root a b ha hb h =
    sym (sanitize_id-eq a ha)
    ∙ append_cancel (separator root) _ _
        (append_cancel root _ _ (sym (safe-join root a) ∙ h ∙ safe-join root b))
    ∙ sanitize_id-eq b hb
