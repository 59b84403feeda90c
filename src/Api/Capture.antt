-- ===== src/Api/Capture.antt =====
-- shiitake-worker-api/src/capture.rs: where a handle's output lies, and the sweep at startup. Paths
-- are strings; what the file system answers is an argument.
pub mod Paths
use shiitake.Prelude.{
  ℕ, zero, suc, ◌+◌, ◌-◌, ◌*◌, ◌/◌, ◌%◌, ◌^◌, ◌≤◌, ◌<◌, String, ◌≡◌, refl, sym, ap, ◌∙◌, ◌≢◌, ◌↔◌,
  ◌⊎◌, inl, inr, Bool, true, false, not, ◌&&◌, ◌||◌, Option, none, some, List, [], ◌∷◌, ◌++◌, map,
  arith, ltb, leb, ◌==◌, if◌then◌else◌, ltb→lt, leb→le, ==_iff, Bool-cases, Option-cases, is_some,
  is_none, length, take, drop, is_empty, all, any, retain, count, All, length-append, count-append,
  All-append, take-length-append, drop-length-append, take-append-drop, length-take, All-retain,
  Str, str, str_eq, str_eq_iff, str_eq_refl, str_le, str_le-total, is_ascii_alphanumeric, Result,
  ok, err, ◌>>=◌, ok_or, ℤ, pos, negsuc,
}
use shiitake.Api.Wire.{ExecId}

pub data Stream : Type 0 where
  stdout stderr : Stream

unfoldable pub file_name : Stream → Str
file_name stdout = str "stdout"
file_name stderr = str "stderr"

-- `Path::join`: an absolute right side replaces the left, else one separator stands between.
ends_with_slash : Str → Bool
ends_with_slash [] = true
ends_with_slash (b ∷ []) = b == b'/'
ends_with_slash (b ∷ c ∷ bs) = ends_with_slash (c ∷ bs)

starts_with_slash : Str → Bool
starts_with_slash [] = false
starts_with_slash (b ∷ bs) = b == b'/'

separator : Str → Str
unfolding ends_with_slash
separator root = if ends_with_slash root then [] else b'/' ∷ []

unfoldable pub join : Str → Str → Str
unfolding starts_with_slash separator
join root path = if starts_with_slash path then path else root ++ (separator root ++ path)

pub join_cases :
    (root path : Str)
    → (join root path ≡ path)
      ⊎ (join root path ≡ root ++ path)
      ⊎ (join root path ≡ root ++ b'/' ∷ path)
unfolding join
join_cases root path = ground arith

-- `c.is_ascii_alphanumeric() || c == '-' || c == '_'`
unfoldable pub is_id_byte : ℕ → Bool
is_id_byte b = is_ascii_alphanumeric b || b == b'-' || b == b'_'

-- Bytes stand for characters: a byte of a longer sequence is dropped, as its character is.
unfoldable pub sanitize_id : Str → Str
unfolding is_id_byte
sanitize_id = retain is_id_byte

unfoldable pub handle_dir : Str → ExecId → Str
handle_dir root id = join root (sanitize_id id)

unfoldable pub stream_path : Str → ExecId → Stream → Str
stream_path root id stream = join (handle_dir root id) (file_name stream)

-- One entry that `purge_orphans` meets: a directory whose removal succeeds or fails, an entry of
-- another type, or one whose type cannot be read.
pub data Entry : Type 0 where
  directory : Str → Option Str → Entry
  other : Str → Entry
  unreadable : Str → Str → Entry

-- The loop over `read_dir`, with what it counts and collects.
unfoldable pub purge_entries : ℕ → List (Str × Str) → List Entry → ℕ × List (Str × Str)
purge_entries removed failed [] = (removed, failed)
purge_entries removed failed (directory path none ∷ es) = purge_entries (removed + 1) failed es
purge_entries removed failed (directory path (some e) ∷ es) =
    purge_entries removed (failed ++ (path, e) ∷ []) es
purge_entries removed failed (other path ∷ es) = purge_entries removed failed es
purge_entries removed failed (unreadable path e ∷ es) =
    purge_entries removed (failed ++ (path, e) ∷ []) es
