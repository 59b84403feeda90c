-- ===== src/Worker/Stateful/Quoting.antt =====
-- client.rs: how the shell reads a quoted path, and how the session reads the echo of the line.
use mathlib.Core.List.{append_assoc}
use shiitake.Prelude.{
  ℕ, ◌≡◌, refl, sym, ap, ◌∙◌, inl, inr, Bool, true, false, ◌&&◌, ◌||◌, Option, none, some, List, [],
  ◌∷◌, ◌++◌, arith, ◌==◌, if◌then◌else◌, ==_iff, Bool-cases, all, any, Str, str,
  is_ascii_alphanumeric, Result, ok, err,
}
use shiitake.Prelude.Strings.Laws.{lacks}
use shiitake.Prelude.Strings.{concat, starts_with}
use shiitake.Api.Utf8.{is_utf8, from_utf8_lossy, from_utf8_lossy-valid, from_utf8_lossy-lacks}
use shiitake.Api.Wire.{ExecuteFrame}
use shiitake.Api.Capture.{
  handle_dir, stream_path, join, join_cases, sanitize_id, is_id_byte, file_name,
}
use shiitake.Worker.Marker.{feed_all, new_completion}
use shiitake.Worker.Marker.Windows.{strip}
use shiitake.Worker.Marker.Strip.{feed_all-strip}
use shiitake.Worker.Stateful.{finish_pieces, replace_quotes, shell_quote, prepare_stateful_job}

-- The bytes that end a word, and those that mean more than themselves outside quotes.
abbrev ends_word : ℕ → Bool
ends_word b = b == 32 || (b == b';' || b == 10)

abbrev is_special : ℕ → Bool
is_special b = any (λ c. b == c) (str "$`\"<>|&()*?[~#{}!")

abbrev onto : ℕ → Option (Str × Str) → Option (Str × Str)
onto b none = none
onto b (some (word, rest)) = some (b ∷ word, rest)

-- The shell's reading of a word of plain bytes, escaped bytes and parts in single quotes: the word and
-- what follows it. The Boolean tells whether the reader is inside quotes.
abbrev pub shell_word : Bool → Str → Option (Str × Str)
shell_word true [] = none
shell_word true (b ∷ bs) = if b == 39 then shell_word false bs else onto b (shell_word true bs)
shell_word false [] = some ([], [])
shell_word false (b ∷ []) =
    if ends_word b
    then some ([], b ∷ [])
    else if b == 39 || (b == 92 || is_special b)
    then none
    else some (b ∷ [], [])
shell_word false (b ∷ c ∷ bs) =
    if ends_word b
    then some ([], b ∷ c ∷ bs)
    else if b == 39
    then shell_word true (c ∷ bs)
    else if b == 92
    then onto c (shell_word false bs)
    else if is_special b
    then none
    else onto b (shell_word false (c ∷ bs))

shell_word-end :
    (b : ℕ) (rest : Str) → ends_word b ≡ true → shell_word false (b ∷ rest) ≡ some ([], b ∷ rest)
shell_word-end b [] h = rw (h, if◌then◌else◌) refl
shell_word-end b (c ∷ rest) h = rw (h, if◌then◌else◌) refl

shell_word-open : (text : Str) → shell_word false (39 ∷ text) ≡ shell_word true text
shell_word-open [] = refl
shell_word-open (b ∷ bs) = refl

shell_word-replace_quotes :
    (path : Str) (b : ℕ) (rest : Str)
    → ends_word b ≡ true
    → shell_word true (replace_quotes path ++ 39 ∷ b ∷ rest) ≡ some (path, b ∷ rest)
unfolding replace_quotes
shell_word-replace_quotes [] b rest h = shell_word-end b rest h
shell_word-replace_quotes (c ∷ path) b rest h =
    let ih = shell_word-replace_quotes path b rest h in
    elim (Bool-cases (c == 39)) [
      | inl e ↦
          rw ((==_iff c 39).0 e)
            (ap (onto 39) (shell_word-open (replace_quotes path ++ 39 ∷ b ∷ rest) ∙ ih))
      | inr e ↦ rw (e, if◌then◌else◌) (rw (e, if◌then◌else◌) (ap (onto c) ih))
    ]

-- What the shell should read for a path.
abbrev pub readable : Str → Str
readable path = if is_utf8 path then path else from_utf8_lossy path

readable_lem : (path : Str) → from_utf8_lossy path ≡ readable path
readable_lem path = ground (arith, from_utf8_lossy-valid path)

-- Whatever the bytes of a path are, the shell reads its quotation, up to a blank, a semicolon or the
-- line's end, as one word: the path itself where it is UTF-8, and else its lossy conversion.
pub shell_word-shell_quote :
    (path : Str) (b : ℕ) (rest : Str)
    → ends_word b ≡ true
    → shell_word false (shell_quote path ++ b ∷ rest) ≡ some (readable path, b ∷ rest)
unfolding shell_quote
shell_word-shell_quote path b rest h =
    let lossy = from_utf8_lossy path in
    shell_word-open ((replace_quotes lossy ++ 39 ∷ []) ++ b ∷ rest)
    ∙ (rw (append_assoc (replace_quotes lossy) (39 ∷ []) (b ∷ rest))
          (shell_word-replace_quotes lossy b rest h)
        ∙ ap (λ word. some (word, b ∷ rest)) (readable_lem path))

lacks-append : (b : ℕ) (xs ys : Str) → lacks b (xs ++ ys) ≡ (lacks b xs && lacks b ys)
lacks-append b [] ys = refl
lacks-append b (x ∷ xs) ys = ground (arith, lacks-append b xs ys)

lacks_escape-replace_quotes :
    (path : Str) → lacks 27 path ≡ true → lacks 27 (replace_quotes path) ≡ true
unfolding replace_quotes
lacks_escape-replace_quotes [] h = refl
lacks_escape-replace_quotes (b ∷ bs) h = ground (arith, lacks_escape-replace_quotes bs)

lacks_escape-shell_quote : (path : Str) → lacks 27 path ≡ true → lacks 27 (shell_quote path) ≡ true
unfolding shell_quote
lacks_escape-shell_quote path h =
    let lossy = from_utf8_lossy path in
    let lacking = lacks_escape-replace_quotes lossy (from_utf8_lossy-lacks 27 path refl h) in
    lacks-append 27 (replace_quotes lossy) (39 ∷ []) ∙ rw lacking refl

lacks_escape-join :
    (root path : Str)
    → lacks 27 root ≡ true
    → lacks 27 path ≡ true
    → lacks 27 (join root path) ≡ true
lacks_escape-join root path hr hp = elim (join_cases root path) [
  | inl e ↦ rw e hp
  | inr (inl e) ↦ rw e (lacks-append 27 root path ∙ rw (hr, hp) refl)
  | inr (inr e) ↦ rw e (lacks-append 27 root (b'/' ∷ path) ∙ rw (hr, hp) refl)
]

lacks_escape-sanitize_id : (id : Str) → lacks 27 (sanitize_id id) ≡ true
unfolding sanitize_id is_id_byte is_ascii_alphanumeric
lacks_escape-sanitize_id [] = refl
lacks_escape-sanitize_id (b ∷ bs) = ground (arith, lacks_escape-sanitize_id bs)

lacks-concat :
    (b : ℕ) (pieces : List Str) → all (lacks b) pieces ≡ true → lacks b (concat pieces) ≡ true
lacks-concat b [] h = refl
lacks-concat b (xs ∷ pieces) h =
    ground (arith, lacks-append b xs (concat pieces), lacks-concat b pieces)

lacks_escape-finish_pieces :
    (cwd env status script out errors nonce : Str)
    → all (lacks 27) (cwd ∷ env ∷ status ∷ script ∷ out ∷ errors ∷ nonce ∷ []) ≡ true
    → lacks 27 (concat (finish_pieces cwd env status script out errors nonce)) ≡ true
lacks_escape-finish_pieces cwd env status script out errors nonce h =
    lacks-concat 27 (finish_pieces cwd env status script out errors nonce) h

strip-unseen : (marker bytes : Str) → lacks 27 bytes ≡ true → (strip (27 ∷ marker) bytes).1 ≡ false
unfolding starts_with
strip-unseen marker [] h = refl
strip-unseen marker (b ∷ bs) h = ground (arith, strip-unseen marker bs)

abbrev made : Result (Str × Str) Str → Str × Str
made (ok pair) = pair
made (err e) = ([], [])

feed_all-unseen :
    (marker line : Str) (reads : List Str)
    → lacks 27 line ≡ true
    → concat reads ≡ line
    → (feed_all (new_completion (27 ∷ marker)) reads).1.seen ≡ false
feed_all-unseen marker line reads h e =
    let stripped = feed_all-strip (27 ∷ marker) reads (omega arith) in
    ap (λ r. r.1) stripped.0 ∙ rw e (strip-unseen marker line h)

-- Where the capture root and the nonce have no escape byte, the line has none, so its echo is never
-- taken for the end of the command, however the terminal cuts it into reads.
pub prepare_stateful_job-IsUnseen :
    (root : Str) (execute : ExecuteFrame) (nonce : Str) (failure : Option Str) (line marker : Str)
    → prepare_stateful_job root execute nonce failure ≡ ok (line, marker)
    → lacks 27 root ≡ true
    → lacks 27 nonce ≡ true
    → (lacks 27 line ≡ true)
      × ((reads : List Str)
          → concat reads ≡ line
          → (feed_all (new_completion marker) reads).1.seen ≡ false)
unfolding prepare_stateful_job stream_path handle_dir file_name
prepare_stateful_job-IsUnseen root execute nonce none line marker h hr hn =
    let id = execute.request_id in
    let dir = lacks_escape-join root (sanitize_id id) hr (lacks_escape-sanitize_id id) in
    let d = join root (sanitize_id id) in
    let quoted : (name : Str) → lacks 27 name ≡ true → lacks 27 (shell_quote (join d name)) ≡ true =
      λ name hname. lacks_escape-shell_quote (join d name) (lacks_escape-join d name dir hname) in
    let line_of : Str = concat (
      finish_pieces (shell_quote (join d (str "cwd"))) (shell_quote (join d (str "env")))
        (shell_quote (join d (str "status"))) (shell_quote (join d (str "command.sh")))
        (shell_quote (join d (str "stdout"))) (shell_quote (join d (str "stderr"))) nonce) in
    let lacking : lacks 27 line_of ≡ true =
      lacks_escape-finish_pieces (shell_quote (join d (str "cwd")))
        (shell_quote (join d (str "env"))) (shell_quote (join d (str "status")))
        (shell_quote (join d (str "command.sh"))) (shell_quote (join d (str "stdout")))
        (shell_quote (join d (str "stderr"))) nonce
        (rw
          (
            quoted (str "cwd") refl,
            quoted (str "env") refl,
            quoted (str "status") refl,
            quoted (str "command.sh") refl,
            quoted (str "stdout") refl,
            quoted (str "stderr") refl,
            hn,
          )
          refl) in
    let written : line_of ≡ line = ap (λ r. (made r).0) h in
    let marked : 27 ∷ (str "]shiitake-complete:" ++ nonce ++ 7 ∷ []) ≡ marker =
      ap (λ r. (made r).1) h in
    (
      rw (sym written) lacking,
      λ reads e. rw (sym marked) (
          feed_all-unseen (str "]shiitake-complete:" ++ nonce ++ 7 ∷ []) line_of reads lacking
            (e ∙ sym written)),
    )
prepare_stateful_job-IsUnseen root execute nonce (some e) line marker h hr hn = cc
