-- ===== src/Parser.antt =====
-- src/prxref/parser.py: the string-aware search for balanced spans in a model's reply.
pub mod Trees
pub mod Span
pub mod Tests
use prxref.Base.{
  ℕ, zero, suc, ◌+◌, ◌-◌, Bool, true, false, Option, none, some, List, [], ◌∷◌, length, ltb, ◌==◌,
  if◌then◌else◌,
}
use prxref.Base.Text.{Text}

-- `in_str` and `escape`
pub data Mode : Type 0 where
  outside in_string in_escape : Mode

abbrev pub quote : ℕ
quote = b'"'

abbrev pub prepend : ℕ → Option Text → Option Text
prepend c none = none
prepend c (some s) = some (c ∷ s)

-- The inner loop: the text up to the bracket that closes the first one, if there is one.
unfoldable pub scan : ℕ → ℕ → Mode → ℕ → Text → Option Text
scan opening closing mode depth [] = none
scan opening closing in_escape depth (c ∷ s) = prepend c (scan opening closing in_string depth s)
scan opening closing in_string depth (c ∷ s) =
    let escaped = scan opening closing in_escape depth s in
    let ended = scan opening closing outside depth s in
    let more = scan opening closing in_string depth s in
    prepend c (if c == 92 then escaped else if c == quote then ended else more)
scan opening closing outside depth (c ∷ s) =
    let begun = scan opening closing in_string depth s in
    let deeper = scan opening closing outside (depth + 1) s in
    let higher = scan opening closing outside (depth - 1) s in
    let more = scan opening closing outside depth s in
    if c == quote
    then prepend c begun
    else if c == opening
    then prepend c deeper
    else if c == closing
    then (if depth - 1 == 0 then some (c ∷ []) else prepend c higher)
    else prepend c more

-- `if longest is None or len(span) > len(longest)`
unfoldable pub longer : Option Text → Option Text → Option Text
longer longest none = longest
longer none (some span) = some span
longer (some l) (some span) = if ltb (length l) (length span) then some span else some l

-- The loop over the places where a span may begin.
unfoldable pub spans : ℕ → ℕ → Option Text → Text → Option Text
unfolding scan longer
spans opening closing longest [] = longest
spans opening closing longest (c ∷ s) =
    if c == opening
    then spans opening closing (longer longest (scan opening closing outside 0 (c ∷ s))) s
    else spans opening closing longest s

unfoldable pub largest_balanced_span : Text → Option Text
unfolding spans
largest_balanced_span s = spans b'[' b']' (spans b'{' b'}' none s) s
