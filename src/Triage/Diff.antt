-- ===== src/Triage/Diff.antt =====
-- The data of src/prxref/triage.py, and `_clean_path`, `_match_diff_git`, `_HUNK_RE` and
-- `_parse_hunk_body`.
use prxref.Base.{
  ℕ, ◌+◌, ◌-◌, Bool, false, ◌&&◌, ◌||◌, Option, none, some, List, [], ◌∷◌, ◌++◌, ◌==◌, ltb,
  if◌then◌else◌,
}
use prxref.Base.Text.{
  Text, codes, text_eq, drop_prefix, starts_with, ends_with, split_at, before, number,
}

pub data Kind : Type 0 where
  plus minus context : Kind

-- One line of a hunk body.
pub record DiffLine : Type 0 where
  pub kind : Kind
  pub text : Text
  pub old_line : Option ℕ
  pub new_line : Option ℕ

-- One @@ hunk with resolved old and new line numbers.
pub record Hunk : Type 0 where
  pub old_start : ℕ
  pub old_count : ℕ
  pub new_start : ℕ
  pub new_count : ℕ
  pub lines : List DiffLine

pub data Status : Type 0 where
  added modified removed renamed copied : Status

-- One file's parsed diff.
pub record FileDiff : Type 0 where
  pub path : Text
  pub old_path : Option Text
  pub new_path : Option Text
  pub status : Status
  pub is_binary : Bool
  pub hunks : List Hunk

-- `rstrip("\r")`
unfoldable pub strip_cr : Text → Text
strip_cr [] = []
strip_cr (c ∷ s) = elim (strip_cr s) [ [] ↦ if c == 13 then [] else c ∷ [] | d ∷ r ↦ c ∷ d ∷ r ]

-- `rest[1:-1]` of a text with a quote at both ends
unfoldable pub drop_last : Text → Text
drop_last [] = []
drop_last (c ∷ []) = []
drop_last (c ∷ d ∷ s) = c ∷ drop_last (d ∷ s)

unfoldable pub unquote : Text → Text
unfolding drop_last ends_with
unquote [] = []
unquote (c ∷ []) = c ∷ []
unquote (c ∷ d ∷ s) =
    if c == b'"' && ends_with (codes "\"") (d ∷ s) then drop_last (d ∷ s) else c ∷ d ∷ s

-- The first of `_PATH_PREFIXES` that fits is cut off.
unfoldable pub strip_prefixes : List Text → Text → Text
unfolding drop_prefix
strip_prefixes [] s = s
strip_prefixes (p ∷ ps) s = elim (drop_prefix p s) [ some r ↦ r | none ↦ strip_prefixes ps s ]

abbrev pub path_prefixes : List Text
path_prefixes = codes "a/" ∷ codes "b/" ∷ codes "src://" ∷ codes "dst://" ∷ []

unfoldable pub clean_path : Text → Option Text
unfolding before strip_cr unquote text_eq strip_prefixes
clean_path raw =
    let rest = unquote (strip_cr (before (9 ∷ []) raw)) in
    if text_eq rest (codes "/dev/null") then none else some (strip_prefixes path_prefixes rest)

-- A regular expression `^HEAD(.*?)SEP(.*)$`
unfoldable pub match_pair : Text → Text → Text → Option (Text × Text)
unfolding drop_prefix split_at
match_pair head sep line = elim (drop_prefix head line) [ none ↦ none | some r ↦ split_at sep r ]

unfoldable pub match_diff_git : Text → Option (Text × Text)
unfolding match_pair
match_diff_git line = elim (match_pair (codes "diff --git a/") (codes " b/") line) [
  | some m ↦ some m
  | none ↦ match_pair (codes "diff --git src://") (codes " dst://") line
]

-- `(\d+)(?:,(\d+))?`, the count 1 if it is missing
unfoldable pub range : Text → Option (ℕ × ℕ × Text)
unfolding number drop_prefix
range s = elim (number s) [
  | none ↦ none
  | some (start, r) ↦ elim (drop_prefix (codes ",") r) [
    | none ↦ some (start, 1, r)
    | some t ↦ elim (number t) [
      | none ↦ some (start, 1, r)
      | some (count, u) ↦ some (start, count, u)
    ]
  ]
]

-- `_HUNK_RE`, over ASCII digits; the hunk has no lines yet.
unfoldable pub match_hunk : Text → Option Hunk
unfolding range drop_prefix
match_hunk line = elim (drop_prefix (codes "@@ -") line) [
  | none ↦ none
  | some a ↦ elim (range a) [
    | none ↦ none
    | some (old_start, old_count, b) ↦ elim (drop_prefix (codes " +") b) [
      | none ↦ none
      | some c ↦ elim (range c) [
        | none ↦ none
        | some (new_start, new_count, d) ↦
            if starts_with (codes " @@") d
            then some (record {
              old_start = old_start;
              old_count = old_count;
              new_start = new_start;
              new_count = new_count;
              lines = [];
            })
            else none
      ]
    ]
  ]
]

-- `line.startswith("\\")`
unfoldable pub is_backslash : Text → Bool
is_backslash [] = false
is_backslash (c ∷ s) = c == 92

-- `line[0] if line else " "`
unfoldable pub first_char : Text → ℕ
first_char [] = 32
first_char (c ∷ s) = c

-- `line[1:]`
abbrev pub rest_of : Text → Text
rest_of [] = []
rest_of (c ∷ s) = s

-- The loop variables of `_parse_hunk_body`. A count that the code lets fall below 0 stays at 0 here:
-- the code only tests counts for being positive, and never raises them.
pub record Body : Type 0 where
  pub remaining_old : ℕ
  pub remaining_new : ℕ
  pub old_no : ℕ
  pub new_no : ℕ

-- The line that the body of the loop appends.
unfoldable pub body_line : Body → Text → DiffLine
unfolding first_char
body_line b line =
    if first_char line == b'+' && ltb 0 b.remaining_new
    then record { kind = plus; text = rest_of line; old_line = none; new_line = some b.new_no }
    else if first_char line == b'-' && ltb 0 b.remaining_old
    then record { kind = minus; text = rest_of line; old_line = some b.old_no; new_line = none }
    else record {
      kind = context;
      text = if first_char line == 32 then rest_of line else line;
      old_line = some b.old_no;
      new_line = some b.new_no;
    }

-- And what it does to the counters.
unfoldable pub body_step : Body → Kind → Body
body_step b plus = record b { remaining_new = b.remaining_new - 1; new_no = b.new_no + 1 }
body_step b minus = record b { remaining_old = b.remaining_old - 1; old_no = b.old_no + 1 }
body_step b context = record {
  remaining_old = b.remaining_old - 1;
  remaining_new = b.remaining_new - 1;
  old_no = b.old_no + 1;
  new_no = b.new_no + 1;
}

-- The second loop: markers after the hunk are skipped.
unfoldable pub skip_markers : List Text → List Text
unfolding is_backslash
skip_markers [] = []
skip_markers (line ∷ lines) =
    let rest = skip_markers lines in if is_backslash line then rest else line ∷ lines

-- The lines of the hunk, and the lines after it.
unfoldable pub parse_body : Body → List Text → List DiffLine × List Text
unfolding skip_markers is_backslash body_line body_step
parse_body b [] = ([], [])
parse_body b (line ∷ lines) =
    let skipped = parse_body b lines in
    let l = body_line b line in
    let more = parse_body (body_step b l.kind) lines in
    if ltb 0 b.remaining_old || ltb 0 b.remaining_new
    then (if is_backslash line then skipped else (l ∷ more.0, more.1))
    else ([], skip_markers (line ∷ lines))

unfoldable pub parse_hunk_body : Hunk → List Text → Hunk × List Text
unfolding parse_body
parse_hunk_body hunk lines =
    let (ls, rest) =
      parse_body
        (record {
          remaining_old = hunk.old_count;
          remaining_new = hunk.new_count;
          old_no = hunk.old_start;
          new_no = hunk.new_start;
        })
        lines in
    (record hunk { lines = hunk.lines ++ ls }, rest)
