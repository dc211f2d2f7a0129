-- ===== src/Triage/Score.antt =====
-- File risk of src/prxref/triage.py: `FILE_PENALTIES`, `score_file`, `_shared_dir_depth`, and the
-- counts and sets of changed lines of `FileDiff`.
use prxref.Base.{
  ℕ, suc, ◌+◌, ◌-◌, ◌*◌, min, Bool, true, false, ◌&&◌, ◌||◌, not, none, some, List, [], ◌∷◌, ◌++◌,
  any, count_where, keep, ◌==◌, if◌then◌else◌,
}
use prxref.Base.Text.{Text, codes, text_eq, starts_with, ends_with, contains}
use prxref.Triage.Diff.{plus, minus, context, DiffLine, Hunk, FileDiff}

unfoldable pub is_plus : DiffLine → Bool
is_plus l = elim l.kind [ plus ↦ true | _ ↦ false ]

unfoldable pub is_minus : DiffLine → Bool
is_minus l = elim l.kind [ minus ↦ true | _ ↦ false ]

-- `ln.kind != " "`
unfoldable pub is_change : DiffLine → Bool
is_change l = elim l.kind [ context ↦ false | _ ↦ true ]

unfoldable pub count_lines : (DiffLine → Bool) → List Hunk → ℕ
unfolding count_where
count_lines p [] = 0
count_lines p (h ∷ hs) = count_where p h.lines + count_lines p hs

unfoldable pub lines_added : FileDiff → ℕ
unfolding count_lines is_plus
lines_added f = count_lines is_plus f.hunks

unfoldable pub lines_removed : FileDiff → ℕ
unfolding count_lines is_minus
lines_removed f = count_lines is_minus f.hunks

-- The set of numbers is a list here, in the order of the lines.
unfoldable pub added_numbers : List DiffLine → List ℕ
unfolding is_plus
added_numbers [] = []
added_numbers (l ∷ ls) =
    let rest = added_numbers ls in
    elim l.new_line [ none ↦ rest | some n ↦ if is_plus l then n ∷ rest else rest ]

unfoldable pub added_of : List Hunk → List ℕ
unfolding added_numbers
added_of [] = []
added_of (h ∷ hs) = added_numbers h.lines ++ added_of hs

unfoldable pub added_lines : FileDiff → List ℕ
unfolding added_of
added_lines f = added_of f.hunks

abbrev ends_any : List Text → Text → Bool
ends_any ps s = any (λ p. ends_with p s) ps

abbrev contains_any : List Text → Text → Bool
contains_any ps s = any (λ p. contains p s) ps

abbrev lock_like : List Text
lock_like =
    codes ".lock"
    ∷ codes "-lock.json"
    ∷ codes "-lock.yaml"
    ∷ codes "-lock.yml"
    ∷ codes ".snap"
    ∷ codes ".min.js"
    ∷ codes ".map"
    ∷ []

abbrev docs : List Text
docs =
    codes ".md"
    ∷ codes ".txt"
    ∷ codes ".rst"
    ∷ codes ".yml"
    ∷ codes ".yaml"
    ∷ codes ".toml"
    ∷ codes ".json"
    ∷ codes ".cfg"
    ∷ codes ".ini"
    ∷ []

abbrev test_heads : List Text
test_heads = codes "test/" ∷ codes "tests/" ∷ []

abbrev test_dirs : List Text
test_dirs = codes "/test/" ∷ codes "/tests/" ∷ []

abbrev snapshots : List Text
snapshots = codes "__snapshots__/" ∷ []

abbrev generated : List Text
generated = codes ".generated." ∷ codes ".auto." ∷ []

abbrev editors : List Text
editors = codes ".idea/" ∷ codes ".vscode/" ∷ []

-- The sum of the penalties, as a number to take away. A path has no line break in it, so that `$`
-- in a pattern stands for its end.
unfoldable pub penalty : Text → ℕ
unfolding any ends_with contains starts_with
penalty path =
    (if ends_any lock_like path then 65 else 0)
    + (if any (λ p. starts_with p path) test_heads || contains_any test_dirs path then 10 else 0)
    + (if ends_any docs path then 15 else 0)
    + (if contains_any snapshots path then 50 else 0)
    + (if contains_any generated path then 50 else 0)
    + (if contains_any editors path then 50 else 0)

-- The score in fiftieths, without the rounding of floats: `min(lines / 5, 100) * 0.70` is
-- `min(7 * lines, 3500) / 50`, and `min(churn * 2, 100) * 0.30` is `min(30 * churn, 1500) / 50`.
unfoldable pub score_file : FileDiff → ℕ → ℕ
unfolding lines_added lines_removed penalty
score_file f churn =
    let lines = lines_added f + lines_removed f in
    min 5000 (min (7 * lines) 3500 + min (30 * churn) 1500 - 50 * penalty f.path)

-- The components of a path: what stands between slashes.
unfoldable pub components : Text → List Text
components [] = [] ∷ []
components (c ∷ s) =
    let rest = components s in
    if c == b'/' then [] ∷ rest else elim rest [ [] ↦ (c ∷ []) ∷ [] | x ∷ xs ↦ (c ∷ x) ∷ xs ]

-- The root that `PurePosixPath` reads off: two slashes are a root of their own, more are one.
unfoldable pub root : Text → List Text
unfolding starts_with
root s =
    if starts_with (codes "///") s
    then codes "/" ∷ []
    else if starts_with (codes "//") s
    then codes "//" ∷ []
    else if starts_with (codes "/") s
    then codes "/" ∷ []
    else []

-- `PurePosixPath(p).parts`: without empty components and dots.
unfoldable pub parts : Text → List Text
unfolding components root text_eq keep
parts s = root s ++ keep (λ c. not (text_eq c []) && not (text_eq c (codes "."))) (components s)

-- `[:-1]`
unfoldable pub but_last : List Text → List Text
but_last [] = []
but_last (x ∷ []) = []
but_last (x ∷ y ∷ ys) = x ∷ but_last (y ∷ ys)

unfoldable pub common : List Text → List Text → ℕ
unfolding text_eq
common (a ∷ xs) (b ∷ ys) = let rest = common xs ys in if text_eq a b then suc rest else 0
common _ _ = 0

unfoldable pub shared_dir_depth : Text → Text → ℕ
unfolding parts but_last common
shared_dir_depth p q = common (but_last (parts p)) (but_last (parts q))
