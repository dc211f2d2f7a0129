-- ===== src/Triage/Plan/Hunks.antt =====
-- Where the hunks of the files end up in the chunks of src/prxref/triage.py: none is lost and none
-- is placed twice.
use prxref.Base.{
  ℕ, zero, suc, ◌+◌, ◌<◌, ◌≤◌, Bool, ◌≡◌, refl, ap, ◌∙◌, some, List, [], ◌∷◌, ◌++◌, map, arith,
  count_where, length, Bool-cases, Option-cases, inl, inr, count_where-append,
}
use prxref.Base.Text.{Text, text_eq, text_eq→eq}
use prxref.Triage.Diff.{Hunk, FileDiff}
use prxref.Triage.Pieces.{
  changed_lines, changed_chars, group_hunks, split_by_hunk, add_hunks, rejoin, rejoin_all,
  rejoin_pieces,
}
use prxref.Triage.Score.{score_file}
use prxref.Triage.Plan.Places.{
  At-length, Placed, fits, opens, overflows, place-Placed, place_all-round,
}
use prxref.Triage.Plan.{
  open_chunk, Chunk, Limits, ChunkPlan, Scored, insert_scored, sort_scored, put_at, Placement,
  nothing_placed, place_all, score_pieces, split_paths, place_files, rejoined, plan_of, candidates,
  plan_chunks,
}

-- A test on a hunk together with its file's path.
abbrev pub HunkTest : Type 0
HunkTest = Text → Hunk → Bool

unfoldable pub count_file : HunkTest → FileDiff → ℕ
unfolding count_where
count_file p f = count_where (p f.path) f.hunks

unfoldable pub count_files : HunkTest → List FileDiff → ℕ
unfolding count_file
count_files p [] = 0
count_files p (f ∷ fs) = count_file p f + count_files p fs

unfoldable pub count_chunks : HunkTest → List (List FileDiff) → ℕ
unfolding count_files
count_chunks p [] = 0
count_chunks p (c ∷ cs) = count_files p c + count_chunks p cs

count_files-append :
    (p : HunkTest) (fs gs : List FileDiff)
    → count_files p (fs ++ gs) ≡ count_files p fs + count_files p gs
unfolding count_files
count_files-append p [] gs = omega arith
count_files-append p (f ∷ fs) gs = omega (arith, count_files-append p fs gs)

-- Splitting keeps the hunks.
count-group_hunks :
    (p : HunkTest) (f : FileDiff) (b lines chars : ℕ) (cur hs : List Hunk)
    → count_files p (map (λ g. record f { hunks = g }) (group_hunks b lines chars cur hs))
      ≡ count_where (p f.path) cur + count_where (p f.path) hs
unfolding count_files count_file group_hunks count_where
count-group_hunks p f b lines chars cur [] = omega arith
count-group_hunks p f b lines chars cur (h ∷ hs) =
    let n = changed_lines h.lines in
    let m = changed_chars h.lines in
    ground (
      arith,
      count-group_hunks p f b n m (h ∷ []) hs,
      count-group_hunks p f b (lines + n) (chars + m) (cur ++ h ∷ []) hs,
      count_where-append (p f.path) cur (h ∷ []),
    )

count-split_by_hunk :
    (p : HunkTest) (f : FileDiff) (b : ℕ) → count_files p (split_by_hunk f b) ≡ count_file p f
unfolding count_files count_file split_by_hunk count_where
count-split_by_hunk p f b = ground (arith, count-group_hunks p f b 0 0 [] f.hunks)

-- Scoring and sorting keep the pieces.
abbrev pub files_of : List Scored → List FileDiff
files_of xs = map (λ s. s.file) xs

files_of-pieces :
    (score : ℕ) (fs : List FileDiff) (rest : List Scored)
    → files_of (map (λ piece. record { score = score; file = piece }) fs ++ rest)
      ≡ fs ++ files_of rest
files_of-pieces score [] rest = refl
files_of-pieces score (f ∷ fs) rest = ap (λ r. f ∷ r) (files_of-pieces score fs rest)

count-score_pieces :
    (p : HunkTest) (b : ℕ) (churn : Text → ℕ) (fs : List FileDiff)
    → count_files p (files_of (score_pieces b churn fs)) ≡ count_files p fs
unfolding score_pieces count_files
count-score_pieces p b churn [] = refl
count-score_pieces p b churn (f ∷ fs) =
    let rest = score_pieces b churn fs in
    ap (count_files p) (files_of-pieces (score_file f (churn f.path)) (split_by_hunk f b) rest)
    ∙ omega (
      arith,
      count_files-append p (split_by_hunk f b) (files_of rest),
      count-split_by_hunk p f b,
      count-score_pieces p b churn fs,
    )

count-insert_scored :
    (p : HunkTest) (x : Scored) (xs : List Scored)
    → count_files p (files_of (insert_scored x xs))
      ≡ count_file p x.file + count_files p (files_of xs)
unfolding insert_scored count_files
count-insert_scored p x [] = refl
count-insert_scored p x (y ∷ ys) = ground (arith, count-insert_scored p x ys)

count-sort_scored :
    (p : HunkTest) (xs : List Scored)
    → count_files p (files_of (sort_scored xs)) ≡ count_files p (files_of xs)
unfolding sort_scored count_files
count-sort_scored p [] = refl
count-sort_scored p (x ∷ xs) =
    omega (arith, count-insert_scored p x (sort_scored xs), count-sort_scored p xs)

-- Placing a file adds its hunks.
unfoldable pub count_placed : HunkTest → List Chunk → ℕ
unfolding count_files
count_placed p [] = 0
count_placed p (c ∷ cs) = count_files p c.files + count_placed p cs

count_placed-append :
    (p : HunkTest) (cs ds : List Chunk)
    → count_placed p (cs ++ ds) ≡ count_placed p cs + count_placed p ds
unfolding count_placed
count_placed-append p [] ds = omega arith
count_placed-append p (c ∷ cs) ds = omega (arith, count_placed-append p cs ds)

count-put_at :
    (p : HunkTest) (k : ℕ) (f : FileDiff) (cs : List Chunk)
    → k < length cs
    → count_placed p (put_at k f cs) ≡ count_file p f + count_placed p cs
unfolding put_at count_placed count_files
count-put_at p k f [] h = ground arith
count-put_at p zero f (c ∷ cs) h = omega (arith, count_files-append p c.files (f ∷ []))
count-put_at p (suc k) f (c ∷ cs) h = omega (arith, count-put_at p k f cs (omega arith))

count-Placed :
    (p : HunkTest) (limits : Limits) (f : FileDiff) (a b : Placement)
    → Placed limits f a b
    → count_placed p b.chunks ≡ count_file p f + count_placed p a.chunks
unfolding count_placed count_files open_chunk
count-Placed p limits f a b (fits k h) = count-put_at p k f a.chunks (At-length _ k a.chunks h)
count-Placed p limits f a b (opens h) =
    omega (arith, count_placed-append p a.chunks (open_chunk f ∷ []))
count-Placed p limits f a b (overflows k h) = count-put_at p k f a.chunks h

plan_chunks-placed :
    (limits : Limits) (churn : Text → ℕ) (files : List FileDiff) (b : Placement)
    → place_files limits churn (candidates files) ≡ some b
    → plan_chunks limits churn files
      ≡ some (plan_of limits (split_paths limits.token_budget (candidates files)) b)
unfolding plan_chunks
plan_chunks-placed limits churn files b e = rw (e, plan_chunks) refl

-- The pass returns if one chunk may be opened, and has placed every hunk.
count-place_all :
    (limits : Limits) (fs : List FileDiff) (a : Placement)
    → 1 ≤ limits.max_chunks
    → (b : Placement) × (place_all limits fs a ≡ some b)
      × ((p : HunkTest) → count_placed p b.chunks ≡ count_files p fs + count_placed p a.chunks)
unfolding place_all count_files
count-place_all limits [] a m = (a, refl, λ p. omega arith)
count-place_all limits (f ∷ fs) a m =
    let (b, e, placed) = place-Placed limits f a m in
    let (c, e', n) = count-place_all limits fs b m in
    (
      c,
      place_all-round limits f fs a b e ∙ e',
      λ p. omega (arith, n p, count-Placed p limits f a b placed),
    )

-- Rejoining keeps the hunks.
count-add_hunks :
    (p : HunkTest) (path : Text) (hs : List Hunk) (fs gs : List FileDiff)
    → add_hunks path hs fs ≡ some gs
    → count_files p gs ≡ count_where (p path) hs + count_files p fs
unfolding add_hunks count_files count_file
count-add_hunks p path hs [] gs e = ground arith
count-add_hunks p path hs (f ∷ fs) gs e = elim (Bool-cases (text_eq path f.path)) [
  | inl t ↦ ground (
    arith,
    text_eq→eq path f.path t,
    ap (λ s. count_where (p s) hs) (text_eq→eq path f.path t),
    count_where-append (p f.path) f.hunks hs,
  )
  | inr t ↦ elim (Option-cases (add_hunks path hs fs)) [
    | inl n ↦ ground arith
    | inr (rest, r) ↦ ground (arith, count-add_hunks p path hs fs rest r)
  ]
]

count-rejoin :
    (p : HunkTest) (paths : List Text) (out : List FileDiff) (f : FileDiff)
    → count_files p (rejoin paths out f) ≡ count_files p out + count_file p f
unfolding rejoin count_files count_file
count-rejoin p paths out f = elim (Option-cases (add_hunks f.path f.hunks out)) [
  | inl n ↦ ground (arith, count_files-append p out (f ∷ []))
  | inr (fs, r) ↦
      ground (arith, count_files-append p out (f ∷ []), count-add_hunks p f.path f.hunks out fs r)
]

count-rejoin_all :
    (p : HunkTest) (paths : List Text) (out fs : List FileDiff)
    → count_files p (rejoin_all paths out fs) ≡ count_files p out + count_files p fs
unfolding rejoin_all count_files
count-rejoin_all p paths out [] = omega arith
count-rejoin_all p paths out (f ∷ fs) =
    omega (arith, count-rejoin_all p paths (rejoin paths out f) fs, count-rejoin p paths out f)

count-rejoined :
    (p : HunkTest) (paths : List Text) (cs : List Chunk)
    → count_chunks p (rejoined paths cs) ≡ count_placed p cs
unfolding count_chunks count_placed rejoin_pieces count_files
count-rejoined p [] [] = refl
count-rejoined p [] (c ∷ cs) = omega (arith, count-rejoined p [] cs)
count-rejoined p (s ∷ ss) [] = refl
count-rejoined p (s ∷ ss) (c ∷ cs) =
    omega (arith, count-rejoined p (s ∷ ss) cs, count-rejoin_all p (s ∷ ss) [] c.files)

count-nothing : (p : HunkTest) (n : ℕ) → n + count_placed p nothing_placed.chunks ≡ n
unfolding count_placed
count-nothing p n = omega arith

-- If at least one chunk may be opened, the plan is made, and for every test on a hunk and its path,
-- as many hunks of its chunks pass as of the files that are not binary: none is lost or doubled.
pub plan_chunks-hunks :
    (limits : Limits) (churn : Text → ℕ) (files : List FileDiff)
    → 1 ≤ limits.max_chunks
    → (plan : ChunkPlan) × (plan_chunks limits churn files ≡ some plan)
      × ((p : HunkTest) → count_chunks p plan.chunks ≡ count_files p (candidates files))
unfolding place_files
plan_chunks-hunks limits churn files m =
    let found = candidates files in
    let scored = score_pieces limits.token_budget churn found in
    let (b, e, n) = count-place_all limits (files_of (sort_scored scored)) nothing_placed m in
    let paths = split_paths limits.token_budget found in
    (
      plan_of limits paths b,
      plan_chunks-placed limits churn files b e,
      λ p.
          count-rejoined p paths b.chunks
          ∙ n p
          ∙ count-nothing p (count_files p (files_of (sort_scored scored)))
          ∙ count-sort_scored p scored
          ∙ count-score_pieces p limits.token_budget churn found,
    )
