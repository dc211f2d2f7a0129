-- ===== src/Triage/Plan.antt =====
-- `plan_chunks` and `build_chunks` of src/prxref/triage.py.
pub mod Places
pub mod Hunks
pub mod Bounds
use prxref.Base.{
  ℕ, zero, suc, ◌+◌, max, Bool, true, false, ◌&&◌, ◌||◌, not, Option, none, some, List, [], ◌∷◌,
  ◌++◌, map, keep, count_where, length, ltb, leb, if◌then◌else◌,
}
use prxref.Base.Text.{Text, text_eq}
use prxref.Triage.Diff.{FileDiff}
use prxref.Triage.Score.{score_file, shared_dir_depth}
use prxref.Triage.Pieces.{est_tokens, split_by_hunk, has_path, rejoin_pieces}

-- A chunk with its entry of `chunk_tokens`; the code keeps two lists and changes them together.
pub record Chunk : Type 0 where
  pub files : List FileDiff
  pub tokens : ℕ

pub record Limits : Type 0 where
  pub max_chunks : ℕ
  pub token_budget : ℕ
  pub max_files_per_chunk : ℕ

pub record ChunkPlan : Type 0 where
  pub chunks : List (List FileDiff)
  pub chunk_tokens : List ℕ
  pub overflow_files : ℕ
  pub budget : ℕ

pub record Scored : Type 0 where
  pub score : ℕ
  pub file : FileDiff

-- `sorted(scored, key=score, reverse=True)`, which is stable.
unfoldable pub insert_scored : Scored → List Scored → List Scored
insert_scored x [] = x ∷ []
insert_scored x (y ∷ ys) =
    let rest = insert_scored x ys in if ltb x.score y.score then y ∷ rest else x ∷ y ∷ ys

unfoldable pub sort_scored : List Scored → List Scored
unfolding insert_scored
sort_scored [] = []
sort_scored (x ∷ xs) = insert_scored x (sort_scored xs)

-- The largest depth that a file shares with one of a chunk; a chunk always has a file.
unfoldable pub affinity : FileDiff → List FileDiff → ℕ
unfolding shared_dir_depth
affinity f [] = 0
affinity f (g ∷ gs) = max (shared_dir_depth f.path g.path) (affinity f gs)

-- Whether a chunk has room for a file.
unfoldable pub has_room : Limits → FileDiff → Chunk → Bool
unfolding est_tokens
has_room limits f c =
    leb (c.tokens + est_tokens f) limits.token_budget
    && ltb (length c.files) limits.max_files_per_chunk

-- The search for the chunk with the greatest affinity, the first of equal ones: the chunks ahead,
-- the index of the first of them, and the index and affinity of the best so far.
unfoldable pub best_chunk : Limits → FileDiff → ℕ → Option (ℕ × ℕ) → List Chunk → Option (ℕ × ℕ)
unfolding has_room affinity
best_chunk limits f i found [] = found
best_chunk limits f i found (c ∷ cs) =
    let a = affinity f c.files in
    let better : Bool = elim found [ none ↦ true | some (j, b) ↦ ltb b a ] in
    let skipped = best_chunk limits f (i + 1) found cs in
    let taken = best_chunk limits f (i + 1) (some (i, a)) cs in
    if has_room limits f c && better then taken else skipped

-- The first of the chunks with the fewest tokens: the index and tokens of the best so far.
unfoldable pub smallest_from : ℕ → ℕ → ℕ → List Chunk → ℕ
smallest_from best tokens i [] = best
smallest_from best tokens i (c ∷ cs) =
    let taken = smallest_from i c.tokens (i + 1) cs in
    let skipped = smallest_from best tokens (i + 1) cs in
    if ltb c.tokens tokens then taken else skipped

-- `min` of an empty range raises.
unfoldable pub smallest : List Chunk → Option ℕ
unfolding smallest_from
smallest [] = none
smallest (c ∷ cs) = some (smallest_from 0 c.tokens 1 cs)

-- `chunks[k].append(f)` and `chunk_tokens[k] += ftokens`
unfoldable pub put_at : ℕ → FileDiff → List Chunk → List Chunk
unfolding est_tokens
put_at k f [] = []
put_at zero f (c ∷ cs) = record { files = c.files ++ f ∷ []; tokens = c.tokens + est_tokens f } ∷ cs
put_at (suc k) f (c ∷ cs) = c ∷ put_at k f cs

abbrev pub open_chunk : FileDiff → Chunk
unfolding est_tokens
open_chunk f = record { files = f ∷ []; tokens = est_tokens f }

-- The chunks, and `overflow_paths` as a list without repeats.
pub record Placement : Type 0 where
  pub chunks : List Chunk
  pub overflow_paths : List Text

unfoldable pub add_path : Text → List Text → List Text
unfolding has_path
add_path p ps = if has_path p ps then ps else ps ++ p ∷ []

unfoldable pub overflow : FileDiff → Placement → Option Placement
unfolding smallest put_at add_path
overflow f p = elim (smallest p.chunks) [
  | none ↦ none
  | some k ↦
      some
        (record { chunks = put_at k f p.chunks; overflow_paths = add_path f.path p.overflow_paths })
]

-- One round of the loop over the sorted files.
unfoldable pub place : Limits → FileDiff → Placement → Option Placement
unfolding best_chunk put_at overflow open_chunk
place limits f p = elim (best_chunk limits f 0 none p.chunks) [
  | some (k, a) ↦ some (record p { chunks = put_at k f p.chunks })
  | none ↦
      if ltb (length p.chunks) limits.max_chunks
      then some (record p { chunks = p.chunks ++ open_chunk f ∷ [] })
      else overflow f p
]

unfoldable pub place_all : Limits → List FileDiff → Placement → Option Placement
unfolding place
place_all limits [] p = some p
place_all limits (f ∷ fs) p = elim (place limits f p) [
  | none ↦ none
  | some q ↦ place_all limits fs q
]

-- The first loop: the scored pieces and the paths that were split.
unfoldable pub score_pieces : ℕ → (Text → ℕ) → List FileDiff → List Scored
unfolding split_by_hunk score_file
score_pieces budget churn [] = []
score_pieces budget churn (f ∷ fs) =
    map (λ piece. record { score = score_file f (churn f.path); file = piece })
      (split_by_hunk f budget)
    ++ score_pieces budget churn fs

unfoldable pub split_paths : ℕ → List FileDiff → List Text
unfolding split_by_hunk
split_paths budget [] = []
split_paths budget (f ∷ fs) =
    let rest = split_paths budget fs in
    if ltb 1 (length (split_by_hunk f budget)) then f.path ∷ rest else rest

abbrev pub nothing_placed : Placement
nothing_placed = record { chunks = []; overflow_paths = [] }

-- The placement pass on the candidates.
unfoldable pub place_files : Limits → (Text → ℕ) → List FileDiff → Option Placement
unfolding place_all sort_scored score_pieces
place_files limits churn candidates =
    place_all limits
      (map (λ s. s.file) (sort_scored (score_pieces limits.token_budget churn candidates)))
      nothing_placed

abbrev pub rejoined : List Text → List Chunk → List (List FileDiff)
rejoined [] cs = map (λ c. c.files) cs
rejoined (p ∷ ps) cs = map (λ c. rejoin_pieces c.files (p ∷ ps)) cs

abbrev pub plan_of : Limits → List Text → Placement → ChunkPlan
plan_of limits split p = record {
  chunks = rejoined split p.chunks;
  chunk_tokens = map (λ c. c.tokens) p.chunks;
  overflow_files = length p.overflow_paths;
  budget = limits.token_budget;
}

abbrev pub candidates : List FileDiff → List FileDiff
candidates files = keep (λ f. not f.is_binary) files

-- `none` stands for the ValueError of `min`. No candidates at all give the empty plan.
unfoldable pub plan_chunks : Limits → (Text → ℕ) → List FileDiff → Option ChunkPlan
unfolding place_files split_paths rejoin_pieces keep
plan_chunks limits churn files = elim (place_files limits churn (candidates files)) [
  | none ↦ none
  | some p ↦ some (plan_of limits (split_paths limits.token_budget (candidates files)) p)
]

unfoldable pub build_chunks : Limits → (Text → ℕ) → List FileDiff → Option (List (List FileDiff))
unfolding plan_chunks
build_chunks limits churn files = elim (plan_chunks limits churn files) [
  | none ↦ none
  | some p ↦ some p.chunks
]

-- The properties of the plan.
unfoldable pub chunks_over_budget : ChunkPlan → ℕ
chunks_over_budget p = count_where (λ t. ltb p.budget t) p.chunk_tokens
