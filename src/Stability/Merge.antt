-- ===== src/Stability/Merge.antt =====
-- `merge_chunk` and `merge_passes` of src/prxref/stability.py. An exception is `none`.
use prxref.Base.{
  is_empty, ℕ, zero, suc, ◌+◌, min, Bool, Option, none, some, List, [], ◌∷◌, ◌++◌, map, length, leb,
  nth, if◌then◌else◌,
}
use prxref.Base.Text.{Text, codes, show_number}
use prxref.Stability.{
  Severity, Finding, PassResult, is_ok, Cluster, members, clusters, representative, normalized,
}
use prxref.Stability.Result.{◌>>=◌, merge_result}

-- An audit row of a finding that too few passes raised.
pub record DroppedRow : Type 0 where
  pub file : Text
  pub line : ℕ
  pub severity : Severity
  pub title : Text
  pub agreement : ℕ
  pub passes_ok : ℕ
  pub needed : ℕ

-- What the loop of `merge_chunk` makes of the clusters.
pub record Sorted : Type 0 where
  pub kept : List Finding
  pub dropped : List Finding
  pub rows : List DroppedRow

unfoldable pub stamped : ℕ → Cluster → Finding
unfolding representative
stamped n c = record (representative c) { agreement = length (members c); passes_ok = n }

unfoldable pub reason : ℕ → ℕ → ℕ → Text
unfolding show_number
reason agreement n need =
    codes "stability: seen in "
    ++ show_number agreement
    ++ codes " of "
    ++ show_number n
    ++ codes " passes, needs "
    ++ show_number need

unfoldable pub sort_clusters : ℕ → ℕ → List Cluster → Sorted
unfolding stamped reason
sort_clusters n need [] = record { kept = []; dropped = []; rows = [] }
sort_clusters n need (c ∷ cs) =
    let rest = sort_clusters n need cs in
    let rep = stamped n c in
    if leb need rep.agreement then record rest { kept = rep ∷ rest.kept } else record rest {
      dropped = record rep { drop_reason = some (reason rep.agreement n need) } ∷ rest.dropped;
      rows =
          record {
            file = rep.file;
            line = rep.line;
            severity = rep.severity;
            title = rep.title;
            agreement = rep.agreement;
            passes_ok = n;
            needed = need;
          }
          ∷ rest.rows;
    }

pub record ChunkMerge : Type 0 where
  pub result : PassResult
  pub dropped : List Finding
  pub rows : List DroppedRow

-- The ok passes with their indices.
unfoldable pub ok_passes : ℕ → List PassResult → List (ℕ × PassResult)
unfolding is_ok
ok_passes i [] = []
ok_passes i (r ∷ rs) = let rest = ok_passes (i + 1) rs in if is_ok r then (i, r) ∷ rest else rest

unfoldable pub with_result :
    List PassResult → List Finding → List Finding → List DroppedRow → Option ChunkMerge
unfolding merge_result
with_result passes kept dropped rows = do
  result ← merge_result passes kept
  some record { result = result; dropped = dropped; rows = rows }

module _ (same_cluster : Finding → Finding → Bool) (min_agree : ℕ) where
  unfoldable pub sorted : List (ℕ × PassResult) → Sorted
  unfolding clusters sort_clusters
  sorted ok = sort_clusters (length ok) (min min_agree (length ok)) (clusters same_cluster ok)

  unfoldable pub merge_chunk : List Text → List PassResult → Option ChunkMerge
  unfolding ok_passes normalized sorted with_result
  merge_chunk diff_paths passes =
      let ok = ok_passes 0 passes in
      let found = sorted (normalized ok diff_paths) in
      if is_empty ok
      then with_result passes [] [] []
      else with_result passes found.kept found.dropped found.rows

-- The value of `merge_passes`; the audit rows stand with their chunk, counted from 1.
pub record StabilityOutcome : Type 0 where
  pub results : List PassResult
  pub dropped : List Finding
  pub rows : List (ℕ × DroppedRow)
  pub passes : ℕ
  pub min_agree : ℕ
  pub seeds : List (Option ℕ)
  pub findings_per_pass : List (List (Option ℕ))

-- `[p[i] for p in pass_results]`
unfoldable pub column : ℕ → List (List PassResult) → Option (List PassResult)
unfolding nth
column i [] = some []
column i (p ∷ ps) = let rest = column i ps in do r ← nth i p; others ← rest; some (r ∷ others)

unfoldable pub finding_count : PassResult → Option ℕ
unfolding is_ok
finding_count r = if is_ok r then some (length r.findings) else none

-- `chunk_paths[i]`, without paths where there are none
unfoldable pub paths_at : ℕ → Option (List (List Text)) → Option (List Text)
unfolding nth
paths_at i none = some []
paths_at i (some paths) = nth i paths

unfoldable pub all_dropped : List ChunkMerge → List Finding
all_dropped [] = []
all_dropped (m ∷ ms) = m.dropped ++ all_dropped ms

unfoldable pub all_rows : ℕ → List ChunkMerge → List (ℕ × DroppedRow)
all_rows i [] = []
all_rows i (m ∷ ms) = map (λ row. (i + 1, row)) m.rows ++ all_rows (i + 1) ms

-- The outcome of the merged chunks, with the run record's values.
unfoldable pub outcome_of :
    ℕ → List (List PassResult) → List (Option ℕ) → List ChunkMerge → StabilityOutcome
unfolding all_dropped all_rows finding_count
outcome_of min_agree pass_results seeds merged = record {
  results = map (λ m. m.result) merged;
  dropped = all_dropped merged;
  rows = all_rows 0 merged;
  passes = length pass_results;
  min_agree = min_agree;
  seeds = seeds;
  findings_per_pass = map (λ p. map finding_count p) pass_results;
}

module _ (same_cluster : Finding → Finding → Bool) (min_agree : ℕ)
    (chunk_paths : Option (List (List Text))) (pass_results : List (List PassResult)) where
  -- The merges of the next chunks, as many as the first argument.
  unfoldable pub merge_chunks : ℕ → ℕ → Option (List ChunkMerge)
  unfolding column paths_at merge_chunk
  merge_chunks zero i = some []
  merge_chunks (suc more) i =
      let rest = merge_chunks more (i + 1) in
      do
        passes ← column i pass_results
        paths ← paths_at i chunk_paths
        merged ← merge_chunk same_cluster min_agree paths passes
        others ← rest
        some (merged ∷ others)

  unfoldable pub merge_passes : List (Option ℕ) → Option StabilityOutcome
  unfolding merge_chunks outcome_of
  merge_passes seeds =
      let chunks : ℕ = elim pass_results [ [] ↦ 0 | p ∷ ps ↦ length p ] in
      do merged ← merge_chunks chunks 0; some (outcome_of min_agree pass_results seeds merged)
