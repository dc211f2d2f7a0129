-- ===== src/Stability/Agreement.antt =====
-- What `merge_chunk` of src/prxref/stability.py keeps and drops of the findings of the ok passes.
use prxref.Base.{ℕ, ◌+◌, min, Bool, ◌≡◌, List, [], length, All, In}
use prxref.Base.Text.{Text}
use mathlib.Core.List.Permᴰ as Permᴰ
use prxref.Stability.{Finding, PassResult, Member, Cluster, clusters, normalized}
use prxref.Stability.Result.{merged_fields}
use prxref.Stability.Merge.{ok_passes, sorted, ChunkMerge}
use prxref.Stability.Walks.{raised, Clustered}
use prxref.Stability.Sorting.{Kept, Dropped, Represented}

module _ (same_cluster : Finding → Finding → Bool) (min_agree : ℕ) (paths : List Text)
    (passes : List PassResult) where
  -- The ok passes with their findings under the paths of the diff.
  abbrev normal_passes : List (ℕ × PassResult)
  normal_passes = normalized (ok_passes 0 passes) paths

  -- A cluster of the ok passes: its members come from different passes, in their order, and share
  -- the cause of the first.
  abbrev pub IsCluster : Cluster → Type 0
  IsCluster c =
      In c (clusters same_cluster normal_passes) × Clustered same_cluster (length normal_passes) c

  -- The outcome against the clusters of the ok passes.
  abbrev pub Agrees : ChunkMerge → Type 0
  Agrees m =
      let n = length normal_passes in
      let found = clusters same_cluster normal_passes in
      (m.result.error ≡ [])
      × ((x : Member)
          → In x (raised normal_passes)
          → Represented found m.result.findings m.dropped x)
      × All (Kept n (min min_agree n) IsCluster) m.result.findings
      × All (Dropped n (min min_agree n) IsCluster) m.dropped
      × (length m.result.findings + length m.dropped ≡ length found)

  merged : ChunkMerge
  unfolding sorted
  merged =
      let found = sorted same_cluster min_agree normal_passes in
      record {
        result = merged_fields passes found.kept [];
        dropped = found.dropped;
        rows = found.rows;
      }
