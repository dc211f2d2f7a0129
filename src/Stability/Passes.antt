-- ===== src/Stability/Passes.antt =====
-- What `merge_passes` of src/prxref/stability.py makes of the passes, chunk by chunk.
use prxref.Base.{
  ℕ, ◌+◌, ◌≤◌, ◌<◌, Bool, true, false, ◌≡◌, ◌⊎◌, Option, none, some, List, [], ◌∷◌, length, any,
  All, arith,
}
use prxref.Base.Text.{Text}
use prxref.Stability.{Finding, PassResult, is_ok}
use prxref.Stability.Result.{last}
use prxref.Stability.Merge.{ChunkMerge, column, paths_at}
use prxref.Stability.Agreement.{Agrees}

module _ (same_cluster : Finding → Finding → Bool) (min_agree : ℕ) where
  -- A chunk that a pass reviewed agrees with the ok passes; one that all passes failed has the last
  -- pass's error, and no findings.
  abbrev pub ChunkFits : List Text → List PassResult → ChunkMerge → Type 0
  ChunkFits paths passes m =
      ((any is_ok passes ≡ true) × Agrees same_cluster min_agree paths passes m)
      ⊎ ((any is_ok passes ≡ false)
          × ((r : PassResult) × (last passes ≡ some r) × (m.result.error ≡ r.error))
          × (m.result.findings ≡ [])
          × (m.dropped ≡ []))

  module _ (chunk_paths : Option (List (List Text))) (first : List PassResult)
      (others : List (List PassResult)) where
    -- The chunks from `i` on: each is the merge of what the passes made of it.
    abbrev pub ChunksFit : ℕ → List ChunkMerge → Type 0
    ChunksFit i [] = Unit
    ChunksFit i (m ∷ ms) =
        ((passes : List PassResult) × (paths : List Text) × (column i (first ∷ others)
            ≡ some passes)
          × (paths_at i chunk_paths ≡ some paths)
          × ChunkFits paths passes m)
        × ChunksFit (i + 1) ms

    -- There are paths for so many chunks, or none are given.
    abbrev pub Reaches : ℕ → Option (List (List Text)) → Type 0
    Reaches n none = Unit
    Reaches n (some paths) = n ≤ length paths

    longer :
        (i n : ℕ)
        → i < n
        → (ps : List (List PassResult)) → All (λ p. length p ≡ n) ps
        → All (λ p. i < length p) ps
    longer i n h [] a = tt
    longer i n h (p ∷ ps) (e, a) = (omega (arith, h, e), longer i n h ps a)
