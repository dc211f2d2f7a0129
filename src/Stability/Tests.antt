-- ===== src/Stability/Tests.antt =====
-- Runs of src/prxref/stability.py, where two findings have one cause if they stand on one line.
use prxref.Base.{
  ℕ, Bool, ◌≡◌, refl, Option, none, some, List, [], ◌∷◌, length, map, All, arith, ◌==◌,
}
use prxref.Base.Text.{Text, codes}
use mathlib.Core.List.{Permᴰ}
use prxref.Stability.{
  Finding, Severity, error, warning, PassResult, members, clusters, resolve_diff_path,
  severity_rank,
}
use prxref.Stability.Merge.{ChunkMerge, ok_passes, merge_chunk}
use prxref.Stability.Walks.{Clustered, raised, all_members}
use prxref.Stability.Clusters.{clusters-Clustered}

abbrev finding : ℕ → Severity → ℕ → Finding
finding line severity confidence = record {
  file = codes "b.py";
  line = line;
  severity = severity;
  title = codes "t";
  body = codes "b";
  confidence = confidence;
  agreement = 0;
  passes_ok = 0;
  drop_reason = none;
}

abbrev result : Text → List Finding → PassResult
result message findings = record {
  findings = findings;
  error = message;
  input_tokens = 10;
  output_tokens = 1;
  model = codes "m";
  elapsed_ms = 5;
  cost_usd = some 3;
  cost_source = codes "s";
  parse_retries = none;
  first_error = [];
  requested_model = [];
  answered_by = [];
}

abbrev passes : List PassResult
passes =
    result [] (finding 4 warning 70 ∷ finding 9 warning 80 ∷ [])
    ∷ result (codes "timeout") []
    ∷ result [] (finding 4 error 60 ∷ finding 4 warning 90 ∷ [])
    ∷ []

abbrev same_line : Finding → Finding → Bool
same_line a b = a.line == b.line

abbrev paths : List Text
paths = codes "src/b.py" ∷ codes "a.py" ∷ []

-- A suffix, and a path that lost its "json".
resolved_run : resolve_diff_path (codes "b.py") paths ≡ some (codes "src/b.py")
unfolding resolve_diff_path
resolved_run = refl

resolved_cut :
    resolve_diff_path (codes "src/x.py") (codes "src/jsonx.py" ∷ []) ≡ some (codes "src/jsonx.py")
unfolding resolve_diff_path
resolved_cut = refl

-- The second finding of a pass on one line opens a cluster of its own.
clusters_run :
    map (λ c. length (members c)) (clusters same_line (ok_passes 0 passes)) ≡ 2 ∷ 1 ∷ 1 ∷ []
unfolding clusters ok_passes
clusters_run = refl

clusters-Clustered_example :
    All (Clustered same_line 2) (clusters same_line (ok_passes 0 passes))
    × Permᴰ (all_members (clusters same_line (ok_passes 0 passes))) (raised (ok_passes 0 passes))
unfolding ok_passes
clusters-Clustered_example =
    clusters-Clustered same_line (ok_passes 0 passes) (omega arith, (omega arith, tt))

abbrev summary : Option ChunkMerge → Option (List (ℕ × ℕ × ℕ) × List ℕ × ℕ × Option ℕ)
summary none = none
summary (some m) = some (
  map (λ f. (f.line, f.confidence, f.agreement)) m.result.findings,
  map (λ f. f.line) m.dropped,
  m.result.input_tokens,
  m.result.cost_usd,
)

merged_run :
    summary (merge_chunk same_line 2 paths passes) ≡ some ((4, 60, 2) ∷ [], 9 ∷ 4 ∷ [], 30, some 9)
unfolding merge_chunk severity_rank
merged_run = refl

-- The same passes over one chunk each.
abbrev failed_pass : List PassResult
failed_pass = result (codes "timeout") [] ∷ []
