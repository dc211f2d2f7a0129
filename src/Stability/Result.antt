-- ===== src/Stability/Result.antt =====
-- `_merge_result` of src/prxref/stability.py, and what it reads of src/prxref/costs.py. An exception is
-- `none`.
use prxref.Base.{
  is_empty, ℕ, ◌+◌, Bool, not, ◌&&◌, ◌||◌, Option, none, some, List, [], ◌∷◌, ◌++◌, map, keep, any,
  ltb, is_some, if◌then◌else◌,
}
use prxref.Base.Text.{Text, text_eq}
use prxref.Stability.{Finding, PassResult, is_ok, distinct}

infixl 10 ◌>>=◌
abbrev pub ◌>>=◌ {ℓ κ} : {A : Type ℓ} {B : Type κ} → Option A → (A → Option B) → Option B
none >>= f = none
some a >>= f = f a

unfoldable pub sum : List ℕ → ℕ
sum [] = 0
sum (n ∷ ns) = n + sum ns

-- `sequence[-1]`
unfoldable pub last {ℓ} : {A : Type ℓ} → List A → Option A
last [] = none
last (x ∷ xs) = elim (last xs) [ none ↦ some x | some y ↦ some y ]

-- The first text that is not empty, else the empty one.
unfoldable pub first_text : List Text → Text
first_text [] = []
first_text ([] ∷ ts) = first_text ts
first_text ((c ∷ t) ∷ ts) = c ∷ t

unfoldable pub last_text : List Text → Text
last_text [] = []
last_text (t ∷ ts) = let rest = last_text ts in if is_empty rest then t else rest

-- The first part of `unit_cost`: whether a completion came back.
unfoldable pub is_received : PassResult → Bool
is_received r = not (is_empty r.model) || ltb 0 r.input_tokens || ltb 0 r.output_tokens

-- `math.fsum` of the costs, `none` where one is missing
unfoldable pub sum_costs : List PassResult → Option ℕ
sum_costs [] = some 0
sum_costs (r ∷ rs) =
    let rest = sum_costs rs in do cost ← r.cost_usd; others ← rest; some (cost + others)

-- `combine_reported` of the `unit_cost` of each result, which has its source where it has a cost.
unfoldable pub combine_reported : List PassResult → Option ℕ × Text
unfolding sum_costs last
combine_reported [] = (none, [])
combine_reported (r ∷ rs) = elim (sum_costs (r ∷ rs)) [
  | none ↦ (none, [])
  | some cost ↦ elim (last (r ∷ rs)) [ none ↦ (none, []) | some l ↦ (some cost, l.cost_source) ]
]

unfoldable pub merged_cost : List PassResult → Option ℕ × Text
unfolding keep is_received combine_reported
merged_cost rs = combine_reported (keep is_received rs)

unfoldable pub same_pair : Text × Text → Text × Text → Bool
same_pair a b = text_eq a.0 b.0 && text_eq a.1 b.1

unfoldable pub answer_pairs : PassResult → List (Text × Text)
answer_pairs r = if is_empty r.answered_by then (r.requested_model, r.model) ∷ [] else r.answered_by

unfoldable pub all_pairs : List PassResult → List (Text × Text)
unfolding answer_pairs
all_pairs [] = []
all_pairs (r ∷ rs) = answer_pairs r ++ all_pairs rs

unfoldable pub retries_of : PassResult → ℕ
retries_of r = elim r.parse_retries [ none ↦ 0 | some n ↦ n ]

-- The error of the merged result: none where a pass is ok, else the last one's.
unfoldable pub merged_error : List PassResult → List PassResult → Option Text
unfolding last
merged_error [] passes = do r ← last passes; some r.error
merged_error (r ∷ ok) passes = some []

-- The merged result under an error message.
unfoldable pub merged_fields : List PassResult → List Finding → Text → PassResult
unfolding is_ok merged_cost last_text first_text retries_of all_pairs distinct keep sum last any
merged_fields passes findings message =
    let ok = keep is_ok passes in
    let pool = if is_empty ok then passes else ok in
    let retries = keep (λ r. is_some r.parse_retries) passes in
    let answered = any (λ r. not (is_empty r.requested_model) || not (is_empty r.answered_by)) ok in
    record {
      findings = findings;
      error = message;
      input_tokens = sum (map (λ r. r.input_tokens) passes);
      output_tokens = sum (map (λ r. r.output_tokens) passes);
      model = last_text (map (λ r. r.model) pool);
      elapsed_ms = sum (map (λ r. r.elapsed_ms) passes);
      cost_usd = (merged_cost passes).0;
      cost_source = (merged_cost passes).1;
      parse_retries = if is_empty retries then none else some (sum (map retries_of retries));
      first_error = first_text (map (λ r. r.first_error) retries);
      requested_model = elim (last ok) [ none ↦ [] | some r ↦ r.requested_model ];
      answered_by = if answered then distinct same_pair (all_pairs ok) else [];
    }

unfoldable pub merge_result : List PassResult → List Finding → Option PassResult
unfolding merged_error merged_fields keep
merge_result passes findings = do
  message ← merged_error (keep is_ok passes) passes
  some (merged_fields passes findings message)
