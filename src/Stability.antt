-- ===== src/Stability.antt =====
-- src/prxref/stability.py: the findings of several review passes over one chunk, merged into one
-- result. The test of two findings for a common cause is an argument. A severity is what its text is
-- without case and outer spaces, confidences and costs are natural numbers in a unit as fine as
-- needed, and a key that a result lacks is an empty text, an empty list or `none`.
pub mod Result
pub mod Merge
pub mod Walks
pub mod Clusters
pub mod Sorting
pub mod Agreement
pub mod Passes
pub mod Tests
use prxref.Base.{
  ℕ, suc, ◌+◌, ◌-◌, min, Bool, true, false, not, ◌&&◌, ◌||◌, Option, none, some, List, [], ◌∷◌,
  ◌++◌, map, length, keep, any, all, ltb, leb, ◌==◌, is_some, is_empty, if◌then◌else◌,
}
use prxref.Base.Text.{
  Text, codes, text_eq, drop_prefix, starts_with, ends_with, contains, show_number,
}

pub data Severity : Type 0 where
  error : Severity
  warning : Severity
  spec : Severity
  outofscope : Severity
  unlisted : Severity

unfoldable pub severity_rank : Severity → ℕ
severity_rank error = 0
severity_rank warning = 1
severity_rank spec = 2
severity_rank outofscope = 3
severity_rank unlisted = 4

-- The fields of a finding that the merge reads or writes.
pub record Finding : Type 0 where
  pub file : Text
  pub line : ℕ
  pub severity : Severity
  pub title : Text
  pub body : Text
  pub confidence : ℕ
  pub agreement : ℕ
  pub passes_ok : ℕ
  pub drop_reason : Option Text

-- The result of one worker on one chunk.
pub record PassResult : Type 0 where
  pub findings : List Finding
  pub error : Text
  pub input_tokens : ℕ
  pub output_tokens : ℕ
  pub model : Text
  pub elapsed_ms : ℕ
  pub cost_usd : Option ℕ
  pub cost_source : Text
  pub parse_retries : Option ℕ
  pub first_error : Text
  pub requested_model : Text
  pub answered_by : List (Text × Text)

-- `not res["error"]`
unfoldable pub is_ok : PassResult → Bool
is_ok r = is_empty r.error

-- A finding with its pass and its position in it.
pub record Member : Type 0 where
  pub pass : ℕ
  pub place : ℕ
  pub finding : Finding

-- A cluster, which has a first member.
pub record Cluster : Type 0 where
  pub first : Member
  pub later : List Member

abbrev pub members : Cluster → List Member
members c = c.first ∷ c.later

module _ (same_cluster : Finding → Finding → Bool) where
  -- The member joins the first cluster that is not touched and whose first member shares its cause,
  -- or opens one: the clusters from index `i` on, and the index of the member's.
  unfoldable pub join_cluster : List ℕ → Member → ℕ → List Cluster → List Cluster × ℕ
  unfolding any
  join_cluster touched m i [] = (record { first = m; later = [] } ∷ [], i)
  join_cluster touched m i (c ∷ cs) =
      let rest = join_cluster touched m (i + 1) cs in
      if not (any (λ t. i == t) touched) && same_cluster c.first.finding m.finding
      then (record c { later = c.later ++ m ∷ [] } ∷ cs, i)
      else (c ∷ rest.0, rest.1)

  -- The findings of one pass, from position `j` on.
  unfoldable pub cluster_pass : ℕ → ℕ → List Finding → List ℕ → List Cluster → List Cluster
  unfolding join_cluster
  cluster_pass p j [] touched cs = cs
  cluster_pass p j (f ∷ fs) touched cs =
      let joined = join_cluster touched (record { pass = p; place = j; finding = f }) 0 cs in
      cluster_pass p (j + 1) fs (joined.1 ∷ touched) joined.0

  unfoldable pub clusters_from : List (ℕ × PassResult) → List Cluster → List Cluster
  unfolding cluster_pass
  clusters_from [] cs = cs
  clusters_from ((p, r) ∷ ok) cs = clusters_from ok (cluster_pass p 0 r.findings [] cs)

  -- `_clusters`
  unfoldable pub clusters : List (ℕ × PassResult) → List Cluster
  unfolding clusters_from
  clusters ok = clusters_from ok []

-- `key(a) < key(b)` in `_representative`
unfoldable pub key_less : Member → Member → Bool
key_less a b =
    let ra = severity_rank a.finding.severity in
    let rb = severity_rank b.finding.severity in
    ltb ra rb
    || ra == rb
      && (ltb b.finding.confidence a.finding.confidence
          || a.finding.confidence == b.finding.confidence
            && (ltb a.pass b.pass || a.pass == b.pass && ltb a.place b.place))

-- The first least member, from the least so far.
unfoldable pub least : Member → List Member → Member
unfolding key_less
least best [] = best
least best (m ∷ ms) = least (if key_less m best then m else best) ms

unfoldable pub representative : Cluster → Finding
unfolding least
representative c = (least c.first c.later).finding

-- Each element once, where it stands first.
unfoldable pub distinct {ℓ} : {A : Type ℓ} → (A → A → Bool) → List A → List A
unfolding keep
distinct same [] = []
distinct same (x ∷ xs) = x ∷ keep (λ y. not (same x y)) (distinct same xs)

-- The path without one of its occurrences of "json" is the file.
unfoldable pub is_cut : Text → Text → Bool
unfolding drop_prefix text_eq
is_cut file [] = false
is_cut file (d ∷ path) =
    let here : Bool = elim (drop_prefix (codes "json") (d ∷ path)) [
      | none ↦ false
      | some rest ↦ text_eq rest file
    ] in
    let later : Bool = elim file [ [] ↦ false | c ∷ file' ↦ c == d && is_cut file' path ] in
    here || later

-- A diff path that a mangled file could have been.
unfoldable pub is_candidate : Text → Text → Bool
unfolding is_cut starts_with ends_with contains
is_candidate file path =
    not (starts_with (codes "/") file)
      && (contains (codes "/") file || contains (codes ".") file)
      && ends_with (codes "/" ++ file) path
    || is_cut file path

-- The candidates are not sorted, as they are only used where there is a single one.
unfoldable pub repair_candidates : Text → List Text → List Text
unfolding distinct is_candidate keep
repair_candidates [] paths = []
repair_candidates (c ∷ file) paths = keep (is_candidate (c ∷ file)) (distinct text_eq paths)

unfoldable pub resolve_diff_path : Text → List Text → Option Text
unfolding repair_candidates any
resolve_diff_path file paths =
    if any (text_eq file) paths
    then some file
    else elim (repair_candidates file paths) [ p ∷ [] ↦ some p | _ ↦ none ]

-- A finding under the diff path of its file.
unfoldable pub resolved : List Text → Finding → Finding
unfolding resolve_diff_path
resolved paths f = elim (resolve_diff_path f.file paths) [
  | none ↦ f
  | some path ↦ record f { file = path }
]

-- `_normalized`; no paths and `None` are the empty list.
unfoldable pub normalized : List (ℕ × PassResult) → List Text → List (ℕ × PassResult)
unfolding resolved
normalized ok [] = ok
normalized ok (path ∷ paths) =
    map (λ r. (r.0, record r.1 { findings = map (resolved (path ∷ paths)) r.1.findings })) ok
