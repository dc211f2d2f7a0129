-- ===== src/Gate/Store/Publications.antt =====
-- `record_publication` and `publication` of src/prxref/gate/store.py.
use prxref.Base.{ℕ, String, Option, none, some, List, [], ◌∷◌, ◌==◌, if◌then◌else◌, find_first}
use prxref.Gate.Exec.{Exec, pure, tx, ◌>>◌}
use prxref.Gate.Store.Rows.{Publication, Store}
use prxref.Gate.Store.Fence.{fence}

-- INSERT … ON CONFLICT(generation_id) DO UPDATE
unfoldable pub upsert : Publication → List Publication → List Publication
upsert row [] = row ∷ []
upsert row (p ∷ ps) = if p.generation_id == row.generation_id then row ∷ ps else p ∷ upsert row ps

unfoldable pub put_publication : Publication → Exec Store (Unit {0})
unfolding pure
put_publication row s = pure tt (record s { publications = upsert row s.publications })

unfoldable pub record_publication : ℕ → ℕ → String → ℕ → ℕ → ℕ → Exec Store (Unit {0})
record_publication gen_id token kind github_id fence_now now = tx (do
  fence token fence_now
  put_publication
      (record { generation_id = gen_id; kind = kind; github_id = github_id; posted_at = now }))

unfoldable pub publication : ℕ → Store → Option (String × ℕ)
publication gen_id s = elim (find_first (λ p. p.generation_id == gen_id) s.publications) [
  | none ↦ none
  | some p ↦ some (p.kind, p.github_id)
]
