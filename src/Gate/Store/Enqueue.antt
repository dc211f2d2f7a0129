-- ===== src/Gate/Store/Enqueue.antt =====
-- `enqueue` of src/prxref/gate/store.py in full: it never fails, and what it leaves.
use prxref.Base.{
  ℕ, suc, false≢true, ◌+◌, ◌≤◌, ◌<◌, String, ◌≡◌, refl, sym, ◌∙◌, Bool, true, false, ◌&&◌, none,
  some, List, [], ◌∷◌, arith, ◌==◌, Bool-cases, any, ==-refl, inl, inr,
}
use prxref.Gate.Exec.{ok, tx, settle, ◌>>=◌}
use prxref.Gate.Exec.Keeps.{Leads}
use prxref.Gate.Store.Rows.{
  queued, superseded, Generation, Store, is_queued, same_pr, max_gen, update_where, find_id,
}
use prxref.Gate.Store.Fence.{update}
use prxref.Gate.Store.Generations.{insert, supersede, enqueue_tx, enqueue}
use prxref.Gate.Store.Table.{
  Moves, Ordered, QueuedNewest, same_pr_iff, same_pr_refl, max_gen-update_where,
  update_where-Ordered, update_where-Moves, find_id-Ordered, QueuedNewest-max_gen,
}
use prxref.Gate.Store.Transitions.{Moves-live, queued_row_live}
use prxref.Gate.Store.History.{IsValid, Evolves, Advances, get_found}

-- No row of the PR has a `gen` above the maximum.
gen_free :
    (repo : String) (pr m : ℕ) (gs : List Generation)
    → max_gen repo pr gs < m
    → any (λ g. same_pr repo pr g && g.gen == m) gs ≡ false
unfolding any max_gen
gen_free repo pr m [] h = refl
gen_free repo pr m (g ∷ gs) h = elim (Bool-cases (same_pr repo pr g)) [
  | inl e ↦ ground (arith, gen_free repo pr m gs)
  | inr e ↦ ground (arith, gen_free repo pr m gs)
]

-- An UPDATE by an id that no row has changes nothing.
update_where_free :
    (n i : ℕ) (set : Generation → Generation) (gs : List Generation)
    → Ordered n gs
    → n ≤ i
    → update_where (λ g. g.id == i) set gs ≡ gs
unfolding update_where
update_where_free n i set [] o h = refl
update_where_free n i set (g ∷ gs) o h = ground (arith, update_where_free g.id i set gs)

abbrev of_pr_queued : String → ℕ → Generation → Bool
of_pr_queued repo pr g = same_pr repo pr g && is_queued g.state

pub supersede-Moves :
    (repo : String) (pr now : ℕ) (g : Generation)
    → of_pr_queued repo pr g ≡ true
    → Moves g (supersede now g)
unfolding supersede
supersede-Moves repo pr now g h =
    Moves-live g superseded g.started_at (some now) g.check_run_id g.conclusion g.error g.attempts
      (queued_row_live g (ground arith)) (omega arith)

-- The row that `enqueue` makes.
abbrev pub new_row : String → ℕ → String → String → String → String → ℕ → Store → Generation
new_row repo pr head_sha base_sha base_ref reason now s = record {
  id = suc s.seq;
  repo = repo;
  pr_number = pr;
  head_sha = head_sha;
  base_sha = base_sha;
  base_ref = base_ref;
  gen = max_gen repo pr s.generations + 1;
  reason = reason;
  state = queued;
  created_at = now;
  started_at = none;
  finished_at = none;
  check_run_id = none;
  external_id = some (suc s.seq);
  conclusion = none;
  error = none;
  attempts = 0;
}

-- The table with the PR's queued rows superseded.
abbrev pub superseded_rows : String → ℕ → ℕ → List Generation → List Generation
superseded_rows repo pr now =
    update_where (λ g. same_pr repo pr g && is_queued g.state) (supersede now)

abbrev pub enqueued : String → ℕ → String → String → String → String → ℕ → Store → Store
enqueued repo pr head_sha base_sha base_ref reason now s = record s {
  seq = suc s.seq;
  generations =
      new_row repo pr head_sha base_sha base_ref reason now s
      ∷ superseded_rows repo pr now s.generations;
}

module _ (repo : String) (pr : ℕ) (head_sha base_sha base_ref reason : String) (now : ℕ)
    (s : Store) where
  enqueue_tx_lem :
      IsValid s
      → enqueue_tx repo pr head_sha base_sha base_ref reason now s
        ≡ (ok (suc s.seq), enqueued repo pr head_sha base_sha base_ref reason now s)
  unfolding enqueue_tx tx settle ◌>>=◌ update insert update_where
  enqueue_tx_lem v =
      let gs = superseded_rows repo pr now s.generations in
      let moves = supersede-Moves repo pr now in
      let o =
        update_where-Ordered (of_pr_queued repo pr) (supersede now) moves (suc s.seq) s.generations
          v.ordered in
      let e =
        max_gen-update_where (of_pr_queued repo pr) (supersede now) moves repo pr s.generations in
      let free = gen_free repo pr (max_gen repo pr s.generations + 1) gs (rw e (omega arith)) in
      let miss =
        update_where_free (suc s.seq) (suc s.seq) (λ g. record g { external_id = some g.id }) gs o
          (omega arith) in
      rw (free, ==-refl (suc s.seq), miss) refl

  found :
      find_id (suc s.seq) (enqueued repo pr head_sha base_sha base_ref reason now s).generations
      ≡ some (new_row repo pr head_sha base_sha base_ref reason now s)
  unfolding find_id
  found = rw (==-refl (suc s.seq)) refl

  -- In a valid database `enqueue` returns the new row, which no UNIQUE constraint refuses: its PR's
  -- queued rows are superseded, and nothing else changes.
  pub enqueue_lem :
      IsValid s
      → enqueue repo pr head_sha base_sha base_ref reason now s ≡ (
        ok (new_row repo pr head_sha base_sha base_ref reason now s),
        enqueued repo pr head_sha base_sha base_ref reason now s,
      )
  unfolding enqueue ◌>>=◌
  enqueue_lem v = rw (enqueue_tx_lem v) (get_found (suc s.seq) _ _ found)

  -- The new row is of another PR than a row which is not of its PR.
  new_row_elsewhere :
      (g : Generation)
      → same_pr repo pr g ≡ false
      → same_pr g.repo g.pr_number (new_row repo pr head_sha base_sha base_ref reason now s) ≡ false
  new_row_elsewhere g h =
      let new = new_row repo pr head_sha base_sha base_ref reason now s in
      elim (Bool-cases (same_pr g.repo g.pr_number new)) [
        | inl e ↦
            let k = (same_pr_iff g.repo g.pr_number new).0 e in
            let l = (same_pr_iff repo pr g).1 (sym k.0, sym k.1) in absurd (false≢true (sym h ∙ l))
        | inr e ↦ e
      ]

  still_newest :
      (all : List Generation) (g : Generation)
      → (is_queued g.state ≡ true → max_gen g.repo g.pr_number all ≤ g.gen)
      → of_pr_queued repo pr g ≡ false
      → is_queued g.state ≡ true
      → max_gen g.repo g.pr_number (new_row repo pr head_sha base_sha base_ref reason now s ∷ all)
        ≤ g.gen
  unfolding max_gen
  still_newest all g q miss h = rw (new_row_elsewhere g (ground arith)) (q h)

  -- A queued row of another PR is still its PR's newest after the insert.
  others_newest :
      (all gs : List Generation)
      → QueuedNewest all gs
      → QueuedNewest
          (new_row repo pr head_sha base_sha base_ref reason now s ∷ all)
          (superseded_rows repo pr now gs)
  unfolding update_where supersede is_queued
  others_newest all [] q = tt
  others_newest all (g ∷ gs) q = (
    elim (Bool-cases (of_pr_queued repo pr g)) [
      | inl e ↦ rw e (λ h. cc)
      | inr e ↦ rw e (still_newest all g q.0 e)
    ],
    others_newest all gs q.1,
  )

  abbrev new : Generation
  new = new_row repo pr head_sha base_sha base_ref reason now s

  abbrev old_rows : List Generation
  old_rows = superseded_rows repo pr now s.generations

  max_gen-superseded : (r : String) (n : ℕ) → max_gen r n old_rows ≡ max_gen r n s.generations
  max_gen-superseded r n =
      max_gen-update_where (of_pr_queued repo pr) (supersede now) (supersede-Moves repo pr now) r n
        s.generations

  max_gen-with_new :
      (r : String) (n : ℕ) → max_gen r n (new ∷ old_rows) ≡ max_gen r n (new ∷ s.generations)
  unfolding max_gen
  max_gen-with_new r n = rw (max_gen-superseded r n) refl

  -- After an enqueue the PR's newest `gen` is the new row's.
  max_gen-enqueued : max_gen repo pr (new ∷ old_rows) ≡ max_gen repo pr s.generations + 1
  unfolding max_gen
  max_gen-enqueued = rw (same_pr_refl new, max_gen-superseded repo pr) (omega arith)

  enqueued-IsValid : IsValid s → IsValid (enqueued repo pr head_sha base_sha base_ref reason now s)
  enqueued-IsValid v = record {
    ordered = (
      omega arith,
      rw (max_gen-superseded repo pr) (omega arith),
      update_where-Ordered (of_pr_queued repo pr) (supersede now) (supersede-Moves repo pr now)
          (suc s.seq) s.generations v.ordered,
    );
    queued_newest = (
      λ _. rw max_gen-enqueued (omega arith),
      QueuedNewest-max_gen (new ∷ s.generations) (new ∷ old_rows) old_rows max_gen-with_new
          (others_newest s.generations s.generations v.queued_newest),
    );
  }

  -- The ids that were there are below the new one.
  find_id-enqueued :
      (i : ℕ) (g : Generation)
      → IsValid s
      → find_id i s.generations ≡ some g
      → find_id i (new ∷ old_rows) ≡ find_id i old_rows
  unfolding find_id
  find_id-enqueued i g v e = ground (arith, find_id-Ordered (suc s.seq) i s.generations v.ordered)

  enqueued-Evolves :
      IsValid s → Evolves s (enqueued repo pr head_sha base_sha base_ref reason now s)
  enqueued-Evolves v = record {
    rows = λ i g e. rw (find_id-enqueued i g v e) (
        update_where-Moves (of_pr_queued repo pr) (supersede now) (supersede-Moves repo pr now) i
          s.generations g e);
  }

pub enqueue-Advances :
    (repo : String) (pr : ℕ) (head_sha base_sha base_ref reason : String) (now : ℕ)
    → Leads Advances (enqueue repo pr head_sha base_sha base_ref reason now)
enqueue-Advances repo pr head_sha base_sha base_ref reason now = record {
  at = λ s v. rw (enqueue_lem repo pr head_sha base_sha base_ref reason now s v) (record {
    valid = enqueued-IsValid repo pr head_sha base_sha base_ref reason now s v;
    evolves = enqueued-Evolves repo pr head_sha base_sha base_ref reason now s v;
  });
}
