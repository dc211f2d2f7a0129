-- ===== src/Gate/Store/Table.antt =====
-- What an UPDATE of `generations` keeps: the relation between a row and what becomes of it, and the
-- laws of `update_where`, `find_id` and `max_gen`.
use prxref.Base.{
  ℕ, ◌≤◌, ◌<◌, String, ◌≡◌, refl, ap, ◌∙◌, inl, inr, Bool, true, false, none, some, List, [], ◌∷◌,
  arith, str_eq_iff, if◌then◌else◌, Bool-cases, All, ◌↔◌,
}
use mathlib.Core.Option
use prxref.Gate.Store.Rows.{Generation, is_live, is_queued, same_pr, max_gen, update_where, find_id}

-- What becomes of a row: its identity and binding stay, `attempts` never falls, and a row that is
-- neither queued nor in progress changes in its check run id at most.
pub record Moves (g h : Generation) : Type 0 where
  pub id : h.id ≡ g.id
  pub repo : h.repo ≡ g.repo
  pub pr_number : h.pr_number ≡ g.pr_number
  pub head_sha : h.head_sha ≡ g.head_sha
  pub base_sha : h.base_sha ≡ g.base_sha
  pub base_ref : h.base_ref ≡ g.base_ref
  pub gen : h.gen ≡ g.gen
  pub reason : h.reason ≡ g.reason
  pub created_at : h.created_at ≡ g.created_at
  pub attempts : g.attempts ≤ h.attempts
  pub frozen : is_live g.state ≡ false → h ≡ record g { check_run_id = h.check_run_id }

pub Moves-refl : (g : Generation) → Moves g g
Moves-refl g = record {
  id = refl;
  repo = refl;
  pr_number = refl;
  head_sha = refl;
  base_sha = refl;
  base_ref = refl;
  gen = refl;
  reason = refl;
  created_at = refl;
  attempts = omega arith;
  frozen = λ _. refl;
}

frozen_twice :
    (g h k : Generation)
    → h ≡ record g { check_run_id = h.check_run_id }
    → k ≡ record h { check_run_id = k.check_run_id }
    → k ≡ record g { check_run_id = k.check_run_id }
frozen_twice g h k p q = q ∙ ap (λ (x : Generation). record x { check_run_id = k.check_run_id }) p

pub Moves-trans : {g h k : Generation} → Moves g h → Moves h k → Moves g k
Moves-trans {g} {h} {k} m n = record {
  id = n.id ∙ m.id;
  repo = n.repo ∙ m.repo;
  pr_number = n.pr_number ∙ m.pr_number;
  head_sha = n.head_sha ∙ m.head_sha;
  base_sha = n.base_sha ∙ m.base_sha;
  base_ref = n.base_ref ∙ m.base_ref;
  gen = n.gen ∙ m.gen;
  reason = n.reason ∙ m.reason;
  created_at = n.created_at ∙ m.created_at;
  attempts = omega (arith, m.attempts, n.attempts);
  frozen = λ done.
      let p = m.frozen done in
      let dead : is_live h.state ≡ false = ap (λ (x : Generation). is_live x.state) p ∙ done in
      frozen_twice g h k p (n.frozen dead);
}

pub same_pr_iff :
    (repo : String) (n : ℕ) (g : Generation)
    → (same_pr repo n g ≡ true) ↔ ((g.repo ≡ repo) × (g.pr_number ≡ n))
unfolding same_pr
same_pr_iff repo n g =
    (λ h. ground (arith, str_eq_iff g.repo repo), λ h. ground (arith, str_eq_iff g.repo repo))

pub same_pr_refl : (g : Generation) → same_pr g.repo g.pr_number g ≡ true
same_pr_refl g = (same_pr_iff g.repo g.pr_number g).1 (refl, refl)

-- Moving a row does not move it to another PR.
pub same_pr-Moves :
    {g h : Generation} (repo : String) (n : ℕ) → Moves g h → same_pr repo n h ≡ same_pr repo n g
unfolding same_pr
same_pr-Moves {g} {h} repo n m = rw (m.repo, m.pr_number)

-- A test that selects rows and a change of the rows that it selects.
pub record IsUpdate (p : Generation → Bool) (set : Generation → Generation) : Type 0 where
  pub moves : (g : Generation) → p g ≡ true → Moves g (set g)
  pub queues :
      (g : Generation) → p g ≡ true → is_queued (set g).state ≡ true → is_queued g.state ≡ true

module _ (p : Generation → Bool) (set : Generation → Generation) where
  abbrev pub updated : Generation → Generation
  updated g = if p g then set g else g

module _ (p : Generation → Bool) (set : Generation → Generation)
    (moves : (g : Generation) → p g ≡ true → Moves g (set g)) where
  pub updated-Moves : (g : Generation) → Moves g (updated p set g)
  updated-Moves g = elim (Bool-cases (p g)) [
    | inl e ↦ rw e (moves g e)
    | inr e ↦ rw e (Moves-refl g)
  ]

  pub max_gen-update_where :
      (repo : String) (n : ℕ) (gs : List Generation)
      → max_gen repo n (update_where p set gs) ≡ max_gen repo n gs
  unfolding max_gen update_where
  max_gen-update_where repo n [] = refl
  max_gen-update_where repo n (g ∷ gs) = rw (
    same_pr-Moves repo n (updated-Moves g),
    (updated-Moves g).gen,
    max_gen-update_where repo n gs,
  )

  -- The row that an UPDATE leaves under an id.
  pub find_id-update_where :
      (i : ℕ) (gs : List Generation)
      → find_id i (update_where p set gs) ≡ Option.map (updated p set) (find_id i gs)
  unfolding find_id update_where
  find_id-update_where i [] = refl
  find_id-update_where i (x ∷ gs) =
      rw (updated-Moves x).id (ground (arith, find_id-update_where i gs))

  -- An UPDATE leaves every row in the table, moved.
  pub update_where-Moves :
      (i : ℕ) (gs : List Generation) (g : Generation)
      → find_id i gs ≡ some g
      → (h : Generation) × (find_id i (update_where p set gs) ≡ some h) × Moves g h
  update_where-Moves i gs g e =
      (updated p set g, rw (find_id-update_where i gs, e), updated-Moves g)

-- Ids fall along the table, and each row's `gen` is above that of every older row of its PR.
abbrev pub Ordered : ℕ → List Generation → Type 0
Ordered n [] = Unit
Ordered n (g ∷ gs) = (g.id < n) × (max_gen g.repo g.pr_number gs < g.gen) × Ordered g.id gs

-- Every queued row of `hs` is the newest of its PR in `gs`.
abbrev pub QueuedNewest : List Generation → List Generation → Type 0
QueuedNewest gs = All λ g. is_queued g.state ≡ true → max_gen g.repo g.pr_number gs ≤ g.gen

pub Ordered-mono : {m n : ℕ} (gs : List Generation) → m ≤ n → Ordered m gs → Ordered n gs
Ordered-mono [] h o = tt
Ordered-mono (g ∷ gs) h o = (omega (arith, o.0), o.1, o.2)

-- An id at or above the bound is free.
pub find_id-Ordered : (n i : ℕ) (gs : List Generation) → Ordered n gs → n ≤ i → find_id i gs ≡ none
unfolding find_id
find_id-Ordered n i [] o h = refl
find_id-Ordered n i (g ∷ gs) o h = ground (arith, find_id-Ordered g.id i gs)

module _ (p : Generation → Bool) (set : Generation → Generation)
    (moves : (g : Generation) → p g ≡ true → Moves g (set g)) where
  pub update_where-Ordered :
      (n : ℕ) (gs : List Generation) → Ordered n gs → Ordered n (update_where p set gs)
  unfolding update_where
  update_where-Ordered n [] o = tt
  update_where-Ordered n (g ∷ gs) o =
      let m = updated-Moves p set moves g in
      (
        rw m.id o.0,
        rw (m.repo, m.pr_number, m.gen, max_gen-update_where p set moves) o.1,
        rw m.id (update_where-Ordered g.id gs o.2),
      )

-- An UPDATE that queues no row keeps `QueuedNewest`.
module _ (p : Generation → Bool) (set : Generation → Generation) (u : IsUpdate p set) where
  updated-queued :
      (g : Generation) → is_queued (updated p set g).state ≡ true → is_queued g.state ≡ true
  updated-queued g h = elim (Bool-cases (p g)) [
    | inl e ↦ u.queues g e (rw e at h)
    | inr e ↦ rw e at h
  ]

  update_where_newest :
      (all gs : List Generation) → QueuedNewest all gs → QueuedNewest all (update_where p set gs)
  unfolding update_where
  update_where_newest all [] q = tt
  update_where_newest all (g ∷ gs) q =
      let m = updated-Moves p set u.moves g in
      (
        λ h. rw (m.repo, m.pr_number, m.gen) (q.0 (updated-queued g h)),
        update_where_newest all gs q.1,
      )

-- `QueuedNewest` depends on the table only through `max_gen`.
pub QueuedNewest-max_gen :
    (all all' gs : List Generation)
    → ((repo : String) (n : ℕ) → max_gen repo n all' ≡ max_gen repo n all)
    → QueuedNewest all gs
    → QueuedNewest all' gs
QueuedNewest-max_gen all all' [] e q = tt
QueuedNewest-max_gen all all' (g ∷ gs) e q =
    (λ h. rw (e g.repo g.pr_number) (q.0 h), QueuedNewest-max_gen all all' gs e q.1)

pub update_where-QueuedNewest :
    (p : Generation → Bool) (set : Generation → Generation)
    → IsUpdate p set
    → (gs : List Generation) → QueuedNewest gs gs
    → QueuedNewest (update_where p set gs) (update_where p set gs)
update_where-QueuedNewest p set u gs q =
    QueuedNewest-max_gen gs (update_where p set gs) (update_where p set gs)
      (λ repo n. max_gen-update_where p set u.moves repo n gs) (update_where_newest p set u gs gs q)
