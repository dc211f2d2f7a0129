-- ===== src/Gate/Watchdog/Coverage.antt =====
-- Reconciliation of src/prxref/gate/watchdog.py leaves no listed head without a covering generation.
use mathlib.Core.Option
use prxref.Base.{
  ℕ, String, ◌≡◌, refl, ◌∙◌, ap, inl, inr, Bool, true, false, ◌&&◌, none, some, List, [], ◌∷◌,
  arith, if◌then◌else◌, Bool-cases, Option-cases, map, keep, best, str_eq,
}
use prxref.Gate.Store.Rows.{Generation, Store, is_queued, same_pr, higher_id, update_where}
use prxref.Gate.Store.Queries.{latest_generation_for_head}
use prxref.Gate.Store.Generations.{enqueue, supersede}
use prxref.Gate.Store.History.{IsValid}
use prxref.Gate.Store.Table.{Moves, updated, updated-Moves}
use prxref.Gate.Store.Enqueue.{supersede-Moves, new_row, enqueued, superseded_rows, enqueue_lem}
use prxref.Gate.Store.Newest.{enqueue_latest_for_head}
use prxref.Gate.Watchdog.{covers}

-- The head has a covering generation.
abbrev pub Covered : String → String → Store → Type 0
Covered repo head s = covers (latest_generation_for_head repo head s) ≡ true

-- A change of rows that keeps their ids, repositories and heads.
module _ (f : Generation → Generation) (same_id : (g : Generation) → (f g).id ≡ g.id) where
  pick-map :
      (b : Bool) (g h : Generation)
      → (if b then some (f h) else some (f g)) ≡ Option.map f (if b then some h else some g)
  pick-map true g h = refl
  pick-map false g h = refl

  same_order : (g h : Generation) → higher_id (f h) (f g) ≡ higher_id h g
  same_order g h = rw (same_id g, same_id h) refl

  best-map : (gs : List Generation) → best higher_id (map f gs) ≡ Option.map f (best higher_id gs)
  unfolding best
  best-map [] = refl
  best-map (g ∷ gs) = elim (Option-cases (best higher_id gs)) [
    | inl e ↦ rw (best-map gs, e) refl
    | inr (h, e) ↦
        rw (best-map gs, e)
          (ap (λ b. if b then some (f h) else some (f g)) (same_order g h)
            ∙ pick-map (higher_id h g) g h)
  ]

keep-map :
    (p : Generation → Bool) (f : Generation → Generation)
    → ((g : Generation) → p (f g) ≡ p g)
    → (gs : List Generation) → keep p (map f gs) ≡ map f (keep p gs)
unfolding keep
keep-map p f same [] = refl
keep-map p f same (g ∷ gs) = rw (same g) (ground (arith, keep-map p f same gs))

update_where-map :
    (p : Generation → Bool) (set : Generation → Generation) (gs : List Generation)
    → update_where p set gs ≡ map (updated p set) gs
unfolding update_where
update_where-map p set [] = refl
update_where-map p set (g ∷ gs) = rw (update_where-map p set gs)

module _ (repo head : String) where
  abbrev of_head : Generation → Bool
  of_head g = str_eq g.repo repo && str_eq g.head_sha head

  module _ (r : String) (n now : ℕ) where
    abbrev fate : Generation → Generation
    fate = updated (λ g. same_pr r n g && is_queued g.state) (supersede now)

    fate-Moves : (g : Generation) → Moves g (fate g)
    fate-Moves =
        updated-Moves (λ g. same_pr r n g && is_queued g.state) (supersede now)
          (supersede-Moves r n now)

    of_head-fate : (g : Generation) → of_head (fate g) ≡ of_head g
    of_head-fate g = rw ((fate-Moves g).repo, (fate-Moves g).head_sha) refl

    -- Superseding rows does not change which row is a head's latest.
    best-superseded :
        (gs : List Generation)
        → best higher_id (keep of_head (superseded_rows r n now gs))
          ≡ Option.map fate (best higher_id (keep of_head gs))
    best-superseded gs =
        rw (update_where-map, keep-map of_head fate of_head-fate gs)
          (best-map fate (λ g. (fate-Moves g).id) (keep of_head gs))

    -- Nor whether it covers.
    covers-fate :
        (o : Option.Option Generation) → covers o ≡ true → covers (Option.map fate o) ≡ true
    unfolding covers supersede
    covers-fate none h = h
    covers-fate (some g) h = ground arith

  covers-either :
      (b : Bool) (x y : Generation)
      → covers (some x) ≡ true
      → covers (some y) ≡ true
      → covers (if b then some x else some y) ≡ true
  covers-either true x y p q = p
  covers-either false x y p q = q

  covers-cons :
      (g : Generation) (gs : List Generation)
      → covers (some g) ≡ true
      → covers (best higher_id gs) ≡ true
      → covers (best higher_id (g ∷ gs)) ≡ true
  unfolding best
  covers-cons g gs p q = elim (Option-cases (best higher_id gs)) [
    | inl e ↦ rw e p
    | inr (h, e) ↦ rw e (covers-either (higher_id h g) h g (rw e at q) p)
  ]

  module _ (r : String) (n : ℕ) (h b f why : String) (now : ℕ) (s : Store) where
    abbrev new : Generation
    new = new_row r n h b f why now s

    abbrev old_rows : List Generation
    old_rows = superseded_rows r n now s.generations

    new-covers : covers (some new) ≡ true
    unfolding covers
    new-covers = refl

    old-covers : Covered repo head s → covers (best higher_id (keep of_head old_rows)) ≡ true
    unfolding latest_generation_for_head
    old-covers c =
        rw (best-superseded r n now s.generations)
          (covers-fate r n now (best higher_id (keep of_head s.generations)) c)

    enqueued-Covered : Covered repo head s → Covered repo head (enqueued r n h b f why now s)
    unfolding latest_generation_for_head keep
    enqueued-Covered c = elim (Bool-cases (of_head new)) [
      | inl e ↦ rw e (covers-cons new (keep of_head old_rows) new-covers (old-covers c))
      | inr e ↦ rw e (old-covers c)
    ]

    -- A head stays covered when a row is enqueued, for whichever head.
    pub enqueue-Covered :
        IsValid s → Covered repo head s → Covered repo head (enqueue r n h b f why now s).1
    enqueue-Covered v c = rw (enqueue_lem r n h b f why now s v) (enqueued-Covered c)

-- A head is covered once a row is enqueued for it.
pub covers_after_enqueue :
    (r : String) (n : ℕ) (h b f why : String) (now : ℕ) (s : Store)
    → IsValid s
    → Covered r h (enqueue r n h b f why now s).1
unfolding covers
covers_after_enqueue r n h b f why now s v = rw (enqueue_latest_for_head r n h b f why now s v) refl
