-- ===== src/Gate/Watchdog/Reconcile.antt =====
-- `reconcile` and `tick` of src/prxref/gate/watchdog.py: from a valid database they never fail, keep
-- it valid, and cover the head of every pull request that the client listed.
use prxref.Base.{
  ℕ, String, ◌≡◌, refl, sym, ap, subst, inl, inr, Option, none, some, List, [], ◌∷◌, ◌++◌,
  Bool-cases, All,
}
use prxref.Gate.Exec.{Exec, Result, ok, err, pure, ◌>>=◌, continue}
use prxref.Gate.Store.Rows.{Generation, Store}
use prxref.Gate.Store.Queries.{latest_generation_for_head}
use prxref.Gate.Store.Generations.{enqueue}
use prxref.Gate.Store.History.{IsValid}
use prxref.Gate.Store.Enqueue.{new_row, enqueue_lem, enqueue-Advances}
use prxref.Gate.Watchdog.{Pull, Page, covers, reconcile_pull, reconcile_pulls, reconcile, list_open}
use prxref.Gate.Watchdog.Coverage.{Covered, enqueue-Covered, covers_after_enqueue}

-- It returned, left a valid database, and no covered head lost its cover.
pub record Done {A : Type 0} (s : Store) (r : Result A × Store) : Type 0 where
  pub returned : (a : A) × (r.0 ≡ ok a)
  pub valid : IsValid r.1
  pub still : (repo head : String) → Covered repo head s → Covered repo head r.1

continue_ok :
    {A B : Type 0} (f : A → Exec Store B) (r : Result A × Store) (a : A)
    → r.0 ≡ ok a
    → continue f r ≡ f a r.1
continue_ok {A} f (ok x, s) a e = ap (λ (y : Result A). continue f (y, s)) e
continue_ok {A} f (err x, s) a e = cc

Done-pure : {A : Type 0} (a : A) (s : Store) → IsValid s → Done s (pure a s)
unfolding pure
Done-pure a s v = record { returned = (a, refl); valid = v; still = λ r h c. c }

-- What follows an action that is done.
Done-bind :
    {A B : Type 0} (m : Exec Store A) (f : A → Exec Store B) (s : Store)
    → Done s (m s)
    → ((a : A) → Done (m s).1 (f a (m s).1))
    → Done s ((m >>= f) s)
unfolding ◌>>=◌
Done-bind m f s d k =
    let (a, e) = d.returned in
    let n = k a in
    rw (continue_ok f (m s) a e) (record {
      returned = n.returned;
      valid = n.valid;
      still = λ r h c. n.still r h (d.still r h c);
    })

Done-enqueue :
    (r : String) (n : ℕ) (h b f why : String) (now : ℕ) (s : Store)
    → IsValid s
    → Done s (enqueue r n h b f why now s)
Done-enqueue r n h b f why now s v = record {
  returned = (
    new_row r n h b f why now s,
    ap (λ (x : Result Generation × Store). x.0) (enqueue_lem r n h b f why now s v),
  );
  valid = ((enqueue-Advances r n h b f why now).at s v).valid;
  still = λ repo head c. enqueue-Covered repo head r n h b f why now s v c;
}

abbrev both : {A : Type 0} → Exec Store (List A) → Exec Store (List A) → Exec Store (List A)
both m n = m >>= λ xs. n >>= λ ys. pure (xs ++ ys)

-- Two actions, one after the other, and where they end.
Done-both :
    {A : Type 0} (m n : Exec Store (List A)) (s : Store)
    → Done s (m s)
    → Done (m s).1 (n (m s).1)
    → Done s (both m n s) × ((both m n s).1 ≡ (n (m s).1).1)
unfolding ◌>>=◌
Done-both m n s d k =
    let (xs, e) = d.returned in
    let (ys, q) = k.returned in
    (
      Done-bind m (λ xs. n >>= λ ys. pure (xs ++ ys)) s d
          (λ xs.
            Done-bind n (λ ys. pure (xs ++ ys)) (m s).1 k
              (λ ys. Done-pure (xs ++ ys) (n (m s).1).1 k.valid)),
      rw
          (
            continue_ok (λ xs. n >>= λ ys. pure (xs ++ ys)) (m s) xs e,
            continue_ok (λ ys. pure (xs ++ ys)) (n (m s).1) ys q,
          )
          refl,
    )

-- The head of a listed pull request is covered.
abbrev pub PullCovered : String → Store → Option Pull → Type 0
PullCovered repo s none = Unit
PullCovered repo s (some p) = Covered repo p.head s

module _ (clock : ℕ → ℕ) (repo : String) where
  reconcile_pull-covers :
      (p : Pull) (s : Store)
      → IsValid s
      → Done s (reconcile_pull clock repo p s)
        × Covered repo p.head (reconcile_pull clock repo p s).1
  unfolding reconcile_pull ◌>>=◌
  reconcile_pull-covers p s v =
      elim (Bool-cases (covers (latest_generation_for_head repo p.head s))) [
        | inl e ↦ rw e (Done-pure [] s v, e)
        | inr e ↦
            let now = clock s.seq in
            let go = enqueue repo p.number p.head p.base p.base_ref "reconcile" now in
            let made = Done-enqueue repo p.number p.head p.base p.base_ref "reconcile" now s v in
            let lem = enqueue_lem repo p.number p.head p.base p.base_ref "reconcile" now s v in
            rw e (
              Done-bind go (λ g. pure (g ∷ [])) s made
                  (λ g. Done-pure (g ∷ []) (go s).1 made.valid),
              rw lem (
                  rw lem at (
                    covers_after_enqueue repo p.number p.head p.base p.base_ref "reconcile" now s
                      v)),
            )
      ]

  Pulls-kept :
      (pulls : List (Option Pull)) (s t : Store)
      → ((r h : String) → Covered r h s → Covered r h t)
      → All (PullCovered repo s) pulls
      → All (PullCovered repo t) pulls
  Pulls-kept [] s t k a = tt
  Pulls-kept (none ∷ pulls) s t k a = (tt, Pulls-kept pulls s t k a.1)
  Pulls-kept (some p ∷ pulls) s t k a = (k repo p.head a.0, Pulls-kept pulls s t k a.1)

  reconcile_pulls-covers :
      (pulls : List (Option Pull)) (s : Store)
      → IsValid s
      → Done s (reconcile_pulls clock repo pulls s)
        × All (PullCovered repo (reconcile_pulls clock repo pulls s).1) pulls
  unfolding reconcile_pulls
  reconcile_pulls-covers [] s v = (Done-pure [] s v, tt)
  reconcile_pulls-covers (none ∷ pulls) s v =
      let (d, a) = reconcile_pulls-covers pulls s v in (d, (tt, a))
  reconcile_pulls-covers (some p ∷ pulls) s v =
      let first = reconcile_pull clock repo p in
      let rest = reconcile_pulls clock repo pulls in
      let (d, c) = reconcile_pull-covers p s v in
      let (d', a) = reconcile_pulls-covers pulls (first s).1 d.valid in
      let (all, same) = Done-both first rest s d d' in
      (
        all,
        subst (λ t. All (PullCovered repo t) (some p ∷ pulls)) (sym same)
            (d'.still repo p.head c, a),
      )

-- Every pull request that the client lists for the repositories has a covered head.
abbrev pub AllCovered : (String → ℕ → Page) → List String → Store → Type 0
AllCovered client repos s = All (λ repo. All (PullCovered repo s) (list_open (client repo))) repos

pub reconcile_lem :
    (clock : ℕ → ℕ) (client : String → ℕ → Page) (repos : List String) (s : Store)
    → IsValid s
    → Done s (reconcile clock client repos s)
      × AllCovered client repos (reconcile clock client repos s).1
unfolding reconcile
reconcile_lem clock client [] s v = (Done-pure [] s v, tt)
reconcile_lem clock client (repo ∷ repos) s v =
    let first = reconcile_pulls clock repo (list_open (client repo)) in
    let rest = reconcile clock client repos in
    let (d, c) = reconcile_pulls-covers clock repo (list_open (client repo)) s v in
    let (d', a) = reconcile_lem clock client repos (first s).1 d.valid in
    let (all, same) = Done-both first rest s d d' in
    (
      all,
      subst (AllCovered client (repo ∷ repos)) (sym same) (
        Pulls-kept clock repo (list_open (client repo)) (first s).1 (rest (first s).1).1 d'.still c,
        a,
      ),
    )

-- From a valid database `reconcile` returns, leaves a valid database, and leaves the head of every
-- pull request that the client listed with a covering generation.
pub reconcile_covers :
    (clock : ℕ → ℕ) (client : String → ℕ → Page) (repos : List String) (s : Store)
    → IsValid s
    → ((made : List Generation) × ((reconcile clock client repos s).0 ≡ ok made))
      × IsValid (reconcile clock client repos s).1
      × AllCovered client repos (reconcile clock client repos s).1
reconcile_covers clock client repos s v =
    let (d, c) = reconcile_lem clock client repos s v in (d.returned, d.valid, c)
