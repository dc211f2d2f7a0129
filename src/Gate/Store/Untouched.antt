-- ===== src/Gate/Store/Untouched.antt =====
-- The methods of src/prxref/gate/store.py that write generations and publications leave the rest of
-- the database alone: its leases and its deliveries.
use prxref.Base.{
  ℕ, String, ◌≡◌, refl, ◌∙◌, Bool, true, false, ◌&&◌, Option, List, [], ◌==◌, if◌then◌else◌,
  Bool-cases, inl, inr, any,
}
use prxref.Gate.Exec.{Error, Exec, pure, gets, tx, ◌>>=◌, guard}
use prxref.Gate.Exec.Keeps.{
  IsOrder, Leads, Leads-tx, Leads-bind, Leads-gets, Leads-pure, Leads-guard,
}
use prxref.Gate.Store.Rows.{same_pr, State, Generation, Publication, Store}
use prxref.Gate.Store.Fence.{update, fence, get}
use prxref.Gate.Store.Publications.{put_publication, record_publication}
use prxref.Gate.Store.Generations.{
  insert, enqueue_tx, enqueue, cancel_pr, start, set_check_run, finish, requeue_in_progress,
  requeue_expired, adopt_orphans,
}
use prxref.Gate.Store.History.{get_same}

-- What a reading of the database sees when it does not look at generations and publications.
abbrev pub Ignores : {X : Type 0} → (Store → X) → Type 0
Ignores read =
    (s : Store) (gs : List Generation) (n : ℕ) (ps : List Publication)
    → read (record s { generations = gs; seq = n; publications = ps }) ≡ read s

abbrev pub SameBy : {X : Type 0} → (Store → X) → Store → Store → Type 0
SameBy read s t = read t ≡ read s

module _ {X : Type 0} (read : Store → X) (alone : Ignores read) where
  abbrev Same : Store → Store → Type 0
  Same = SameBy read

  Same-order : IsOrder Same
  Same-order = record { stay = λ s. refl; chain = λ s t u p q. q ∙ p }

  update-Same : (p : Generation → Bool) (set : Generation → Generation) → Leads Same (update p set)
  unfolding update
  update-Same p set = record { at = λ s. alone s _ _ _ }

  fence-Same : (token now : ℕ) → Leads Same (fence token now)
  unfolding fence
  fence-Same token now =
      Leads-bind Same-order _ _ (Leads-gets Same-order _) (λ b. Leads-guard Same-order b _)

  get-Same : (i : ℕ) → Leads Same (get i)
  get-Same i = record { at = λ s. rw get_same refl }

  put-Same : (row : Publication) → Leads Same (put_publication row)
  unfolding put_publication
  put-Same row = record { at = λ s. alone s _ _ _ }

  insert-Same :
      (r : String) (n : ℕ) (h b f : String) (gen : ℕ) (why : String) (now : ℕ)
      → Leads Same (insert r n h b f gen why now)
  unfolding insert
  insert-Same r n h b f gen why now = record {
    at = λ s. elim (Bool-cases (any (λ g. same_pr r n g && g.gen == gen) s.generations)) [
      | inl e ↦ rw (e, insert) refl
      | inr e ↦ rw (e, insert) (alone s _ _ s.publications)
    ];
  }

  pure-Same : {A : Type 0} (a : A) → Leads Same (pure a)
  pure-Same a = Leads-pure Same-order a

  gets-Same : {A : Type 0} (f : Store → A) → Leads Same (gets f)
  gets-Same f = Leads-gets Same-order f

  guard-Same : (b : Bool) (e : Error) → Leads Same (guard b e)
  guard-Same b e = Leads-guard Same-order b e

  tx-Same : {A : Type 0} (m : Exec Store A) → Leads Same m → Leads Same (tx m)
  tx-Same m k = Leads-tx Same-order m k

  bind-Same :
      {A B : Type 0} (m : Exec Store A) (f : A → Exec Store B)
      → Leads Same m
      → ((a : A) → Leads Same (f a))
      → Leads Same (m >>= f)
  bind-Same m f k l = Leads-bind Same-order m f k l

  ruleset lease_rules = (
    update-Same, fence-Same, get-Same, put-Same, insert-Same, pure-Same, gets-Same, guard-Same,
    tx-Same, bind-Same,
  )

  pub enqueue-Same :
      (r : String) (n : ℕ) (h b f why : String) (now : ℕ) → Leads Same (enqueue r n h b f why now)
  unfolding enqueue enqueue_tx
  enqueue-Same r n h b f why now = search lease_rules depth 9

  pub start-Same : (i token t now : ℕ) → Leads Same (start i token t now)
  unfolding start
  start-Same i token t now = search lease_rules depth 9

  pub set_check_run-Same : (i token c t : ℕ) → Leads Same (set_check_run i token c t)
  unfolding set_check_run
  set_check_run-Same i token c t = search lease_rules depth 9

  pub finish-Same :
      (i token : ℕ) (o : State) (c e : Option String) (t now : ℕ)
      → Leads Same (finish i token o c e t now)
  unfolding finish
  finish-Same i token o c e t now = search lease_rules depth 9

  requeue-Same : (now : ℕ) → Leads Same (requeue_in_progress now)
  unfolding requeue_in_progress
  requeue-Same now = search lease_rules depth 9

  requeue_unless :
      (live : Bool) (now : ℕ) → Leads Same (if live then pure [] else requeue_in_progress now)
  requeue_unless true now = pure-Same []
  requeue_unless false now = requeue-Same now

  pub requeue_expired-Same : (t now : ℕ) → Leads Same (requeue_expired t now)
  unfolding requeue_expired
  requeue_expired-Same t now = search (lease_rules, requeue_unless) depth 9

  pub adopt_orphans-Same : (token t now : ℕ) → Leads Same (adopt_orphans token t now)
  unfolding adopt_orphans
  adopt_orphans-Same token t now = search (lease_rules, requeue-Same) depth 9

  pub record_publication-Same :
      (i token : ℕ) (k : String) (g t now : ℕ) → Leads Same (record_publication i token k g t now)
  unfolding record_publication
  record_publication-Same i token k g t now = search lease_rules depth 9

  pub cancel_pr-Same : (r : String) (n now : ℕ) → Leads Same (cancel_pr r n now)
  unfolding cancel_pr
  cancel_pr-Same r n now = search lease_rules depth 9
