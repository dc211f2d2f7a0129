-- ===== src/Gate/Publisher/Looked.antt =====
-- When `_ensure_check` of src/prxref/gate/checks.py creates a check: a second time only after a look
-- that did not find it.
use prxref.Base.{
  ℕ, String, ◌≡◌, refl, ◌∙◌, arith, Bool, true, false, not, Option, none, some, List, ◌∷◌,
  if◌then◌else◌, is_some, str_eq_refl,
}
use prxref.Gate.Store.Rows.{Generation}
use prxref.Gate.Binding.{Drift}
use prxref.Gate.World.{
  Fault, ReplyBody, CheckRun, Outcome, returned, raised, ApiRequest, get_pull, get_check_runs,
  reopen_check_run, Step, sent, World, Outside, give, throw, outcome, ◌>>=◌, request, received,
  is_unauthorized, read_live_pr,
}
use prxref.Gate.Publisher.{
  Lease, mark_renewed, renewal, drifted, listed_runs, own_run, external_text, is_uncertain,
}
use prxref.Gate.Publisher.Check.{
  guard_binding, renew, fence_write, find_check, post_check, post_missing_check, recover_check,
  create_check, open_check, ensure_check,
}
use prxref.Gate.Publisher.Looks.{
  is_create, is_lookup, listed_none, body_lists_none, lists_none, is_fresh, EachLooked, Looks,
  Looks-give, Looks-throw, Looks-at_store, Looks-outcome, Looks-bind, Looks-attempt, Looks-request,
}

module _ (env : Outside) (g : Generation) where
  same_fresh :
      (r : ApiRequest) (h : List Step)
      → is_create g r ≡ false
      → is_lookup g r ≡ false
      → is_fresh env g (sent r ∷ h) ≡ is_fresh env g h
  unfolding is_fresh
  same_fresh r h c l = rw (c, l) refl

  -- A request that neither creates nor lists the check.
  Looks-other :
      (p : Bool) (r : ApiRequest)
      → is_create g r ≡ false
      → is_lookup g r ≡ false
      → Looks env g p (λ _. p) (request env r)
  Looks-other p r c l =
      Looks-request env g p (λ _. p) r (λ h f x. absurd (cc)) (λ h u f x. same_fresh r h c l ∙ f x)
        (λ h b e f x. same_fresh r h c l ∙ f x)

  refused_fresh :
      (r : ApiRequest) (h : List Step)
      → is_unauthorized (env.reply (sent r ∷ h)) ≡ true
      → is_fresh env g h ≡ true
      → is_fresh env g (sent r ∷ h) ≡ true
  unfolding is_fresh
  refused_fresh r h u f = ground arith

  post_check-Looks : Looks env g true (λ _. false) (post_check env g)
  unfolding post_check
  post_check-Looks =
      Looks-bind env g true (λ _. false) (λ _. false) _ _
        (Looks-request env g true (λ _. false) _ (λ h f x. f refl)
          (λ h u f x. refused_fresh _ h u (f refl)) (λ h b e f x. absurd (cc)))
        (λ b. Looks-outcome env g false _)

  own_lookup : is_lookup g (get_check_runs g.repo g.head_sha) ≡ true
  unfolding is_lookup
  own_lookup = ground (arith, str_eq_refl g.repo, str_eq_refl g.head_sha)

  listed_fresh :
      (h : List Step) (b : ReplyBody)
      → received (env.reply (sent (get_check_runs g.repo g.head_sha) ∷ h)) ≡ returned b
      → body_lists_none g (returned b) ≡ true
      → is_fresh env g (sent (get_check_runs g.repo g.head_sha) ∷ h) ≡ true
  unfolding is_fresh is_create lists_none
  listed_fresh h b e n = rw (own_lookup, e, n) refl

  listed-Looks :
      (o : Outcome (List CheckRun))
      → Looks env g (listed_none g o) (λ l. listed_none g (returned l)) (outcome o)
  unfolding outcome
  listed-Looks (returned l) = record { at = λ w e h. (e, h) }
  listed-Looks (raised f) = record { at = λ w e h. (e, tt) }

  find_check-Looks : Looks env g false (λ i. not (is_some i)) (find_check env g)
  unfolding find_check is_create listed_none body_lists_none
  find_check-Looks =
      Looks-bind env g false (λ b. body_lists_none g (returned b)) (λ i. not (is_some i)) _ _
        (Looks-request env g false (λ b. body_lists_none g (returned b)) _ (λ h f x. absurd (cc))
          (λ h u f x. absurd (cc)) (λ h b e f x. listed_fresh h b e x))
        λ b.
          Looks-bind env g (listed_none g (listed_runs b)) (λ l. listed_none g (returned l))
            (λ i. not (is_some i)) _ _ (listed-Looks (listed_runs b))
            (λ l. Looks-give env g (λ i. not (is_some i)) (own_run (external_text g) l))

  read_live_pr-Looks :
      (p : Bool) (repo : String) (n : ℕ) → Looks env g p (λ _. p) (read_live_pr env repo n)
  unfolding read_live_pr is_create is_lookup
  read_live_pr-Looks p repo n =
      Looks-bind env g p (λ _. p) (λ _. p) _ _ (Looks-other p (get_pull repo n) refl refl)
        (λ b. Looks-outcome env g p _)

  drifted-Looks : (p : Bool) (d : Option Drift) → Looks env g p (λ _. p) (drifted d)
  unfolding drifted
  drifted-Looks p none = Looks-give env g (λ _. p) tt
  drifted-Looks p (some r) = Looks-throw env g p (λ _. p) _

  guard-Looks : (p : Bool) (x : Generation) → Looks env g p (λ _. p) (guard_binding env x)
  unfolding guard_binding
  guard-Looks p x =
      Looks-bind env g p (λ _. p) (λ _. p) _ _ (read_live_pr-Looks p x.repo x.pr_number)
        λ live.
          Looks-bind env g p (λ _. p) (λ _. p) _ _ (Looks-at_store env g p _)
            (λ d. drifted-Looks p d)

  renewal-Looks : (p live : Bool) → Looks env g p (λ _. p) (renewal live)
  unfolding renewal mark_renewed is_fresh
  renewal-Looks p true = record { at = λ w e h. (e, h) }
  renewal-Looks p false = Looks-throw env g p (λ _. p) _

  fence-Looks :
      (p : Bool) (lease : Lease) (x : Option Generation)
      → Looks env g p (λ _. p) (fence_write env lease x)
  unfolding fence_write renew
  fence-Looks p lease none =
      Looks-bind env g p (λ _. p) (λ _. p) _ _ (Looks-at_store env g p _) (renewal-Looks p)
  fence-Looks p lease (some x) =
      Looks-bind env g p (λ _. p) (λ _. p) _ _
        (Looks-bind env g p (λ _. p) (λ _. p) _ _ (Looks-at_store env g p _) (renewal-Looks p))
        (λ _. guard-Looks p x)

  post_missing-Looks :
      (lease : Lease) (x : Option Generation) (i : Option ℕ)
      → Looks env g (not (is_some i)) (λ _. false) (post_missing_check env lease x g i)
  unfolding post_missing_check
  post_missing-Looks lease x (some i) = Looks-give env g (λ _. false) i
  post_missing-Looks lease x none =
      Looks-bind env g true (λ _. true) (λ _. false) _ _ (fence-Looks true lease x)
        (λ _. post_check-Looks)

  recover_check-Looks :
      (lease : Lease) (x : Option Generation) (f : Fault)
      → Looks env g false (λ _. false) (recover_check env lease x g f)
  unfolding recover_check
  recover_check-Looks lease x f =
      elim (is_uncertain f)
        as (λ b.
          Looks env g false (λ _. false)
            (if b
              then (find_check env g >>= λ found. post_missing_check env lease x g found)
              else throw f)) [
                | true ↦
                    Looks-bind env g false (λ i. not (is_some i)) (λ _. false) _ _ find_check-Looks
                      (post_missing-Looks lease x)
                | false ↦ Looks-throw env g false (λ _. false) f
              ]

  create_check-Looks :
      (lease : Lease) (x : Option Generation)
      → Looks env g true (λ _. false) (create_check env lease x g)
  unfolding create_check
  create_check-Looks lease x =
      Looks-bind env g true (λ _. false) (λ _. false) _ _
        (Looks-attempt env g true (λ _. false) (λ _. false) _ _ _ post_check-Looks
          (Looks-give env g (λ _. false)) (recover_check-Looks lease x))
        λ i.
          Looks-bind env g false (λ _. false) (λ _. false) _ _ (Looks-at_store env g false _)
            (λ _. Looks-give env g (λ _. false) i)

  open_check-Looks :
      (lease : Lease) (x : Option Generation) (i : Option ℕ)
      → Looks env g true (λ _. false) (open_check env lease x g i)
  unfolding open_check is_create is_lookup give
  open_check-Looks lease x none = create_check-Looks lease x
  open_check-Looks lease x (some i) =
      Looks-bind env g true (λ _. true) (λ _. false) _ _
        (Looks-other true (reopen_check_run g.repo i) refl refl)
        (λ b. record { at = λ w e h. (e, λ y. absurd (cc)) })

  -- From a history in which no request may have created the generation's check since the last look:
  -- whatever GitHub answers, each POST of the check by `_ensure_check` still finds that none may,
  -- so the second comes only after a reply that lists the head's checks without it.
  pub ensure_check-EachLooked :
      (lease : Lease) (guarded : Option Generation) (w : World)
      → EachLooked env g w.steps
      → is_fresh env g w.steps ≡ true
      → EachLooked env g (ensure_check env g lease guarded w).1.steps
  unfolding ensure_check
  ensure_check-EachLooked lease guarded w e f =
      ((Looks-bind env g true (λ _. true) (λ _. false) _ _ (fence-Looks true lease guarded)
          (λ _. open_check-Looks lease guarded g.check_run_id)).at
        w e (λ _. f)).0
