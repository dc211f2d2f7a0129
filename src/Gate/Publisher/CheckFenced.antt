-- ===== src/Gate/Publisher/CheckFenced.antt =====
-- The actions of a generation's check run renew the lease between two writes to GitHub.
use prxref.Base.{ℕ, String, refl, Bool, true, false, Option, none, some, List, [], ◌∷◌}
use prxref.Base.Text.{Text, codes}
use prxref.Gate.Store.Rows.{Generation}
use prxref.Gate.Binding.{Drift}
use prxref.Gate.Checks.{Patch, Conclusion}
use prxref.Gate.World.{Act, Fault, Annotation, Outside, read_live_pr}
use prxref.Gate.World.Fenced.{
  is_write, is_armed, EachFenced, Runs, Runs-give, Runs-throw, Runs-outcome, Runs-at_store, Runs-if,
  Runs-anywhere, Runs-bind, Runs-request, Runs-read, Runs-same, Runs-write_then, Runs-read_then,
  Runs-fence_then, Runs-try, Runs-try_write, Runs-later,
}
use prxref.Gate.Publisher.{Lease, mark_renewed, renewal, drifted}
use prxref.Gate.Publisher.Check.{
  guard_binding, renew, fence_write, find_check, post_check, post_missing_check, recover_check,
  create_check, open_check, ensure_check, begin, send_patches, close_check_run, read_row,
  with_check, fail, close_cancelled, cancel,
}

module _ (env : Outside) where
  -- `m` keeps each write fenced, by itself.
  abbrev pub Steady : {A : Type 0} → Act A → Type 0
  Steady m = Runs env false false m

  -- `m` keeps each write fenced where the lease was just renewed.
  abbrev pub Writes : {A : Type 0} → Act A → Type 0
  Writes m = Runs env true false m

  pub read_live_pr-Runs :
      (p : Bool) (repo : String) (n : ℕ) → Runs env p p (read_live_pr env repo n)
  unfolding read_live_pr is_write
  read_live_pr-Runs p repo n =
      Runs-bind env p p p _ _ (Runs-read env p _ refl) (λ b. Runs-outcome env p _)

  drifted-Runs : (p : Bool) (d : Option Drift) → Runs env p p (drifted d)
  unfolding drifted
  drifted-Runs p none = Runs-give env p tt
  drifted-Runs p (some r) = Runs-throw env p p _

  pub ruleset running = (
    Runs-give, Runs-throw, Runs-outcome, Runs-at_store, Runs-same, Runs-write_then, Runs-read_then,
    Runs-fence_then, Runs-try, Runs-try_write, Runs-later, Runs-if, Runs-request, read_live_pr-Runs,
  )

  guard-Runs : (p : Bool) (g : Generation) → Runs env p p (guard_binding env g)
  unfolding guard_binding
  guard-Runs p g = search (running, drifted-Runs) depth 9

  mark_renewed-Runs : Runs env false true mark_renewed
  unfolding mark_renewed is_armed
  mark_renewed-Runs = record { at = λ w e h. (e, λ x. refl) }

  pub renew-Runs : (lease : Lease) → Runs env false true (renew env lease)
  unfolding renew renewal
  renew-Runs lease =
      Runs-bind env false false true _ _ (Runs-at_store env false _)
        λ live. Runs-if env false true live _ _ mark_renewed-Runs (Runs-throw env false true _)

  pub fence-Runs :
      (lease : Lease) (g : Option Generation) → Runs env false true (fence_write env lease g)
  unfolding fence_write
  fence-Runs lease none = renew-Runs lease
  fence-Runs lease (some g) =
      Runs-bind env false true true _ _ (renew-Runs lease) (λ _. guard-Runs true g)

  find_check-Runs : (p : Bool) (g : Generation) → Runs env p p (find_check env g)
  unfolding find_check is_write
  find_check-Runs p g =
      Runs-bind env p p p _ _ (Runs-read env p _ refl)
        λ b. Runs-bind env p p p _ _ (Runs-outcome env p _) (λ l. Runs-give env p _)

  post_check-Writes : (g : Generation) → Writes (post_check env g)
  unfolding post_check
  post_check-Writes g = search running depth 9

  post_missing-Steady :
      (lease : Lease) (guarded : Option Generation) (g : Generation) (i : Option ℕ)
      → Steady (post_missing_check env lease guarded g i)
  unfolding post_missing_check
  post_missing-Steady lease guarded g (some i) = Runs-give env false i
  post_missing-Steady lease guarded g none = search (running, fence-Runs, post_check-Writes) depth 9

  recover_check-Steady :
      (lease : Lease) (guarded : Option Generation) (g : Generation) (f : Fault)
      → Steady (recover_check env lease guarded g f)
  unfolding recover_check
  recover_check-Steady lease guarded g f =
      search (running, find_check-Runs, post_missing-Steady) depth 9

  create_check-Writes :
      (lease : Lease) (guarded : Option Generation) (g : Generation)
      → Writes (create_check env lease guarded g)
  unfolding create_check
  create_check-Writes lease guarded g =
      search (running, post_check-Writes, recover_check-Steady) depth 9

  open_check-Writes :
      (lease : Lease) (guarded : Option Generation) (g : Generation) (i : Option ℕ)
      → Writes (open_check env lease guarded g i)
  unfolding open_check
  open_check-Writes lease guarded g none = create_check-Writes lease guarded g
  open_check-Writes lease guarded g (some i) = search running depth 9

  ensure_check-Steady :
      (g : Generation) (lease : Lease) (guarded : Option Generation)
      → Steady (ensure_check env g lease guarded)
  unfolding ensure_check
  ensure_check-Steady g lease guarded = search (running, fence-Runs, open_check-Writes) depth 9

  pub begin-Steady : (g : Generation) (lease : Lease) → Steady (begin env g lease)
  unfolding begin
  begin-Steady g lease = ensure_check-Steady g lease (some g)

  send_patches-Steady :
      (g : Generation) (lease : Lease) (guarded : Option Generation) (title summary : Text)
      (ps : List (Patch Annotation))
      → Steady (send_patches env g lease guarded title summary ps)
  unfolding send_patches
  send_patches-Steady g lease guarded title summary [] = Runs-give env false tt
  send_patches-Steady g lease guarded title summary (p ∷ ps) =
      Runs-fence_then env _ _ (fence-Runs lease guarded) λ _.
        Runs-write_then env _ _ (Runs-request env _)
          λ _. send_patches-Steady g lease guarded title summary ps

  pub close_check_run-Steady :
      (g : Generation) (lease : Lease) (guarded : Option Generation) (c : Conclusion)
      (title summary : Text) (notes : List Annotation)
      → Steady (close_check_run env g lease guarded c title summary notes)
  unfolding close_check_run
  close_check_run-Steady g lease guarded c title summary notes =
      send_patches-Steady g lease guarded title summary _

  pub read_row-Steady : (i : ℕ) → Steady (read_row env i)
  unfolding read_row
  read_row-Steady i = Runs-at_store env false _

  pub with_check-Steady :
      (g : Generation) (lease : Lease) (guarded : Option Generation) (i : Option ℕ)
      → Steady (with_check env g lease guarded i)
  unfolding with_check
  with_check-Steady g lease guarded (some i) = Runs-give env false g
  with_check-Steady g lease guarded none = search (running, ensure_check-Steady) depth 9

  pub fail-Steady : (g : Generation) (lease : Lease) (why : Text) → Steady (fail env g lease why)
  unfolding fail
  fail-Steady g lease why = search (running, with_check-Steady, close_check_run-Steady) depth 9

  close_cancelled-Steady :
      (g : Generation) (lease : Lease) (why : Text) (i : Option ℕ)
      → Steady (close_cancelled env g lease why i)
  unfolding close_cancelled
  close_cancelled-Steady g lease why none = Runs-give env false tt
  close_cancelled-Steady g lease why (some i) =
      close_check_run-Steady g lease none Conclusion.cancelled (codes "sdlc review: cancelled") why
        []

  pub cancel-Steady :
      (g : Generation) (lease : Lease) (why : Text) → Steady (cancel env g lease why)
  unfolding cancel
  cancel-Steady g lease why = search (running, close_cancelled-Steady) depth 9
