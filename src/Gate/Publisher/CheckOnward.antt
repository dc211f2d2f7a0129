-- ===== src/Gate/Publisher/CheckOnward.antt =====
-- What the actions of a generation's check run keep: every store that they reach is onward from the
-- one before.
use prxref.Base.{ℕ, String, Bool, Option, none, some, List, [], ◌∷◌}
use prxref.Base.Text.{Text, codes}
use prxref.Gate.Exec.{gets}
use prxref.Gate.Exec.Keeps.{Leads, Leads-gets}
use prxref.Gate.Store.Rows.{Generation, Store}
use prxref.Gate.Store.Leases.{renew_lease}
use prxref.Gate.Store.History.{Advances, Advances-order, get-Advances}
use prxref.Gate.Store.Transitions.{set_check_run-Advances}
use prxref.Gate.Store.Invariant.{call-Advances}
use prxref.Gate.Store.Calls.{call, renews}
use prxref.Gate.Binding.{Drift}
use prxref.Gate.Checks.{Patch, Conclusion}
use prxref.Gate.World.{Fault, Annotation, Outside}
use prxref.Gate.World.Carries.{
  Carries, Onward, Carries-give, Carries-throw, Carries-outcome, Carries-at_store, Carries-bind,
  Carries-attempt, Carries-if, Carries-request, Carries-read_live_pr,
}
use prxref.Gate.Publisher.{Lease, mark_renewed, renewal, drifted}
use prxref.Gate.Publisher.Check.{
  guard_binding, renew, fence_write, find_check, post_check, post_missing_check, recover_check,
  create_check, open_check, ensure_check, begin, send_patches, close_check_run, read_row,
  with_check, fail, close_cancelled, cancel,
}

pub renew_lease-Advances :
    (holder : String) (token ttl now : ℕ) → Leads Advances (renew_lease holder token ttl now)
unfolding call
renew_lease-Advances holder token ttl now = record {
  at = λ s. call-Advances (renews holder token ttl now) s;
}

pub gets-Advances : {A : Type 0} (f : Store → A) → Leads Advances (gets f)
gets-Advances f = Leads-gets Advances-order f

mark_renewed-Carries : Carries mark_renewed
unfolding mark_renewed
mark_renewed-Carries = record { at = λ w. Advances-order.stay w.store }

renewal-Carries : (live : Bool) → Carries (renewal live)
unfolding renewal
renewal-Carries live = Carries-if live _ _ mark_renewed-Carries (Carries-throw _)

drifted-Carries : (d : Option Drift) → Carries (drifted d)
unfolding drifted
drifted-Carries none = Carries-give tt
drifted-Carries (some r) = Carries-throw _

pub ruleset onward = (
  Carries-give, Carries-throw, Carries-outcome, Carries-at_store, Carries-bind, Carries-attempt,
  Carries-if, Carries-request, Carries-read_live_pr, gets-Advances,
)

module _ (env : Outside) where
  guard-Carries : (g : Generation) → Carries (guard_binding env g)
  unfolding guard_binding
  guard-Carries g = search (onward, drifted-Carries) depth 9

  pub renew-Carries : (lease : Lease) → Carries (renew env lease)
  unfolding renew
  renew-Carries lease = search (onward, renewal-Carries, renew_lease-Advances) depth 9

  pub fence-Carries : (lease : Lease) (g : Option Generation) → Carries (fence_write env lease g)
  unfolding fence_write
  fence-Carries lease none = renew-Carries lease
  fence-Carries lease (some g) = search (onward, renew-Carries, guard-Carries) depth 9

  find_check-Carries : (g : Generation) → Carries (find_check env g)
  unfolding find_check
  find_check-Carries g = search onward depth 9

  post_check-Carries : (g : Generation) → Carries (post_check env g)
  unfolding post_check
  post_check-Carries g = search onward depth 9

  post_missing-Carries :
      (lease : Lease) (guarded : Option Generation) (g : Generation) (i : Option ℕ)
      → Carries (post_missing_check env lease guarded g i)
  unfolding post_missing_check
  post_missing-Carries lease guarded g (some i) = Carries-give i
  post_missing-Carries lease guarded g none =
      search (onward, fence-Carries, post_check-Carries) depth 9

  recover_check-Carries :
      (lease : Lease) (guarded : Option Generation) (g : Generation) (f : Fault)
      → Carries (recover_check env lease guarded g f)
  unfolding recover_check
  recover_check-Carries lease guarded g f =
      search (onward, find_check-Carries, post_missing-Carries) depth 9

  create_check-Carries :
      (lease : Lease) (guarded : Option Generation) (g : Generation)
      → Carries (create_check env lease guarded g)
  unfolding create_check
  create_check-Carries lease guarded g =
      search (onward, post_check-Carries, recover_check-Carries, set_check_run-Advances) depth 9

  open_check-Carries :
      (lease : Lease) (guarded : Option Generation) (g : Generation) (i : Option ℕ)
      → Carries (open_check env lease guarded g i)
  unfolding open_check
  open_check-Carries lease guarded g none = create_check-Carries lease guarded g
  open_check-Carries lease guarded g (some i) = search onward depth 9

  ensure_check-Carries :
      (g : Generation) (lease : Lease) (guarded : Option Generation)
      → Carries (ensure_check env g lease guarded)
  unfolding ensure_check
  ensure_check-Carries g lease guarded = search (onward, fence-Carries, open_check-Carries) depth 9

  pub begin-Carries : (g : Generation) (lease : Lease) → Carries (begin env g lease)
  unfolding begin
  begin-Carries g lease = ensure_check-Carries g lease (some g)

  send_patches-Carries :
      (g : Generation) (lease : Lease) (guarded : Option Generation) (title summary : Text)
      (ps : List (Patch Annotation))
      → Carries (send_patches env g lease guarded title summary ps)
  unfolding send_patches
  send_patches-Carries g lease guarded title summary [] = Carries-give tt
  send_patches-Carries g lease guarded title summary (p ∷ ps) =
      Carries-bind _ _ (fence-Carries lease guarded) λ _.
        Carries-bind _ _ (Carries-request env _)
          λ _. send_patches-Carries g lease guarded title summary ps

  pub close_check_run-Carries :
      (g : Generation) (lease : Lease) (guarded : Option Generation) (c : Conclusion)
      (title summary : Text) (notes : List Annotation)
      → Carries (close_check_run env g lease guarded c title summary notes)
  unfolding close_check_run
  close_check_run-Carries g lease guarded c title summary notes =
      send_patches-Carries g lease guarded title summary _

  pub read_row-Carries : (i : ℕ) → Carries (read_row env i)
  unfolding read_row
  read_row-Carries i = search (onward, get-Advances) depth 9

  pub with_check-Carries :
      (g : Generation) (lease : Lease) (guarded : Option Generation) (i : Option ℕ)
      → Carries (with_check env g lease guarded i)
  unfolding with_check
  with_check-Carries g lease guarded (some i) = Carries-give g
  with_check-Carries g lease guarded none =
      search (onward, ensure_check-Carries, read_row-Carries) depth 9

  pub fail-Carries : (g : Generation) (lease : Lease) (why : Text) → Carries (fail env g lease why)
  unfolding fail
  fail-Carries g lease why =
      search (onward, read_row-Carries, with_check-Carries, close_check_run-Carries) depth 9

  close_cancelled-Carries :
      (g : Generation) (lease : Lease) (why : Text) (i : Option ℕ)
      → Carries (close_cancelled env g lease why i)
  unfolding close_cancelled
  close_cancelled-Carries g lease why none = Carries-give tt
  close_cancelled-Carries g lease why (some i) =
      close_check_run-Carries g lease none Conclusion.cancelled (codes "sdlc review: cancelled") why
        []

  pub cancel-Carries :
      (g : Generation) (lease : Lease) (why : Text) → Carries (cancel env g lease why)
  unfolding cancel
  cancel-Carries g lease why = search (onward, read_row-Carries, close_cancelled-Carries) depth 9
