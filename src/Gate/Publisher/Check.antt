-- ===== src/Gate/Publisher/Check.antt =====
-- The check run in the class `Publisher` of src/prxref/gate/checks.py: the fence with the guard of
-- src/prxref/gate/binding.py, `begin`, `fail` and `cancel`.
use prxref.Base.{ℕ, Option, none, some, List, [], ◌∷◌, ◌++◌, if◌then◌else◌}
use prxref.Base.Text.{Text, codes}
use prxref.Gate.Exec.{gets}
use prxref.Gate.Store.Rows.{Generation}
use prxref.Gate.Store.Fence.{get}
use prxref.Gate.Store.Leases.{renew_lease}
use prxref.Gate.Store.Generations.{set_check_run}
use prxref.Gate.Binding.{check_binding}
use prxref.Gate.Checks.{Conclusion, Patch, patches, batches}
use prxref.Gate.World.{
  Fault, Annotation, post_check_run, get_check_runs, reopen_check_run, patch_check_run, Outside,
  Act, give, throw, outcome, ◌>>=◌, ◌>>◌, attempt, at_store, request, read_live_pr,
}
use prxref.Gate.Publisher.{
  Lease, renewal, drifted, created, listed_runs, external_text, own_run, is_uncertain,
}

module _ (env : Outside) where
  -- `make_guard`
  unfoldable pub guard_binding : Generation → Act (Unit {0})
  unfolding drifted
  guard_binding g = do
    live ← read_live_pr env g.repo g.pr_number
    reason ← at_store env (λ _ _. gets (check_binding g live))
    drifted reason

  unfoldable pub renew : Lease → Act (Unit {0})
  unfolding renewal
  renew lease = do
    live ← at_store env (λ t _. renew_lease lease.holder lease.token lease.ttl t)
    renewal live

  -- `_fence`, with the generation to guard if it is given
  unfoldable pub fence_write : Lease → Option Generation → Act (Unit {0})
  unfolding renew
  fence_write lease none = renew lease
  fence_write lease (some g) = do renew lease; guard_binding g

  -- `_find_check`
  unfoldable pub find_check : Generation → Act (Option ℕ)
  unfolding listed_runs own_run
  find_check g = do
    b ← request env (get_check_runs g.repo g.head_sha)
    runs ← outcome (listed_runs b)
    give (own_run (external_text g) runs)

  unfoldable pub post_check : Generation → Act ℕ
  unfolding created
  post_check g = do
    b ← request env (post_check_run g.repo g.head_sha (external_text g))
    outcome (created b)

  unfoldable pub post_missing_check : Lease → Option Generation → Generation → Option ℕ → Act ℕ
  post_missing_check lease guarded g (some i) = give i
  post_missing_check lease guarded g none = do fence_write lease guarded; post_check g

  -- The handler of `_ensure_check`.
  unfoldable pub recover_check : Lease → Option Generation → Generation → Fault → Act ℕ
  unfolding post_missing_check is_uncertain
  recover_check lease guarded g f =
      if is_uncertain f
      then (do found ← find_check g; post_missing_check lease guarded g found)
      else throw f

  unfoldable pub create_check : Lease → Option Generation → Generation → Act ℕ
  unfolding recover_check
  create_check lease guarded g = do
    i ← attempt (post_check g) give (recover_check lease guarded g)
    at_store env (λ t _. set_check_run g.id lease.token i t)
    give i

  unfoldable pub open_check : Lease → Option Generation → Generation → Option ℕ → Act ℕ
  unfolding create_check
  open_check lease guarded g none = create_check lease guarded g
  open_check lease guarded g (some i) = do _ ← request env (reopen_check_run g.repo i); give i

  -- `_ensure_check`
  unfoldable pub ensure_check : Generation → Lease → Option Generation → Act ℕ
  unfolding open_check
  ensure_check g lease guarded = do
    fence_write lease guarded
    open_check lease guarded g g.check_run_id

  unfoldable pub begin : Generation → Lease → Act ℕ
  unfolding ensure_check
  begin g lease = ensure_check g lease (some g)

  -- The loop of `_close_check`.
  unfoldable pub send_patches :
      Generation
      → Lease
      → Option Generation
      → Text
      → Text
      → List (Patch Annotation)
      → Act (Unit {0})
  send_patches g lease guarded title summary [] = give tt
  send_patches g lease guarded title summary (p ∷ ps) = do
    fence_write lease guarded
    _ ← request env (patch_check_run g.repo g.check_run_id title summary p)
    send_patches g lease guarded title summary ps

  -- `_close_check`
  unfoldable pub close_check_run :
      Generation
      → Lease
      → Option Generation
      → Conclusion
      → Text
      → Text
      → List Annotation
      → Act (Unit {0})
  unfolding send_patches patches batches
  close_check_run g lease guarded conclusion title summary annotations =
      send_patches g lease guarded title summary (patches conclusion (batches annotations))

  unfoldable pub read_row : ℕ → Act Generation
  read_row i = at_store env (λ _ _. get i)

  -- `if gen.check_run_id is None: self._ensure_check(…); gen = self.store.get(gen.id)`
  unfoldable pub with_check : Generation → Lease → Option Generation → Option ℕ → Act Generation
  unfolding ensure_check read_row
  with_check g lease guarded (some i) = give g
  with_check g lease guarded none = do _ ← ensure_check g lease guarded; read_row g.id

  unfoldable pub fail : Generation → Lease → Text → Act (Unit {0})
  unfolding with_check close_check_run
  fail g lease reason = do
    row ← read_row g.id
    checked ← with_check row lease none row.check_run_id
    close_check_run checked lease none Conclusion.failure (codes "sdlc review: failure")
        (codes "**failure**: " ++ reason) []

  unfoldable pub close_cancelled : Generation → Lease → Text → Option ℕ → Act (Unit {0})
  unfolding close_check_run
  close_cancelled g lease reason none = give tt
  close_cancelled g lease reason (some i) =
      close_check_run g lease none Conclusion.cancelled (codes "sdlc review: cancelled") reason []

  unfoldable pub cancel : Generation → Lease → Text → Act (Unit {0})
  unfolding read_row close_cancelled
  cancel g lease reason = do row ← read_row g.id; close_cancelled row lease reason row.check_run_id
