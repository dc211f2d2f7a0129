-- ===== src/Gate/Binding.antt =====
-- src/prxref/gate/binding.py: whether a generation may still publish.
pub mod Tests
use prxref.Base.{
  ℕ, ◌≤◌, ◌<◌, subst, String, Bool, true, false, not, ◌≡◌, ◌≢◌, refl, ◌↔◌, Option, none, some, ltb,
  ltb→lt, lt→ltb, str_eq, str_eq_iff, arith, Bool-cases, Option-cases, inl, inr, if◌then◌else◌,
}
use prxref.Gate.Store.Rows.{Generation, Store, find_id}
use prxref.Gate.Store.Generations.{enqueue}
use prxref.Gate.Store.History.{IsValid}
use prxref.Gate.Store.Queue.{gen-le-max}
use prxref.Gate.Store.Enqueue.{new_row}
use prxref.Gate.Store.Newest.{enqueue_latest}
use prxref.Gate.Store.Queries.{latest_generation}

-- The fields of a live pull request that the binding compares.
pub record LivePr : Type 0 where
  pub head_sha : String
  pub base_sha : String
  pub base_ref : String
  pub state : String
  pub merged : Bool

-- Why a generation may not publish.
pub data Drift : Type 0 where
  closed head_moved retargeted base_moved overtaken : Drift

-- `latest is not None and latest.gen > gen.gen`
unfoldable pub is_later : Generation → Option Generation → Bool
is_later g none = false
is_later g (some l) = ltb g.gen l.gen

unfoldable pub check_binding : Generation → LivePr → Store → Option Drift
unfolding latest_generation is_later
check_binding g live s =
    if not (str_eq live.state "open")
    then some closed
    else if not (str_eq live.head_sha g.head_sha)
    then some head_moved
    else if not (str_eq live.base_ref g.base_ref)
    then some retargeted
    else if not (str_eq live.base_sha g.base_sha)
    then some base_moved
    else if is_later g (latest_generation g.repo g.pr_number s)
    then some overtaken
    else none

-- The five tests, and that `check_binding` is none just when all hold.
check_binding_tests :
    (g : Generation) (live : LivePr) (s : Store)
    → (check_binding g live s ≡ none) ↔ (
        (str_eq live.state "open" ≡ true)
        × (str_eq live.head_sha g.head_sha ≡ true)
        × (str_eq live.base_ref g.base_ref ≡ true)
        × (str_eq live.base_sha g.base_sha ≡ true)
        × (is_later g (latest_generation g.repo g.pr_number s) ≡ false))
unfolding check_binding
check_binding_tests g live s = (λ e. ground arith, λ e. ground arith)

not_later : (g l : Generation) → g.gen < l.gen → is_later g (some l) ≡ false → ⊥
unfolding is_later
not_later g l h e = ground arith

-- In a valid database: once a newer push is enqueued for its pull request, a generation that was in
-- the table may not publish any more, whatever the live pull request is.
pub check_binding-enqueue :
    (g : Generation) (live : LivePr) (s : Store) (i : ℕ) (head base ref why : String) (now : ℕ)
    → IsValid s
    → find_id i s.generations ≡ some g
    → check_binding g live (enqueue g.repo g.pr_number head base ref why now s).1 ≢ none
unfolding is_later
check_binding-enqueue g live s i head base ref why now v found e =
    let t =
      (check_binding_tests g live (enqueue g.repo g.pr_number head base ref why now s).1).0 e in
    let later =
      subst (λ o. is_later g o ≡ false)
        (enqueue_latest g.repo g.pr_number head base ref why now s v) t.4 in
    not_later g (new_row g.repo g.pr_number head base ref why now s)
      (omega (arith, gen-le-max i s.generations g found)) later
