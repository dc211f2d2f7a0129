-- ===== src/Gate/Store/Transitions.antt =====
-- Every transition of a generation keeps the invariant of the database and moves its rows.
use prxref.Base.{
  ℕ, ◌+◌, ◌≤◌, String, ◌≡◌, refl, true, false, ◌&&◌, not, Option, some, arith, ◌==◌, is_some,
}
use prxref.Gate.Exec.Keeps.{Leads, Leads-pure, Leads-tx, Leads-bind, Leads-guard, Leads-guard-bind}
use prxref.Gate.Store.Rows.{
  State, cancelled, in_progress, Generation, is_final, is_live, is_queued, same_pr,
}
use prxref.Gate.Store.Table.{Moves, IsUpdate}
use prxref.Gate.Store.Generations.{cancel_pr, start, set_check_run, finish}
use prxref.Gate.Store.History.{
  Advances, Advances-order, update-Advances, fence-Advances, get-Advances,
}

-- A change of a row that is queued or in progress: of its state and what is recorded with it.
pub queued_row_live : (g : Generation) → is_queued g.state ≡ true → is_live g.state ≡ true
unfolding is_queued is_live
queued_row_live g h = ground arith

-- What a transition may write on a row that is queued or in progress.
pub Moves-live :
    (g : Generation) (outcome : State) (started finished check : Option ℕ)
    (conclusion error : Option String) (attempts : ℕ)
    → is_live g.state ≡ true
    → g.attempts ≤ attempts
    → Moves g (record g {
      state = outcome;
      started_at = started;
      finished_at = finished;
      check_run_id = check;
      conclusion = conclusion;
      error = error;
      attempts = attempts;
    })
Moves-live g outcome started finished check conclusion error attempts live more = record {
  id = refl;
  repo = refl;
  pr_number = refl;
  head_sha = refl;
  base_sha = refl;
  base_ref = refl;
  gen = refl;
  reason = refl;
  created_at = refl;
  attempts = more;
  frozen = λ dead. cc;
}

cancel-IsUpdate :
    (repo : String) (pr now : ℕ)
    → IsUpdate
        (λ g. same_pr repo pr g && is_queued g.state && not (is_some g.check_run_id))
        (λ g. record g { state = cancelled; finished_at = some now })
unfolding is_queued
cancel-IsUpdate repo pr now = record {
  moves = λ g h.
      Moves-live g cancelled g.started_at (some now) g.check_run_id g.conclusion g.error g.attempts
        (queued_row_live g (ground arith)) (omega arith);
  queues = λ g h k. cc;
}

pub cancel_pr-Advances : (repo : String) (pr now : ℕ) → Leads Advances (cancel_pr repo pr now)
unfolding cancel_pr
cancel_pr-Advances repo pr now =
    Leads-tx Advances-order _ (update-Advances _ _ (cancel-IsUpdate repo pr now))

start-IsUpdate :
    (gen_id now : ℕ)
    → IsUpdate
        (λ g. g.id == gen_id && is_queued g.state)
        (λ g. record g { state = in_progress; started_at = some now; attempts = g.attempts + 1 })
unfolding is_queued
start-IsUpdate gen_id now = record {
  moves = λ g h.
      Moves-live g in_progress (some now) g.finished_at g.check_run_id g.conclusion g.error
        (g.attempts + 1) (queued_row_live g (ground arith)) (omega arith);
  queues = λ g h k. cc;
}

pub start-Advances :
    (gen_id token fence_now now : ℕ) → Leads Advances (start gen_id token fence_now now)
unfolding start
start-Advances gen_id token fence_now now =
    Leads-bind Advances-order _ _
      (Leads-tx Advances-order _ (
        Leads-bind Advances-order _ _ (fence-Advances token fence_now) λ _.
          Leads-bind Advances-order _ _ (update-Advances _ _ (start-IsUpdate gen_id now))
            (λ n. Leads-guard Advances-order _ _)))
      (λ _. get-Advances gen_id)

check-IsUpdate :
    (gen_id check_run_id : ℕ)
    → IsUpdate (λ g. g.id == gen_id) (λ g. record g { check_run_id = some check_run_id })
check-IsUpdate gen_id check_run_id = record {
  moves = λ g h. record {
    id = refl;
    repo = refl;
    pr_number = refl;
    head_sha = refl;
    base_sha = refl;
    base_ref = refl;
    gen = refl;
    reason = refl;
    created_at = refl;
    attempts = omega arith;
    frozen = λ dead. refl;
  };
  queues = λ g h k. k;
}

pub set_check_run-Advances :
    (gen_id token check_run_id fence_now : ℕ)
    → Leads Advances (set_check_run gen_id token check_run_id fence_now)
unfolding set_check_run
set_check_run-Advances gen_id token check_run_id fence_now = Leads-tx Advances-order _ (
    Leads-bind Advances-order _ _ (fence-Advances token fence_now) λ _.
      Leads-bind Advances-order _ _ (update-Advances _ _ (check-IsUpdate gen_id check_run_id))
        (λ n. Leads-pure Advances-order _))

final_not_queued : (outcome : State) → is_final outcome ≡ true → is_queued outcome ≡ false
unfolding is_final is_queued
final_not_queued outcome h = ground arith

finish-IsUpdate :
    (gen_id : ℕ) (outcome : State) (conclusion error : Option String) (now : ℕ)
    → is_final outcome ≡ true
    → IsUpdate
        (λ g. g.id == gen_id && is_live g.state)
        (λ g. record g {
          state = outcome;
          conclusion = conclusion;
          error = error;
          finished_at = some now;
        })
finish-IsUpdate gen_id outcome conclusion error now final = record {
  moves = λ g h.
      Moves-live g outcome g.started_at (some now) g.check_run_id conclusion error g.attempts
        (ground arith) (omega arith);
  queues = λ g h k. cc (final_not_queued outcome final);
}

pub finish-Advances :
    (gen_id token : ℕ) (outcome : State) (conclusion error : Option String) (fence_now now : ℕ)
    → Leads Advances (finish gen_id token outcome conclusion error fence_now now)
unfolding finish
finish-Advances gen_id token outcome conclusion error fence_now now =
    Leads-guard-bind Advances-order (is_final outcome) _ _ λ final. Leads-tx Advances-order _ (
      Leads-bind Advances-order _ _ (fence-Advances token fence_now) λ _.
        Leads-bind Advances-order _ _
          (update-Advances _ _ (finish-IsUpdate gen_id outcome conclusion error now final))
          (λ n. Leads-guard Advances-order _ _))
