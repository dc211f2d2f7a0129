-- ===== src/Gate/Worker/Tests.antt =====
-- Runs of src/prxref/gate/worker.py and of `Publisher` against a GitHub that answers.
use prxref.Gate.World
use prxref.Gate.Exec
use prxref.Gate.Store.Fence
use prxref.Gate.Store.Calls
use prxref.Gate.Exec.{gets, tx, settle}
use prxref.Gate.Store.Rows.{update_where, find_id, is_queued, is_live, is_final, same_pr}
use prxref.Gate.Store.Fence.{update, get, is_fenced}
use prxref.Gate.Store.Generations.{start, finish, set_check_run}
use prxref.Gate.Store.Queries.{latest_generation}
use prxref.Gate.Store.Leases.{renew_lease, can_renew}
use prxref.Gate.Store.Publications.{record_publication, publication, upsert, put_publication}
use prxref.Gate.Binding.{check_binding}
use prxref.Gate.Checks.{take, patches, batches, slices}
use prxref.Base.{count_where, best, keep, str_eq, find_first}
use prxref.Base.Text.{contains, starts_with, drop_prefix, digits, text_eq}
use prxref.Gate.World.{
  at_store, attempt, give, throw, outcome, read_live_pr, request, received, is_unauthorized,
}
use prxref.Gate.Publisher.{
  renewal, mark_renewed, external_text, review_body, review_marker, annotations_for,
  with_summary_marker,
}
use prxref.Gate.Publisher.Check.{
  begin, fence_write, guard_binding, post_check, send_patches, read_row, with_check,
  close_check_run,
}
use prxref.Gate.Publisher.Complete.{complete, post_review_of, upsert_summary}
use prxref.Base.{◌≡◌, refl, true, false, none, some, List, [], ◌∷◌}
use prxref.Base.Text.{codes, show_number}
use prxref.Gate.Exec.{Error, lease_lost}
use prxref.Gate.Store.Rows.{queued, completed}
use prxref.Gate.Store.Lifecycle.Closed.{Closed}
use prxref.Gate.Store.Tests.{row, overtaken, overtaken-IsValid}
use prxref.Gate.Binding.{LivePr}
use prxref.Gate.Checks.{approved}
use prxref.Gate.World.{
  Http, response, no_response, pull, object, check_runs, feed, other, get_pull, get_check_runs,
  post_check_run, get_reviews, get_comments, Step, sent, renewed, World, Outside, Report, ReviewEnd,
  finished, store_error, returned, raised, interrupted, interruption,
}
use prxref.Gate.World.Fenced.{EachFenced}
use prxref.Gate.Publisher.{Lease}
use prxref.Gate.Publisher.Check.{ensure_check, fail}
use prxref.Gate.Publisher.Looks.{EachLooked, is_fresh, is_create, is_lookup, lists_none}
use prxref.Gate.Publisher.Looked.{ensure_check-EachLooked}
use prxref.Gate.Publisher.Repeated.{fail-repeats}
use prxref.Gate.Worker.{run_generation, run_worker}
use prxref.Gate.Worker.Ends.{run_generation-Closed}
use prxref.Gate.Worker.Faults.{Expected, run_generation-raises}
use prxref.Gate.Worker.Fenced.{run-EachFenced}

abbrev live : LivePr
live = record {
  head_sha = "aaa";
  base_sha = "bbb";
  base_ref = "main";
  state = "open";
  merged = false;
}

-- A GitHub that has what it is asked for, and no check, review or comment.
abbrev answers : List Step → Http
answers (sent (get_pull repo n) ∷ h) = response 200 (pull live)
answers (sent (get_check_runs repo sha) ∷ h) = response 200 (check_runs [])
answers (sent (get_reviews repo n) ∷ h) = response 200 (feed [])
answers (sent (get_comments repo n page) ∷ h) = response 200 (feed [])
answers (sent r ∷ h) = response 200 (object 900)
answers _ = no_response

abbrev clean : Report
clean = record {
  result =
      some (record { verdict = approved; chunks_failed = 0; overflow_files = 0; degraded = false });
  findings = [];
  summary = codes "fine";
  comments = [];
  failure_detail = [];
  details = codes "details";
  posted_reason = none;
}

abbrev outside : (List Step → Http) → Outside
outside reply = record {
  moment = λ t. record { calls = []; fence_now = 50; now = 51 };
  reply = reply;
  bot_login = "gate[bot]";
  pages = 2;
  review = λ g. finished clean;
  why = λ f. "publish failed";
  message = λ f. "publish failed";
}

abbrev lease : Lease
lease = record { holder = "mac:1"; token = 3; ttl = 90 }

abbrev start_world : World
start_world = record { store = overtaken; steps = []; tick = 0 }

completes : (run_generation (outside answers) 2 lease start_world).0 ≡ returned completed
unfolding run_generation World.◌>>=◌ at_store attempt give throw outcome read_live_pr request
    received begin fence_write guard_binding renewal mark_renewed post_check external_text complete
    send_patches read_row with_check close_check_run review_body review_marker post_review_of
    upsert_summary annotations_for with_summary_marker contains starts_with drop_prefix digits take
    patches batches slices start finish set_check_run record_publication renew_lease can_renew gets
    tx settle Exec.◌>>=◌ Exec.guard Fence.fence update get is_fenced Calls.run count_where
    update_where find_id check_binding latest_generation best keep same_pr str_eq publication
    find_first upsert put_publication is_queued is_live is_final
completes = refl

run_generation-Closed_example :
    Closed 2 completed (run_generation (outside answers) 2 lease start_world).1.store
run_generation-Closed_example =
    run_generation-Closed (outside answers) 2 lease start_world completed overtaken-IsValid
      completes

-- A worker whose lease was taken over.
abbrev late : Lease
late = record { holder = "mac:0"; token = 2; ttl = 90 }

late_raises :
    (run_generation (outside answers) 2 late start_world).0 ≡ raised (store_error lease_lost)
unfolding run_generation World.◌>>=◌ throw at_store start tx settle Exec.◌>>=◌ Exec.guard
    Fence.fence is_fenced Calls.run gets
late_raises = refl

abbrev cut_off : Outside
cut_off = record (outside answers) { review = λ g. interrupted }

cut_off_raises : (run_generation cut_off 2 lease start_world).0 ≡ raised interruption
unfolding run_generation World.◌>>=◌ at_store attempt give throw outcome read_live_pr request
    received begin fence_write guard_binding renewal mark_renewed post_check external_text complete
    send_patches read_row with_check close_check_run review_body review_marker post_review_of
    upsert_summary annotations_for with_summary_marker contains starts_with drop_prefix digits take
    patches batches slices start finish set_check_run record_publication renew_lease can_renew gets
    tx settle Exec.◌>>=◌ Exec.guard Fence.fence update get is_fenced Calls.run count_where
    update_where find_id check_binding latest_generation best keep same_pr str_eq publication
    find_first upsert put_publication is_queued is_live is_final
cut_off_raises = refl

run_generation-raises_example : Expected cut_off interruption
run_generation-raises_example =
    run_generation-raises cut_off 2 lease start_world interruption cut_off_raises

run-EachFenced_example :
    EachFenced
      (outside answers)
      (run_worker (outside answers) 1 "mac:1" 90 (λ _. true) none start_world).1.steps
run-EachFenced_example = run-EachFenced (outside answers) 1 "mac:1" 90 (λ _. true) overtaken

ensure_check-EachLooked_example :
    EachLooked
      (outside answers)
      (row 2 2 queued)
      (ensure_check (outside answers) (row 2 2 queued) lease none start_world).1.steps
ensure_check-EachLooked_example =
    ensure_check-EachLooked (outside answers) (row 2 2 queued) lease none start_world tt
      (unfold is_fresh in refl)

-- A GitHub that answers nothing.
abbrev silent : List Step → Http
silent h = no_response

-- The POST of the check, and the look for it, without an answer.
abbrev unanswered : World
unanswered = record start_world {
  steps =
      sent (get_check_runs "acme/shop" "aaa")
      ∷ sent (post_check_run "acme/shop" "aaa" (external_text (row 2 2 queued)))
      ∷ renewed
      ∷ [];
}

may_have_landed : is_fresh (outside silent) (row 2 2 queued) unanswered.steps ≡ false
unfolding is_fresh is_create lists_none is_lookup external_text digits is_unauthorized str_eq
    text_eq received show_number
may_have_landed = refl

fail-repeats_example :
    ¬ EachLooked
      (outside silent)
      (row 2 2 queued)
      (fail (outside silent) (row 2 2 queued) lease (codes "no reply_of") unanswered).1.steps
fail-repeats_example =
    fail-repeats (outside silent) (row 2 2 queued) (row 2 2 queued) lease (codes "no reply_of")
      unanswered (unfold find_id Calls.run in refl) refl (unfold can_renew Calls.run str_eq in refl)
      may_have_landed
