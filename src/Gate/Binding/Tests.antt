-- ===== src/Gate/Binding/Tests.antt =====
-- Runs of src/prxref/gate/binding.py.
use prxref.Base.{false, ◌≡◌, ◌≢◌, refl, none, some, best, keep, str_eq}
use prxref.Gate.Store.Rows.{find_id, queued, same_pr}
use prxref.Gate.Store.Generations.{enqueue}
use prxref.Gate.Store.Queries.{latest_generation}
use prxref.Gate.Store.Tests.{row, overtaken, overtaken-IsValid}
use prxref.Gate.Binding.{LivePr, check_binding, is_later, check_binding-enqueue}

abbrev live : LivePr
live = record {
  head_sha = "aaa";
  base_sha = "bbb";
  base_ref = "main";
  state = "open";
  merged = false;
}

newest_may_publish : check_binding (row 2 2 queued) live overtaken ≡ none
unfolding check_binding latest_generation is_later best keep same_pr str_eq
newest_may_publish = refl

newest_found : find_id 2 overtaken.generations ≡ some (row 2 2 queued)
unfolding find_id
newest_found = refl

check_binding-enqueue_example :
    check_binding
      (row 2 2 queued)
      live
      (enqueue "acme/shop" 7 "ccc" "bbb" "main" "synchronize" 20 overtaken).1
    ≢ none
check_binding-enqueue_example =
    check_binding-enqueue (row 2 2 queued) live overtaken 2 "ccc" "bbb" "main" "synchronize" 20
      overtaken-IsValid newest_found
