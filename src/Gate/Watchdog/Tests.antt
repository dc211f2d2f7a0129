-- ===== src/Gate/Watchdog/Tests.antt =====
-- Runs of the watchdog of src/prxref/gate/watchdog.py, and an instance of its theorem.
use prxref.Base.{ℕ, String, ◌≡◌, refl, none, some, List, [], ◌∷◌}
use prxref.Gate.Exec.{ok}
use prxref.Gate.Store.Rows.{Generation, empty_store}
use prxref.Gate.Store.History.{IsValid}
use prxref.Gate.Store.Invariant.{empty_store-IsValid}
use prxref.Gate.Watchdog.{Pull, Page, batch, github_error, reconcile, list_open}
use prxref.Gate.Watchdog.Reconcile.{AllCovered, reconcile_covers}

abbrev pull : ℕ → String → Pull
pull n head = record { number = n; head = head; base = "bbb"; base_ref = "main" }

-- One short page: two pull requests and a malformed entry.
abbrev client : String → ℕ → Page
client repo page = batch (some (pull 7 "aaa") ∷ none ∷ some (pull 8 "ccc") ∷ [])

list_open_short :
    list_open (client "acme/shop") ≡ some (pull 7 "aaa") ∷ none ∷ some (pull 8 "ccc") ∷ []
unfolding list_open
list_open_short = refl

list_open_error : list_open (λ page. github_error) ≡ []
unfolding list_open
list_open_error = refl

reconcile_covers_example :
    ((made : List Generation) × ((reconcile (λ n. 5) client ("acme/shop" ∷ []) empty_store).0
        ≡ ok made))
    × IsValid (reconcile (λ n. 5) client ("acme/shop" ∷ []) empty_store).1
    × AllCovered client
        ("acme/shop" ∷ [])
        (reconcile (λ n. 5) client ("acme/shop" ∷ []) empty_store).1
reconcile_covers_example =
    reconcile_covers (λ n. 5) client ("acme/shop" ∷ []) empty_store empty_store-IsValid
