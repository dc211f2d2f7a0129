-- ===== src/Gate/Store/Rows.antt =====
-- The tables of src/prxref/gate/store.py and the statements that its methods run on them.
--
-- A table is the list of its rows, the newest insert first; every SELECT that depends on an order
-- says ORDER BY. Times are natural numbers, in the clock's smallest unit. `external_id` is the
-- empty text or CAST(id AS TEXT): `none`, or the number that the text shows.
use prxref.Base.{
  ℕ, max, String, Bool, true, false, ◌&&◌, Option, none, some, List, [], ◌∷◌, str_eq, ◌==◌, ltb,
  leb, if◌then◌else◌,
}

-- STATES
pub data State : Type 0 where
  queued in_progress completed failed superseded stale cancelled : State

-- FINAL_STATES
unfoldable pub is_final : State → Bool
is_final completed = true
is_final failed = true
is_final stale = true
is_final cancelled = true
is_final _ = false

unfoldable pub is_queued : State → Bool
is_queued queued = true
is_queued _ = false

unfoldable pub is_in_progress : State → Bool
is_in_progress in_progress = true
is_in_progress _ = false

-- `state IN ('queued','in_progress')`
unfoldable pub is_live : State → Bool
is_live queued = true
is_live in_progress = true
is_live _ = false

-- One review attempt for one PR at one (head, base) pair: a row of `generations`.
pub record Generation : Type 0 where
  pub id : ℕ
  pub repo : String
  pub pr_number : ℕ
  pub head_sha : String
  pub base_sha : String
  pub base_ref : String
  pub gen : ℕ
  pub reason : String
  pub state : State
  pub created_at : ℕ
  pub started_at : Option ℕ
  pub finished_at : Option ℕ
  pub check_run_id : Option ℕ
  pub external_id : Option ℕ
  pub conclusion : Option String
  pub error : Option String
  pub attempts : ℕ

-- A row of `deliveries`.
pub record Delivery : Type 0 where
  pub delivery_id : String
  pub received_at : ℕ
  pub event : String
  pub action : Option String
  pub repo : String
  pub pr_number : Option ℕ
  pub handled : Bool

-- A row of `leases`.
pub record LeaseRow : Type 0 where
  pub holder : String
  pub token : ℕ
  pub expires_at : ℕ

-- A row of `publications`.
pub record Publication : Type 0 where
  pub generation_id : ℕ
  pub kind : String
  pub github_id : ℕ
  pub posted_at : ℕ

-- The database. `seq` is the AUTOINCREMENT counter of `generations`; `worker` and `paused` are the
-- two rows of `leases` that the code names.
pub record Store : Type 0 where
  pub deliveries : List Delivery
  pub generations : List Generation
  pub seq : ℕ
  pub worker : Option LeaseRow
  pub paused : Option LeaseRow
  pub publications : List Publication

-- The file as `_SCHEMA` makes it.
abbrev pub empty_store : Store
empty_store = record {
  deliveries = [];
  generations = [];
  seq = 0;
  worker = none;
  paused = none;
  publications = [];
}

-- `repo=? AND pr_number=?`
unfoldable pub same_pr : String → ℕ → Generation → Bool
same_pr repo pr_number g = str_eq g.repo repo && g.pr_number == pr_number

-- `SELECT COALESCE(MAX(gen), 0) … WHERE repo=? AND pr_number=?`
unfoldable pub max_gen : String → ℕ → List Generation → ℕ
max_gen repo pr_number [] = 0
max_gen repo pr_number (g ∷ gs) =
    if same_pr repo pr_number g
    then max g.gen (max_gen repo pr_number gs)
    else max_gen repo pr_number gs

-- `UPDATE generations SET … WHERE …`
unfoldable pub update_where :
    (Generation → Bool) → (Generation → Generation) → List Generation → List Generation
update_where p set [] = []
update_where p set (g ∷ gs) = (if p g then set g else g) ∷ update_where p set gs

-- `SELECT … WHERE id=?`
unfoldable pub find_id : ℕ → List Generation → Option Generation
find_id i [] = none
find_id i (g ∷ gs) = if g.id == i then some g else find_id i gs

-- `SELECT id … WHERE … ORDER BY id`
unfoldable pub insert_by_id : Generation → List Generation → List Generation
insert_by_id g [] = g ∷ []
insert_by_id g (h ∷ hs) = if leb g.id h.id then g ∷ h ∷ hs else h ∷ insert_by_id g hs

unfoldable pub order_by_id : List Generation → List Generation
unfolding insert_by_id
order_by_id [] = []
order_by_id (g ∷ gs) = insert_by_id g (order_by_id gs)

-- `… ORDER BY id LIMIT 1`, `… ORDER BY id DESC LIMIT 1` and `… ORDER BY gen DESC LIMIT 1`
abbrev pub lower_id : Generation → Generation → Bool
lower_id g h = ltb g.id h.id

abbrev pub higher_id : Generation → Generation → Bool
higher_id g h = ltb h.id g.id

abbrev pub higher_gen : Generation → Generation → Bool
higher_gen g h = ltb h.gen g.gen
