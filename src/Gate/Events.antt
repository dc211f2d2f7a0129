-- ===== src/Gate/Events.antt =====
-- What one delivery asks of the gate: `map_event` and `_rerequest` of src/prxref/gate/receiver.py.
use prxref.Base.{
  ℕ, String, Bool, true, false, not, ◌&&◌, ◌||◌, Option, none, some, List, [], ◌∷◌, str_eq, ◌==◌,
  if◌then◌else◌,
}
use prxref.Gate.Store.Rows.{Store}
use prxref.Gate.Store.Queries.{latest_generation_for_head}

-- A payload as GitHub documents it, with `none` for a field that is missing.
pub record PullRequest : Type 0 where
  pub number : Option ℕ
  pub head_sha : Option String
  pub base_sha : Option String
  pub base_ref : Option String

-- The object under `check_run` or `check_suite`.
pub record CheckObject : Type 0 where
  pub app_id : Option ℕ
  pub name : Option String
  pub head_sha : Option String
  pub pull_requests : List PullRequest

pub record Payload : Type 0 where
  pub action : Option String
  pub number : Option ℕ
  pub pull_request : PullRequest
  pub base_changed : Bool
  pub check_run : CheckObject
  pub check_suite : CheckObject
  pub installation : Option ℕ
  -- In lower case, "" if missing.
  pub repository : String

-- A decoded body.
pub data Decoded : Type 0 where
  not_json not_object : Decoded
  object : Payload → Decoded

-- What one delivery asks the gate to do.
pub data Intent : Type 0 where
  enqueues : ℕ → String → String → String → String → Intent
  cancels : ℕ → Intent

abbrev pub pr_of : Intent → ℕ
pr_of (enqueues n h b f why) = n
pr_of (cancels n) = n

-- What `map_event` does: it returns an intent or None, or raises on a missing field.
pub data Mapped : Type 0 where
  intent : Intent → Mapped
  ignored raised : Mapped

abbrev pub or_empty : Option String → String
or_empty none = ""
or_empty (some s) = s

-- `value in set` and `value == text` for a value that may be None
unfoldable pub is_text : String → Option String → Bool
is_text t none = false
is_text t (some s) = str_eq s t

-- `action if action in _PR_ENQUEUE_ACTIONS else None`, or "retarget"
unfoldable pub reason_of : Payload → Option String
unfolding is_text
reason_of p =
    if is_text "edited" p.action && p.base_changed
    then some "retarget"
    else if is_text "opened" p.action
        || is_text "synchronize" p.action
        || is_text "reopened" p.action
        || is_text "ready_for_review" p.action
    then p.action
    else none

-- `pr.get("number") or payload.get("number")`; `int(None)` raises.
unfoldable pub number_of : Payload → Option ℕ
number_of p = elim p.pull_request.number [
  | none ↦ p.number
  | some n ↦ if n == 0 then p.number else some n
]

unfoldable pub map_enqueue : ℕ → PullRequest → String → Mapped
map_enqueue n pr why = elim pr.head_sha [
  | none ↦ raised
  | some h ↦ elim pr.base_sha [
    | none ↦ raised
    | some b ↦ elim pr.base_ref [ none ↦ raised | some f ↦ intent (enqueues n h b f why) ]
  ]
]

unfoldable pub map_pull_request : Payload → Mapped
unfolding number_of reason_of map_enqueue is_text
map_pull_request p = elim (number_of p) [
  | none ↦ raised
  | some n ↦
      if is_text "closed" p.action
      then intent (cancels n)
      else elim (reason_of p) [ none ↦ ignored | some why ↦ map_enqueue n p.pull_request why ]
]

-- `_rerequest`
unfoldable pub rerequest : String → List PullRequest → String → Store → Mapped
unfolding latest_generation_for_head
rerequest head [] repo s = elim (latest_generation_for_head repo head s) [
  | none ↦ ignored
  | some g ↦ intent (enqueues g.pr_number head g.base_sha g.base_ref "rerequest")
]
rerequest head (pr ∷ prs) repo s = elim pr.number [
  | none ↦ raised
  | some n ↦ intent (enqueues n head (or_empty pr.base_sha) (or_empty pr.base_ref) "rerequest")
]

-- A check event whose action is `rerequested`.
unfoldable pub map_check : Bool → CheckObject → ℕ → String → Store → Mapped
unfolding rerequest is_text
map_check named body app_id repo s =
    let ours : Bool = elim body.app_id [ none ↦ false | some i ↦ i == app_id ] in
    if not ours || (named && not (is_text "sdlc-review" body.name))
    then ignored
    else elim body.head_sha [ none ↦ raised | some h ↦ rerequest h body.pull_requests repo s ]

unfoldable pub map_event : String → Payload → ℕ → String → Store → Mapped
unfolding map_pull_request map_check is_text
map_event event p app_id repo s =
    if str_eq event "pull_request"
    then map_pull_request p
    else if str_eq event "check_run" && is_text "rerequested" p.action
    then map_check true p.check_run app_id repo s
    else if str_eq event "check_suite" && is_text "rerequested" p.action
    then map_check false p.check_suite app_id repo s
    else ignored
