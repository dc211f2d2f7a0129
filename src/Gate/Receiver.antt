-- ===== src/Gate/Receiver.antt =====
-- src/prxref/gate/receiver.py: the webhook intake, with `_check_hmac` of src/prxref/webhooks.py.
-- The keyed digest and the decoding of a body are arguments.
pub mod Effects
pub mod Redelivery
pub mod Accepts
pub mod Tests
use prxref.Base.{
  ℕ, ◌+◌, ◌-◌, ◌*◌, String, Bool, true, false, not, ◌&&◌, ◌||◌, Option, none, some, List, [], ◌∷◌,
  any, all, str_eq, ltb, ◌==◌, if◌then◌else◌,
}
use prxref.Base.Text.{codes}
use prxref.Gate.Exec.{Exec, pure, gets, ◌>>=◌}
use prxref.Gate.Store.Rows.{Generation, Store}
use prxref.Gate.Store.Deliveries.{record_delivery, mark_delivery_handled}
use prxref.Gate.Store.Queries.{latest_generation_for_head}
use prxref.Gate.Store.Generations.{enqueue, cancel_pr}
use prxref.Gate.Events.{
  CheckObject, Decoded, Intent, Mapped, Payload, PullRequest, cancels, enqueues, ignored, intent,
  is_text, map_check, map_enqueue, map_event, map_pull_request, not_json, not_object, number_of,
  object, or_empty, pr_of, raised, reason_of, rerequest,
}

-- The states of `_check_hmac`, and the TypeError that `hmac.compare_digest` raises on a text with
-- characters that are not ASCII.
pub data HmacState : Type 0 where
  matched unsigned reject type_error : HmacState

-- `signature.isascii()`, the condition of `hmac.compare_digest` on texts
unfoldable pub is_ascii : String → Bool
unfolding all
is_ascii s = all (λ c. ltb c 128) (codes s)

-- `not text`
abbrev pub is_blank : String → Bool
is_blank s = str_eq s ""

-- The environment variables, "" for one that is not set.
pub record Environ : Type 0 where
  pub secret : String
  pub secret_previous : String
  pub allow_unsigned : Bool

-- The settings that the receiver reads, with the grace window in the clock's unit.
pub record Settings : Type 0 where
  pub app_id : ℕ
  pub installation_ids : List ℕ
  pub repos : List String
  pub secret_grace : ℕ

-- The secrets that may match, the rotation window's included; `broken` is an exception.
pub data Verdict : Type 0 where
  current previous refused broken : Verdict

-- A request: its headers without white space at their ends, "" for one that is missing.
pub record Request (Body : Type 0) : Type 0 where
  pub is_get : Bool
  pub is_post : Bool
  pub path : String
  pub through_tunnel : Bool
  pub signature : String
  pub delivery : String
  pub event : String
  pub body : Body

-- The replies of `handle`, in the order of the code; `failed` is none: a TypeError leaves `handle`.
pub data Reply : Type 0 where
  health not_found signature_rejected bad_json bad_object missing_headers event_ignored not_allowed
        missing_field duplicate action_ignored accepted failed :
      Reply

unfoldable pub status_code : Reply → Option ℕ
status_code health = some 200
status_code not_found = some 404
status_code signature_rejected = some 401
status_code bad_json = some 400
status_code bad_object = some 400
status_code missing_headers = some 400
status_code event_ignored = some 202
status_code not_allowed = some 403
status_code missing_field = some 400
status_code duplicate = some 202
status_code action_ignored = some 202
status_code accepted = some 202
status_code failed = none

-- `event in _HANDLED_EVENTS`
abbrev pub is_handled_event : String → Bool
is_handled_event event =
    str_eq event "pull_request" || str_eq event "check_run" || str_eq event "check_suite"

-- The allowlist of installations and repositories.
unfoldable pub is_allowed : Settings → Payload → Bool
is_allowed settings p =
    (elim p.installation [ none ↦ false | some i ↦ any (λ j. i == j) settings.installation_ids ])
    && any (str_eq p.repository) settings.repos

-- `intent.pr_number if intent else None`
abbrev pub known_pr : Mapped → Option ℕ
known_pr (intent i) = some (pr_of i)
known_pr ignored = none
known_pr raised = none

-- The last lines of `handle`, with the intent. The callback `on_enqueue` is unset, as it is for the
-- local gate.
unfoldable pub carry_out : String → String → Intent → ℕ → Exec Store Reply
unfolding cancel_pr enqueue mark_delivery_handled
carry_out delivery repo (cancels n) now = do
  _ ← cancel_pr repo n now
  _ ← mark_delivery_handled delivery
  pure accepted
carry_out delivery repo (enqueues n h b f why) now = do
  _ ← enqueue repo n h b f why now
  _ ← mark_delivery_handled delivery
  pure accepted

unfoldable pub carry_out_mapped : String → String → Mapped → ℕ → Exec Store Reply
unfolding carry_out mark_delivery_handled
carry_out_mapped delivery repo (intent i) now = carry_out delivery repo i now
carry_out_mapped delivery repo ignored now = do
  _ ← mark_delivery_handled delivery
  pure action_ignored
carry_out_mapped delivery repo raised now = pure missing_field

-- From `record_delivery` on, for a payload that was mapped.
unfoldable pub take_delivery : String → String → Payload → Mapped → ℕ → ℕ → Exec Store Reply
unfolding record_delivery carry_out_mapped
take_delivery delivery event p raised received now = pure missing_field
take_delivery delivery event p m received now = do
  new ← record_delivery delivery event p.action p.repository (known_pr m) received
  if new then carry_out_mapped delivery p.repository m now else pure duplicate

-- An allowlisted payload.
unfoldable pub handle_payload : Settings → String → String → Payload → ℕ → ℕ → Exec Store Reply
unfolding take_delivery map_event
handle_payload settings delivery event p received now s =
    take_delivery delivery event p (map_event event p settings.app_id p.repository s) received now s

unfoldable pub handle_object : Settings → String → String → Payload → ℕ → ℕ → Exec Store Reply
unfolding handle_payload is_allowed
handle_object settings delivery event p received now =
    if is_blank delivery || is_blank event
    then pure missing_headers
    else if not (is_handled_event event)
    then pure event_ignored
    else if not (is_allowed settings p)
    then pure not_allowed
    else handle_payload settings delivery event p received now

unfoldable pub handle_decoded : Settings → String → String → Decoded → ℕ → ℕ → Exec Store Reply
unfolding handle_object
handle_decoded settings delivery event not_json received now = pure bad_json
handle_decoded settings delivery event not_object received now = pure bad_object
handle_decoded settings delivery event (object p) received now =
    handle_object settings delivery event p received now

-- A refused signature is answered at once.
unfoldable pub answer : Verdict → Exec Store Reply → Exec Store Reply
answer refused m = pure signature_rejected
answer broken m = pure failed
answer current m = m
answer previous m = m

module _ (Body : Type 0) (digest : String → Body → String) (loads : Body → Decoded) where
  unfoldable pub check_hmac : Bool → Body → String → String → HmacState
  unfolding is_ascii
  check_hmac allow_unsigned body signature secret =
      if is_blank signature || is_blank secret
      then (if allow_unsigned then unsigned else reject)
      else if not (is_ascii signature)
      then type_error
      else if str_eq (digest secret body) signature
      then matched
      else reject

  -- `state == "ok"`
  abbrev pub is_matched : HmacState → Bool
  is_matched matched = true
  is_matched _ = false

  abbrev pub is_broken : HmacState → Bool
  is_broken type_error = true
  is_broken _ = false

  -- The window is open while `now - started_at < secret_grace`, also where `now` comes first.
  unfoldable pub verify : Environ → Settings → ℕ → ℕ → Request Body → Verdict
  unfolding check_hmac
  verify env settings started_at now r =
      let first = check_hmac env.allow_unsigned r.body r.signature env.secret in
      let second = check_hmac env.allow_unsigned r.body r.signature env.secret_previous in
      if is_matched first
      then current
      else if is_broken first
      then broken
      else if not (ltb now (started_at + settings.secret_grace))
      then refused
      else if is_matched second
      then previous
      else if is_broken second
      then broken
      else refused

  -- `clock` is read for the grace window, `received` and `now` are the store's readings.
  unfoldable pub handle : Environ → Settings → ℕ → ℕ → ℕ → ℕ → Request Body → Exec Store Reply
  unfolding verify handle_decoded answer
  handle env settings started_at clock received now r =
      if r.is_get && str_eq r.path "/health"
      then pure (if r.through_tunnel then not_found else health)
      else if not r.is_post || not (str_eq r.path "/webhook")
      then pure not_found
      else answer (verify env settings started_at clock r)
          (handle_decoded settings r.delivery r.event (loads r.body) received now)
