-- ===== src/Gate/Receiver/Tests.antt =====
-- Runs of src/prxref/gate/receiver.py, with a digest that shows the secret and the body.
use prxref.Base.{String, true, false, ◌≡◌, refl, str_eq, none, some, [], ◌∷◌, ◌⊎◌, any}
use prxref.Gate.Exec.{ok}
use prxref.Gate.Store.Rows.{Store, empty_store}
use prxref.Gate.Store.Deliveries.{has_delivery, record_delivery}
use prxref.Gate.Store.Enqueue.{enqueued}
use prxref.Gate.Store.Calls.{pauses, run}
use prxref.Gate.Store.Invariant.{empty_store-IsValid}
use prxref.Gate.Events.{
  PullRequest, CheckObject, Payload, Decoded, object, enqueues, intent, map_event,
}
use prxref.Gate.Receiver.{
  Environ, Settings, Request, accepted, handle_payload, handle, signature_rejected, failed,
}
use prxref.Gate.Receiver.Effects.{Admitted, handle-Admitted}
use prxref.Gate.Receiver.Redelivery.{handle_again}
use prxref.Gate.Receiver.Accepts.{handle_payload-enqueues}

abbrev no_pr : PullRequest
no_pr = record { number = none; head_sha = none; base_sha = none; base_ref = none }

abbrev no_check : CheckObject
no_check = record { app_id = none; name = none; head_sha = none; pull_requests = [] }

abbrev opened : Payload
opened = record {
  action = some "opened";
  number = some 7;
  pull_request = record {
    number = some 7;
    head_sha = some "aaa";
    base_sha = some "bbb";
    base_ref = some "main";
  };
  base_changed = false;
  check_run = no_check;
  check_suite = no_check;
  installation = some 5;
  repository = "acme/shop";
}

abbrev settings : Settings
settings = record {
  app_id = 9;
  installation_ids = 5 ∷ [];
  repos = "acme/shop" ∷ [];
  secret_grace = 0;
}

abbrev env : Environ
env = record { secret = "s"; secret_previous = ""; allow_unsigned = true }

-- A body is its text, and the signature of a body under the secret is the secret.
abbrev digest : String → String → String
digest secret body = secret

abbrev loads : String → Decoded
loads body = object opened

abbrev request : String → Request String
request signature = record {
  is_get = false;
  is_post = true;
  path = "/webhook";
  through_tunnel = false;
  signature = signature;
  delivery = "d1";
  event = "pull_request";
  body = "{}";
}

unsigned_rejected :
    handle String digest loads env settings 0 10 20 30 (request "") empty_store
    ≡ (ok signature_rejected, empty_store)
unfolding handle str_eq
unsigned_rejected = refl

-- A signature of other than ASCII characters: `handle` raises.
not_ascii :
    handle String digest loads env settings 0 10 20 30 (request "é") empty_store
    ≡ (ok failed, empty_store)
unfolding handle str_eq
not_ascii = refl

handle-Admitted_example :
    ((handle String digest loads env settings 0 10 20 30 (request "s") empty_store).1 ≡ empty_store)
    ⊎ Admitted String digest loads env settings 0 10 (request "s")
handle-Admitted_example =
    handle-Admitted String digest loads env settings 0 10 20 30 (request "s") empty_store

abbrev delivered_once : Store
delivered_once =
    (record_delivery "d1" "pull_request" (some "opened") "acme/shop" (some 7) 20 empty_store).1

recorded_once : has_delivery "d1" delivered_once.deliveries ≡ true
unfolding record_delivery any str_eq
recorded_once = refl

handle_again_example :
    (handle String digest loads env settings 0 10 20 30
      (request "s")
      (run (pauses true ∷ []) delivered_once)).1
    ≡ run (pauses true ∷ []) delivered_once
handle_again_example =
    handle_again String digest loads env settings 0 10 20 30 (request "s") delivered_once
      (pauses true ∷ []) recorded_once

opened-mapped :
    map_event "pull_request" opened 9 "acme/shop" empty_store
    ≡ intent (enqueues 7 "aaa" "bbb" "main" "opened")
unfolding map_event str_eq
opened-mapped = refl

not_recorded : has_delivery "d1" empty_store.deliveries ≡ false
unfolding any
not_recorded = refl

handle_payload-enqueues_example :
    ((handle_payload settings "d1" "pull_request" opened 20 30 empty_store).0 ≡ ok accepted)
    × ((handle_payload settings "d1" "pull_request" opened 20 30 empty_store).1.generations
        ≡ (enqueued "acme/shop" 7 "aaa" "bbb" "main" "opened" 30 empty_store).generations)
handle_payload-enqueues_example =
    handle_payload-enqueues settings "d1" "pull_request" opened 20 30 empty_store 7 "aaa" "bbb"
      "main" "opened" empty_store-IsValid not_recorded opened-mapped
