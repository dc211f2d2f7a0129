-- ===== src/Gate/Receiver/Redelivery.antt =====
-- A webhook that GitHub delivers again, as `Receiver.handle` of src/prxref/gate/receiver.py takes it.
use prxref.Base.{ℕ, String, true, ◌≡◌, refl, none, List, inr, arith}
use prxref.Gate.Exec.{pure, ◌>>=◌}
use prxref.Gate.Store.Rows.{Store}
use prxref.Gate.Store.Deliveries.{has_delivery}
use prxref.Gate.Store.Calls.{Call, run}
use prxref.Gate.Store.Once.{recorded_before, run-Remembers}
use prxref.Gate.Events.{
  Payload, Decoded, not_json, not_object, object, Mapped, intent, ignored, raised, map_event,
}
use prxref.Gate.Receiver.{
  Environ, Settings, Request, known_pr, take_delivery, handle_payload, handle_object,
  handle_decoded, handle,
}
use prxref.Gate.Receiver.Effects.{handle_keeps}

take_again :
    (delivery event : String) (p : Payload) (m : Mapped) (received now : ℕ) (s : Store)
    → has_delivery delivery s.deliveries ≡ true
    → (take_delivery delivery event p m received now s).1 ≡ s
unfolding take_delivery pure ◌>>=◌
take_again delivery event p raised received now s h = refl
take_again delivery event p (intent i) received now s h =
    rw (recorded_before delivery event p.action p.repository (known_pr (intent i)) received s h)
      refl
take_again delivery event p ignored received now s h =
    rw (recorded_before delivery event p.action p.repository none received s h) refl

decoded_again :
    (settings : Settings) (delivery event : String) (d : Decoded) (received now : ℕ) (s : Store)
    → has_delivery delivery s.deliveries ≡ true
    → (handle_decoded settings delivery event d received now s).1 ≡ s
unfolding handle_decoded handle_object handle_payload pure
decoded_again settings delivery event not_json received now s h = refl
decoded_again settings delivery event not_object received now s h = refl
decoded_again settings delivery event (object p) received now s h = ground (
  arith,
  take_again delivery event p (map_event event p settings.app_id p.repository s) received now s h,
)

-- Once a delivery's id is recorded, and whatever calls follow, a request that carries the id again
-- leaves the database as it is.
pub handle_again :
    (Body : Type 0) (digest : String → Body → String) (loads : Body → Decoded) (env : Environ)
    (settings : Settings) (started_at clock received now : ℕ) (r : Request Body) (s : Store)
    (cs : List Call)
    → has_delivery r.delivery s.deliveries ≡ true
    → let t = run cs s in
      (handle Body digest loads env settings started_at clock received now r t).1 ≡ t
handle_again Body digest loads env settings started_at clock received now r s cs h =
    let t = run cs s in
    handle_keeps Body digest loads env settings started_at clock received now r t (λ u. u ≡ t) refl
      (inr (
        decoded_again settings r.delivery r.event (loads r.body) received now t
          (run-Remembers r.delivery cs s h)))
