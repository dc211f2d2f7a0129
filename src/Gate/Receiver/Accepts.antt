-- ===== src/Gate/Receiver/Accepts.antt =====
-- A new delivery that asks for a review, as `Receiver.handle` of src/prxref/gate/receiver.py takes it.
use prxref.Base.{ℕ, String, true, false, ◌≡◌, refl, ap, ◌∙◌, Option, some, arith}
use prxref.Gate.Exec.{ok, pure, tx, settle, ◌>>=◌}
use prxref.Gate.Store.Rows.{Store}
use prxref.Gate.Store.Deliveries.{has_delivery, record_delivery, mark_delivery_handled}
use prxref.Gate.Store.Enqueue.{enqueued, enqueue_lem}
use prxref.Gate.Store.History.{IsValid}
use prxref.Gate.Store.Calls.{delivered, call}
use prxref.Gate.Store.Invariant.{call-Advances}
use prxref.Gate.Events.{Payload, Intent, enqueues, intent, map_event}
use prxref.Gate.Receiver.{
  Settings, accepted, known_pr, carry_out, carry_out_mapped, take_delivery, handle_payload,
}

record_new :
    (i e : String) (a : Option String) (r : String) (p : Option ℕ) (now : ℕ) (s : Store)
    → has_delivery i s.deliveries ≡ false
    → record_delivery i e a r p now s ≡ (ok true, call (delivered i e a r p now) s)
unfolding record_delivery call settle tx pure
record_new i e a r p now s h = ground arith

recorded-IsValid :
    (i e : String) (a : Option String) (r : String) (p : Option ℕ) (now : ℕ) (s : Store)
    → IsValid s
    → IsValid (call (delivered i e a r p now) s)
recorded-IsValid i e a r p now s v = (call-Advances (delivered i e a r p now) s v).valid

recorded_rows :
    (i e : String) (a : Option String) (r : String) (p : Option ℕ) (now : ℕ) (s : Store)
    (repo : String) (n : ℕ) (h b f why : String) (at : ℕ)
    → (enqueued repo n h b f why at (call (delivered i e a r p now) s)).generations
      ≡ (enqueued repo n h b f why at s).generations
unfolding call record_delivery settle tx pure
recorded_rows i e a r p now s repo n h b f why at = ground arith

carry_out-enqueues :
    (delivery repo : String) (n : ℕ) (h b f why : String) (now : ℕ) (s : Store)
    → IsValid s
    → let r = carry_out delivery repo (enqueues n h b f why) now s in
      (r.0 ≡ ok accepted) × (r.1.generations ≡ (enqueued repo n h b f why now s).generations)
unfolding carry_out ◌>>=◌ mark_delivery_handled tx settle pure
carry_out-enqueues delivery repo n h b f why now s v =
    let e = enqueue_lem repo n h b f why now s v in (rw e refl, rw e refl)

take_delivery-record :
    (delivery event : String) (p : Payload) (i : Intent) (received now : ℕ) (s : Store)
    → has_delivery delivery s.deliveries ≡ false
    → take_delivery delivery event p (intent i) received now s
      ≡ carry_out delivery p.repository i now
          (call (delivered delivery event p.action p.repository (known_pr (intent i)) received) s)
unfolding take_delivery carry_out_mapped ◌>>=◌
take_delivery-record delivery event p i received now s h =
    rw (record_new delivery event p.action p.repository (known_pr (intent i)) received s h) refl

-- In a valid database, a delivery that is new and maps to an enqueue is accepted, and the
-- generations become those that `enqueue` leaves for its pull request, head and base.
pub handle_payload-enqueues :
    (settings : Settings) (delivery event : String) (p : Payload) (received now : ℕ) (s : Store)
    (n : ℕ) (h b f why : String)
    → IsValid s
    → has_delivery delivery s.deliveries ≡ false
    → map_event event p settings.app_id p.repository s ≡ intent (enqueues n h b f why)
    → let r = handle_payload settings delivery event p received now s in
      (r.0 ≡ ok accepted)
      × (r.1.generations ≡ (enqueued p.repository n h b f why now s).generations)
unfolding handle_payload
handle_payload-enqueues settings delivery event p received now s n h b f why v new m =
    let i = enqueues n h b f why in
    let u = call (delivered delivery event p.action p.repository (some n) received) s in
    let path =
      ap (λ x. take_delivery delivery event p x received now s) m
      ∙ take_delivery-record delivery event p i received now s new in
    let c =
      carry_out-enqueues delivery p.repository n h b f why now u
        (recorded-IsValid delivery event p.action p.repository (some n) received s v) in
    (
      ap (λ q. q.0) path ∙ c.0,
      ap (λ q. q.1.generations) path
          ∙ c.1
          ∙ recorded_rows delivery event p.action p.repository (some n) received s p.repository n h
              b f why now,
    )
