-- ===== src/Gate/Receiver/Effects.antt =====
-- What `Receiver.handle` of src/prxref/gate/receiver.py does to the database.
use prxref.Base.{
  ℕ, ◌+◌, ◌<◌, String, Bool, true, false, not, ◌&&◌, ◌||◌, ◌≡◌, refl, ◌⊎◌, inl, inr, arith, str_eq,
  str_eq_iff, ltb, if◌then◌else◌, Bool-cases,
}
use prxref.Gate.Exec.{Exec, pure}
use prxref.Gate.Store.Rows.{Store}
use prxref.Gate.Events.{Payload, Decoded, not_json, not_object, object}
use prxref.Gate.Receiver.{
  Environ, Settings, Verdict, current, previous, refused, broken, Request, Reply, handle_object,
  is_blank, is_allowed, is_handled_event, handle_decoded, check_hmac, is_matched, answer, verify,
  handle,
}

handle_object-Admits :
    (settings : Settings) (delivery event : String) (p : Payload) (received now : ℕ) (s : Store)
    → ((handle_object settings delivery event p received now s).1 ≡ s)
      ⊎ ((is_blank delivery ≡ false)
          × (is_handled_event event ≡ true)
          × (is_allowed settings p ≡ true))
unfolding handle_object pure
handle_object-Admits settings delivery event p received now s =
    elim (Bool-cases (is_blank delivery || is_blank event)) [
      | inl e ↦ inl (ground arith)
      | inr e ↦ elim (Bool-cases (is_handled_event event)) [
        | inr h ↦ inl (ground arith)
        | inl h ↦ elim (Bool-cases (is_allowed settings p)) [
          | inr a ↦ inl (ground arith)
          | inl a ↦ inr (ground arith, h, a)
        ]
      ]
    ]

abbrev pub lets_in : Verdict → Bool
lets_in current = true
lets_in previous = true
lets_in _ = false

if_keeps :
    (b : Bool) (m n : Exec Store Reply) (s : Store) (P : Store → Type 0)
    → P (m s).1
    → P (n s).1
    → P ((if b then m else n) s).1
if_keeps true m n s P h k = h
if_keeps false m n s P h k = k

module _ (Body : Type 0) (digest : String → Body → String) (loads : Body → Decoded) where
  -- The signature of the request is the digest of its body under a secret, and neither is blank.
  abbrev pub SignedBy : String → Request Body → Type 0
  SignedBy secret r =
      (is_blank r.signature ≡ false)
      × (is_blank secret ≡ false)
      × (digest secret r.body ≡ r.signature)

  check_hmac-SignedBy :
      (allow : Bool) (secret : String) (r : Request Body)
      → is_matched Body digest loads (check_hmac Body digest loads allow r.body r.signature secret)
        ≡ true
      → SignedBy secret r
  unfolding check_hmac
  check_hmac-SignedBy allow secret r h =
      elim (Bool-cases (is_blank r.signature || is_blank secret)) [
        | inl b ↦ let absurd : ⊥ = unsigned_matched allow h b in elim absurd [ ]
        | inr b ↦ elim (Bool-cases (str_eq (digest secret r.body) r.signature)) [
          | inl e ↦
              (ground arith, ground arith, (str_eq_iff (digest secret r.body) r.signature).0 e)
          | inr e ↦ let absurd : ⊥ = ground arith in elim absurd [ ]
        ]
      ]
    where
      unsigned_matched :
          (b : Bool)
          → is_matched Body digest loads (check_hmac Body digest loads b r.body r.signature secret)
            ≡ true
          → (is_blank r.signature || is_blank secret) ≡ true
          → ⊥
      unsigned_matched true h b = ground arith
      unsigned_matched false h b = ground arith

  -- The secret in use, or inside the grace window the one before.
  abbrev pub Authentic : Environ → Settings → ℕ → ℕ → Request Body → Type 0
  Authentic env settings started_at clock r =
      SignedBy env.secret r
      ⊎ ((clock < started_at + settings.secret_grace) × SignedBy env.secret_previous r)

  verify-Authentic :
      (env : Environ) (settings : Settings) (started_at clock : ℕ) (r : Request Body)
      → (lets_in (verify Body digest loads env settings started_at clock r) ≡ false)
        ⊎ Authentic env settings started_at clock r
  unfolding verify
  verify-Authentic env settings started_at clock r =
      let first = check_hmac Body digest loads env.allow_unsigned r.body r.signature env.secret in
      let second =
        check_hmac Body digest loads env.allow_unsigned r.body r.signature env.secret_previous in
      let window = ltb clock (started_at + settings.secret_grace) in
      elim (Bool-cases (is_matched Body digest loads first)) [
        | inl m ↦ inr (inl (check_hmac-SignedBy env.allow_unsigned env.secret r m))
        | inr m ↦ elim (Bool-cases (window && is_matched Body digest loads second)) [
          | inl g ↦ inr (
              inr (
                ground arith,
                check_hmac-SignedBy env.allow_unsigned env.secret_previous r (ground arith),
              ))
          | inr g ↦ inl (ground arith)
        ]
      ]

  answer_keeps :
      (v : Verdict) (m : Exec Store Reply) (s : Store) (P : Store → Type 0)
      → P s
      → (lets_in v ≡ false) ⊎ P (m s).1
      → P (answer v m s).1
  unfolding answer pure
  answer_keeps refused m s P h k = h
  answer_keeps broken m s P h k = h
  answer_keeps current m s P h (inl e) = ground arith
  answer_keeps current m s P h (inr k) = k
  answer_keeps previous m s P h (inl e) = ground arith
  answer_keeps previous m s P h (inr k) = k

  -- What the database after `handle` is, from what it is after the steps behind the signature.
  pub handle_keeps :
      (env : Environ) (settings : Settings) (started_at clock received now : ℕ) (r : Request Body)
      (s : Store) (P : Store → Type 0)
      → P s
      → (lets_in (verify Body digest loads env settings started_at clock r) ≡ false)
        ⊎ P (handle_decoded settings r.delivery r.event (loads r.body) received now s).1
      → P (handle Body digest loads env settings started_at clock received now r s).1
  unfolding handle pure
  handle_keeps env settings started_at clock received now r s P h k =
      if_keeps (r.is_get && str_eq r.path "/health") _ _ s P h (
        if_keeps (not r.is_post || not (str_eq r.path "/webhook")) _ _ s P h
          (answer_keeps (verify Body digest loads env settings started_at clock r) _ s P h k))

  -- The delivery may reach the store: it is authentic, names itself, is of a handled event, and its
  -- payload is of an allowed installation and repository.
  abbrev pub Admitted : Environ → Settings → ℕ → ℕ → Request Body → Type 0
  Admitted env settings started_at clock r =
      Authentic env settings started_at clock r
      × (is_blank r.delivery ≡ false)
      × (is_handled_event r.event ≡ true)
      × ((p : Payload) × (loads r.body ≡ object p) × (is_allowed settings p ≡ true))

  decoded_admits :
      (settings : Settings) (d : Decoded) (received now : ℕ) (r : Request Body) (s : Store)
      → loads r.body ≡ d
      → ((handle_decoded settings r.delivery r.event d received now s).1 ≡ s)
        ⊎ ((is_blank r.delivery ≡ false)
            × (is_handled_event r.event ≡ true)
            × ((p : Payload) × (loads r.body ≡ object p) × (is_allowed settings p ≡ true)))
  unfolding handle_decoded pure
  decoded_admits settings not_json received now r s e = inl refl
  decoded_admits settings not_object received now r s e = inl refl
  decoded_admits settings (object p) received now r s e =
      elim (handle_object-Admits settings r.delivery r.event p received now s) [
        | inl k ↦ inl k
        | inr (b, h, a) ↦ inr (b, h, (p, e, a))
      ]

  -- Whatever the request is: it leaves the database as it is, or it is admitted. An unsigned one
  -- never is, also where the environment allows unsigned webhooks.
  pub handle-Admitted :
      (env : Environ) (settings : Settings) (started_at clock received now : ℕ) (r : Request Body)
      (s : Store)
      → ((handle Body digest loads env settings started_at clock received now r s).1 ≡ s)
        ⊎ Admitted env settings started_at clock r
  handle-Admitted env settings started_at clock received now r s =
      elim (verify-Authentic env settings started_at clock r) [
        | inl e ↦
            inl (
              handle_keeps env settings started_at clock received now r s (λ t. t ≡ s) refl (inl e))
        | inr a ↦ elim (decoded_admits settings (loads r.body) received now r s refl) [
          | inl k ↦ inl (
              handle_keeps env settings started_at clock received now r s (λ t. t ≡ s) refl (inr k))
          | inr (b, h, d) ↦ inr (a, b, h, d)
        ]
      ]
