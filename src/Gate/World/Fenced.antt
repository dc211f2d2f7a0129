-- ===== src/Gate/World/Fenced.antt =====
-- When a worker of src/prxref/gate writes to GitHub: only after a renewal of its lease.
use prxref.Base.{
  ℕ, ◌≡◌, refl, ◌∙◌, arith, Bool, true, false, ◌&&◌, List, [], ◌∷◌, if◌then◌else◌, Bool-cases, inl,
  inr,
}
use prxref.Gate.Exec.{Exec, Result, ok, err}
use prxref.Gate.Store.Rows.{Store}
use prxref.Gate.World.{
  Fault, ReplyBody, Outcome, returned, raised, ApiRequest, get_pull, get_check_runs, get_reviews,
  get_comments, Step, sent, renewed, World, Outside, Act, give, throw, outcome, after, ◌>>=◌,
  attempt, stored, at_store, request, retry, send, reply_of, is_unauthorized,
}

-- The calls that change something: POST and PATCH.
unfoldable pub is_write : ApiRequest → Bool
is_write (get_pull repo n) = false
is_write (get_check_runs repo sha) = false
is_write (get_reviews repo n) = false
is_write (get_comments repo n page) = false
is_write _ = true

module _ (env : Outside) where
  -- The lease was renewed, and no write after it reached GitHub: a write that was refused for its
  -- credential did not.
  unfoldable pub is_armed : List Step → Bool
  unfolding is_write
  is_armed [] = false
  is_armed (renewed ∷ h) = true
  is_armed (sent r ∷ h) =
      if is_write r then is_unauthorized (env.reply (sent r ∷ h)) && is_armed h else is_armed h

  -- Each write finds the lease renewed since the write before it.
  abbrev pub EachFenced : List Step → Type 0
  EachFenced [] = Unit {0}
  EachFenced (renewed ∷ h) = EachFenced h
  EachFenced (sent r ∷ h) = EachFenced h × (is_write r ≡ true → is_armed h ≡ true)

  abbrev ArmedIf : Bool → List Step → Type 0
  ArmedIf p h = p ≡ true → is_armed h ≡ true

  abbrev ArmedAfter : {A : Type 0} → Bool → Outcome A × World → Type 0
  ArmedAfter q (returned a, w) = ArmedIf q w.steps
  ArmedAfter q (raised f, w) = Unit {0}

  -- `m` keeps each write fenced; with `p` it may begin with a write, with `q` a write may follow
  -- where it returns.
  pub record Runs {A : Type 0} (p q : Bool) (m : Act A) : Type 0 where
    pub at :
        (w : World)
        → EachFenced w.steps
        → ArmedIf p w.steps
        → EachFenced (m w).1.steps × ArmedAfter q (m w)

  module _ {A : Type 0} where
    pub Runs-give : (p : Bool) (a : A) → Runs p p (give a)
    unfolding give
    Runs-give p a = record { at = λ w e h. (e, h) }

    pub Runs-throw : (p q : Bool) (f : Fault) → Runs p q (throw {A = A} f)
    unfolding throw
    Runs-throw p q f = record { at = λ w e h. (e, tt) }

    pub Runs-outcome : (p : Bool) (o : Outcome A) → Runs p p (outcome o)
    unfolding outcome
    Runs-outcome p (returned a) = record { at = λ w e h. (e, h) }
    Runs-outcome p (raised f) = record { at = λ w e h. (e, tt) }

    stored_runs :
        (p : Bool) (w : World) (r : Result A × Store)
        → EachFenced w.steps
        → ArmedIf p w.steps
        → EachFenced (stored w r).1.steps × ArmedAfter p (stored w r)
    unfolding stored
    stored_runs p w (ok a, s) e h = (e, h)
    stored_runs p w (err f, s) e h = (e, tt)

    pub Runs-at_store : (p : Bool) (m : ℕ → ℕ → Exec Store A) → Runs p p (at_store env m)
    unfolding at_store
    Runs-at_store p m = record { at = λ w. stored_runs p w _ }

    pub Runs-if :
        (p q b : Bool) (m n : Act A) → Runs p q m → Runs p q n → Runs p q (if b then m else n)
    Runs-if p q true m n k l = k
    Runs-if p q false m n k l = l

    less_after : (q : Bool) (r : Outcome A × World) → ArmedAfter true r → ArmedAfter q r
    less_after q (returned a, w) h = λ _. h refl
    less_after q (raised f, w) h = tt

    -- What asks for nothing may run where more is given.
    pub Runs-anywhere : (p q : Bool) (m : Act A) → Runs false q m → Runs p q m
    Runs-anywhere p q m k = record { at = λ w e h. k.at w e (λ x. absurd (cc)) }

    pub Runs-forget : (p q : Bool) (m : Act A) → Runs p true m → Runs p q m
    Runs-forget p q m k = record {
      at = λ w e h. let x = k.at w e h in (x.0, less_after q (m w) x.1);
    }

  module _ {A B : Type 0} where
    after-Runs :
        (q s : Bool) (k : A → Act B) (h : Fault → Act B) (r : Outcome A × World)
        → ((a : A) → Runs q s (k a))
        → ((f : Fault) → Runs false s (h f))
        → EachFenced r.1.steps
        → ArmedAfter q r
        → EachFenced (after k h r).1.steps × ArmedAfter s (after k h r)
    after-Runs q s k h (returned a, w) c d e x = (c a).at w e x
    after-Runs q s k h (raised f, w) c d e x = (d f).at w e (λ y. absurd (cc))

    pub Runs-bind :
        (p q s : Bool) (m : Act A) (k : A → Act B)
        → Runs p q m
        → ((a : A) → Runs q s (k a))
        → Runs p s (m >>= k)
    unfolding ◌>>=◌
    Runs-bind p q s m k c d = record {
      at = λ w e h.
          let x = c.at w e h in after-Runs q s k throw (m w) d (λ f. Runs-throw false s f) x.0 x.1;
    }

    pub Runs-attempt :
        (p q s : Bool) (m : Act A) (k : A → Act B) (h : Fault → Act B)
        → Runs p q m
        → ((a : A) → Runs q s (k a))
        → ((f : Fault) → Runs false s (h f))
        → Runs p s (attempt m k h)
    unfolding attempt
    Runs-attempt p q s m k h c d l = record {
      at = λ w e y. let x = c.at w e y in after-Runs q s k h (m w) d l x.0 x.1;
    }

  module _ {A B : Type 0} (m : Act A) (k : A → Act B) where
    pub Runs-same : (p : Bool) → Runs p p m → ((a : A) → Runs p p (k a)) → Runs p p (m >>= k)
    Runs-same p = Runs-bind p p p m k

    pub Runs-write_then :
        Runs true false m → ((a : A) → Runs false false (k a)) → Runs true false (m >>= k)
    Runs-write_then = Runs-bind true false false m k

    pub Runs-read_then :
        Runs true true m → ((a : A) → Runs true false (k a)) → Runs true false (m >>= k)
    Runs-read_then = Runs-bind true true false m k

    pub Runs-fence_then :
        Runs false true m → ((a : A) → Runs true false (k a)) → Runs false false (m >>= k)
    Runs-fence_then = Runs-bind false true false m k

    module _ (h : Fault → Act B) where
      pub Runs-try :
          Runs false false m
          → ((a : A) → Runs false false (k a))
          → ((f : Fault) → Runs false false (h f))
          → Runs false false (attempt m k h)
      Runs-try = Runs-attempt false false false m k h

      pub Runs-try_write :
          Runs true false m
          → ((a : A) → Runs false false (k a))
          → ((f : Fault) → Runs false false (h f))
          → Runs true false (attempt m k h)
      Runs-try_write = Runs-attempt true false false m k h

  pub Runs-later : {A : Type 0} (m : Act A) → Runs false false m → Runs true false m
  Runs-later m = Runs-anywhere true false m

  received_runs :
      (q : Bool) (o : Outcome ReplyBody) (w : World)
      → EachFenced w.steps
      → ArmedIf q w.steps
      → EachFenced w.steps × ArmedAfter {A = ReplyBody} q (o, w)
  received_runs q (returned b) w e h = (e, h)
  received_runs q (raised f) w e h = (e, tt)

  after_refusal :
      (r : ApiRequest) (h : List Step)
      → is_unauthorized (env.reply (sent r ∷ h)) ≡ true
      → is_armed h ≡ true
      → is_armed (sent r ∷ h) ≡ true
  unfolding is_armed
  after_refusal r h u a = ground arith

  after_read :
      (r : ApiRequest) (h : List Step) → is_write r ≡ false → is_armed (sent r ∷ h) ≡ is_armed h
  unfolding is_armed
  after_read r h no_write = rw no_write refl

  -- A write, and its retry after a 401.
  pub Runs-request : (r : ApiRequest) → Runs true false (request env r)
  unfolding request send retry reply_of
  Runs-request r = record {
    at = λ w e h. elim (Bool-cases (is_unauthorized (env.reply (sent r ∷ w.steps)))) [
      | inl u ↦
          rw (u, request)
            (received_runs false _ (record w { steps = sent r ∷ sent r ∷ w.steps })
              ((e, λ _. h refl), λ _. after_refusal r w.steps u (h refl)) (λ x. absurd (cc)))
      | inr u ↦
          rw (u, request)
            (received_runs false _ (record w { steps = sent r ∷ w.steps }) (e, λ _. h refl)
              (λ x. absurd (cc)))
    ];
  }

  pub Runs-read : (p : Bool) (r : ApiRequest) → is_write r ≡ false → Runs p p (request env r)
  unfolding request send retry reply_of
  Runs-read p r no_write = record {
    at = λ w e h. elim (Bool-cases (is_unauthorized (env.reply (sent r ∷ w.steps)))) [
      | inl u ↦
          rw (u, request)
            (received_runs p _ (record w { steps = sent r ∷ sent r ∷ w.steps })
              ((e, λ x. absurd (cc)), λ x. absurd (cc))
              (λ x. after_read r (sent r ∷ w.steps) no_write ∙ after_read r w.steps no_write ∙ h x))
      | inr u ↦
          rw (u, request)
            (received_runs p _ (record w { steps = sent r ∷ w.steps }) (e, λ x. absurd (cc))
              (λ x. after_read r w.steps no_write ∙ h x))
    ];
  }
