-- ===== src/Gate/Publisher/Looks.antt =====
-- Actions of the worker that create a check run only after a look that did not find it.
use prxref.Base.{
  ℕ, ◌≡◌, refl, Bool, true, false, not, ◌&&◌, ◌||◌, List, [], ◌∷◌, if◌then◌else◌, Bool-cases, inl,
  inr, is_some, str_eq,
}
use prxref.Base.Text.{text_eq}
use prxref.Gate.Exec.{Exec, Result, ok, err}
use prxref.Gate.Store.Rows.{Generation, Store}
use prxref.Gate.World.{
  Fault, ReplyBody, CheckRun, Outcome, returned, raised, ApiRequest, post_check_run, get_check_runs,
  Http, Step, sent, renewed, World, Outside, Act, give, throw, outcome, after, ◌>>=◌, attempt,
  stored, at_store, request, retry, send, reply_of, received, is_unauthorized,
}
use prxref.Gate.Publisher.{listed_runs, own_run, external_text}

-- The request creates the check of this generation.
unfoldable pub is_create : Generation → ApiRequest → Bool
is_create g (post_check_run repo sha ext) =
    str_eq repo g.repo && str_eq sha g.head_sha && text_eq ext (external_text g)
is_create g _ = false

-- The request lists the checks of its head.
unfoldable pub is_lookup : Generation → ApiRequest → Bool
is_lookup g (get_check_runs repo sha) = str_eq repo g.repo && str_eq sha g.head_sha
is_lookup g _ = false

unfoldable pub listed_none : Generation → Outcome (List CheckRun) → Bool
listed_none g (returned l) = not (is_some (own_run (external_text g) l))
listed_none g (raised f) = false

unfoldable pub body_lists_none : Generation → Outcome ReplyBody → Bool
body_lists_none g (returned b) = listed_none g (listed_runs b)
body_lists_none g (raised f) = false

-- The reply lists checks, and not this one.
unfoldable pub lists_none : Generation → Http → Bool
unfolding body_lists_none listed_none
lists_none g h = body_lists_none g (received h)

module _ (env : Outside) (g : Generation) where
  -- No request that may have created the check, since its last look that did not find it. One that
  -- was refused for its credential did not create it.
  unfoldable pub is_fresh : List Step → Bool
  is_fresh [] = true
  is_fresh (renewed ∷ h) = is_fresh h
  is_fresh (sent r ∷ h) =
      if is_create g r
      then is_unauthorized (env.reply (sent r ∷ h)) && is_fresh h
      else if is_lookup g r
      then lists_none g (env.reply (sent r ∷ h)) || is_fresh h
      else is_fresh h

  -- Each request that creates the check finds that none may have.
  abbrev pub EachLooked : List Step → Type 0
  EachLooked [] = Unit {0}
  EachLooked (renewed ∷ h) = EachLooked h
  EachLooked (sent r ∷ h) = EachLooked h × (is_create g r ≡ true → is_fresh h ≡ true)

  abbrev FreshIf : Bool → List Step → Type 0
  FreshIf p h = p ≡ true → is_fresh h ≡ true

  abbrev FreshAfter : {A : Type 0} → (A → Bool) → Outcome A × World → Type 0
  FreshAfter q (returned a, w) = FreshIf (q a) w.steps
  FreshAfter q (raised f, w) = Unit {0}

  -- With `p` the action `m` may begin by creating the check; with `q` of what it returns, what
  -- follows may.
  pub record Looks {A : Type 0} (p : Bool) (q : A → Bool) (m : Act A) : Type 0 where
    pub at :
        (w : World)
        → EachLooked w.steps
        → FreshIf p w.steps
        → EachLooked (m w).1.steps × FreshAfter q (m w)

  module _ {A : Type 0} where
    pub Looks-give : (q : A → Bool) (a : A) → Looks (q a) q (give a)
    unfolding give
    Looks-give q a = record { at = λ w e h. (e, h) }

    pub Looks-throw : (p : Bool) (q : A → Bool) (f : Fault) → Looks p q (throw f)
    unfolding throw
    Looks-throw p q f = record { at = λ w e h. (e, tt) }

    stored_looks :
        (p : Bool) (w : World) (r : Result A × Store)
        → EachLooked w.steps
        → FreshIf p w.steps
        → EachLooked (stored w r).1.steps × FreshAfter (λ _. p) (stored w r)
    unfolding stored
    stored_looks p w (ok a, s) e h = (e, h)
    stored_looks p w (err f, s) e h = (e, tt)

    pub Looks-at_store : (p : Bool) (m : ℕ → ℕ → Exec Store A) → Looks p (λ _. p) (at_store env m)
    unfolding at_store
    Looks-at_store p m = record { at = λ w. stored_looks p w _ }

    pub Looks-outcome : (p : Bool) (o : Outcome A) → Looks p (λ _. p) (outcome o)
    unfolding outcome
    Looks-outcome p (returned a) = record { at = λ w e h. (e, h) }
    Looks-outcome p (raised f) = record { at = λ w e h. (e, tt) }

  module _ {A B : Type 0} where
    after-Looks :
        (p : A → Bool) (q : B → Bool) (k : A → Act B) (h : Fault → Act B) (r : Outcome A × World)
        → ((a : A) → Looks (p a) q (k a))
        → ((f : Fault) → Looks false q (h f))
        → EachLooked r.1.steps
        → FreshAfter p r
        → EachLooked (after k h r).1.steps × FreshAfter q (after k h r)
    after-Looks p q k h (returned a, w) c d e x = (c a).at w e x
    after-Looks p q k h (raised f, w) c d e x = (d f).at w e (λ y. absurd (cc))

    pub Looks-bind :
        (o : Bool) (p : A → Bool) (q : B → Bool) (m : Act A) (k : A → Act B)
        → Looks o p m
        → ((a : A) → Looks (p a) q (k a))
        → Looks o q (m >>= k)
    unfolding ◌>>=◌
    Looks-bind o p q m k c d = record {
      at = λ w e h.
          let x = c.at w e h in
          after-Looks p q k throw (m w) d (λ f. Looks-throw false q f) x.0 x.1;
    }

    pub Looks-attempt :
        (o : Bool) (p : A → Bool) (q : B → Bool) (m : Act A) (k : A → Act B) (h : Fault → Act B)
        → Looks o p m
        → ((a : A) → Looks (p a) q (k a))
        → ((f : Fault) → Looks false q (h f))
        → Looks o q (attempt m k h)
    unfolding attempt
    Looks-attempt o p q m k h c d l = record {
      at = λ w e y. let x = c.at w e y in after-Looks p q k h (m w) d l x.0 x.1;
    }

  -- One request: what its first sending needs, its second after a 401, and what its reply allows.
  module _ (p : Bool) (q : ReplyBody → Bool) (r : ApiRequest)
      (first : (h : List Step) → FreshIf p h → is_create g r ≡ true → is_fresh h ≡ true)
      (again : (h : List Step)
        → is_unauthorized (env.reply (sent r ∷ h)) ≡ true
        → FreshIf p h
        → FreshIf p (sent r ∷ h))
      (last : (h : List Step) (b : ReplyBody)
        → received (env.reply (sent r ∷ h)) ≡ returned b
        → FreshIf p h
        → FreshIf (q b) (sent r ∷ h)) where
    received_looks :
        (o : Outcome ReplyBody) (w : World) (h : List Step)
        → EachLooked (sent r ∷ h)
        → received (env.reply (sent r ∷ h)) ≡ o
        → FreshIf p h
        → EachLooked (sent r ∷ h)
          × FreshAfter {A = ReplyBody} q (o, record w { steps = sent r ∷ h })
    received_looks (returned b) w h e is f = (e, last h b is f)
    received_looks (raised f) w h e is _ = (e, tt)

    pub Looks-request : Looks p q (request env r)
    unfolding request send retry reply_of
    Looks-request = record {
      at = λ w e h. elim (Bool-cases (is_unauthorized (env.reply (sent r ∷ w.steps)))) [
        | inl u ↦
            rw (u, request)
              (received_looks _ w (sent r ∷ w.steps)
                ((e, first w.steps h), first (sent r ∷ w.steps) (again w.steps u h)) refl
                (again w.steps u h))
        | inr u ↦ rw (u, request) (received_looks _ w w.steps (e, first w.steps h) refl h)
      ];
    }
