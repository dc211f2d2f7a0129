-- ===== src/Gate/Publisher/Adding.antt =====
-- What the actions of the worker add to the history of requests.
use prxref.Base.{
  ℕ, Bool, true, false, Option, none, some, List, [], ◌∷◌, if◌then◌else◌, Bool-cases, inl, inr,
}
use prxref.Base.Text.{Text}
use prxref.Gate.Exec.{Exec, Result, ok, err}
use prxref.Gate.Store.Rows.{Generation, Store}
use prxref.Gate.Checks.{Patch, Conclusion}
use prxref.Gate.World.{
  Fault, Annotation, Outcome, returned, raised, ApiRequest, sent, World, Outside, Act, give, throw,
  outcome, after, ◌>>=◌, attempt, stored, at_store, request, retry, send, reply_of, is_unauthorized,
}
use prxref.Gate.Publisher.{Lease, mark_renewed, renewal}
use prxref.Gate.Publisher.Check.{
  renew, fence_write, find_check, post_check, post_missing_check, recover_check, create_check,
  send_patches, close_check_run, read_row,
}
use prxref.Gate.Publisher.Looks.{EachLooked}

module _ (env : Outside) (g : Generation) where
  abbrev pub Looked : World → Type 0
  Looked w = EachLooked env g w.steps

  -- What `m` sends comes after what was sent, and takes nothing back.
  pub record Adds {A : Type 0} (m : Act A) : Type 0 where
    pub at : (w : World) → Looked (m w).1 → Looked w

  module _ {A : Type 0} where
    pub Adds-give : (a : A) → Adds (give a)
    unfolding give
    Adds-give a = record { at = λ w e. e }

    pub Adds-throw : (f : Fault) → Adds (throw {A = A} f)
    unfolding throw
    Adds-throw f = record { at = λ w e. e }

    pub Adds-outcome : (o : Outcome A) → Adds (outcome o)
    unfolding outcome
    Adds-outcome o = record { at = λ w e. e }

    stored_adds : (w : World) (r : Result A × Store) → Looked (stored w r).1 → Looked w
    unfolding stored
    stored_adds w (ok a, s) e = e
    stored_adds w (err f, s) e = e

    pub Adds-at_store : (m : ℕ → ℕ → Exec Store A) → Adds (at_store env m)
    unfolding at_store
    Adds-at_store m = record { at = λ w. stored_adds w _ }

  module _ {A B : Type 0} where
    pub after-Adds :
        (k : A → Act B) (h : Fault → Act B) (r : Outcome A × World)
        → ((a : A) → Adds (k a))
        → ((f : Fault) → Adds (h f))
        → Looked (after k h r).1
        → Looked r.1
    after-Adds k h (returned a, w) p q e = (p a).at w e
    after-Adds k h (raised f, w) p q e = (q f).at w e

    pub Adds-bind : (m : Act A) (k : A → Act B) → Adds m → ((a : A) → Adds (k a)) → Adds (m >>= k)
    unfolding ◌>>=◌
    Adds-bind m k c p = record { at = λ w e. c.at w (after-Adds k throw (m w) p Adds-throw e) }

    Adds-attempt :
        (m : Act A) (k : A → Act B) (h : Fault → Act B)
        → Adds m
        → ((a : A) → Adds (k a))
        → ((f : Fault) → Adds (h f))
        → Adds (attempt m k h)
    unfolding attempt
    Adds-attempt m k h c p q = record { at = λ w e. c.at w (after-Adds k h (m w) p q e) }

  Adds-if : {A : Type 0} (b : Bool) (m n : Act A) → Adds m → Adds n → Adds (if b then m else n)
  Adds-if true m n p q = p
  Adds-if false m n p q = q

  Adds-request : (r : ApiRequest) → Adds (request env r)
  unfolding request send retry reply_of
  Adds-request r = record {
    at = λ w e. elim (Bool-cases (is_unauthorized (env.reply (sent r ∷ w.steps)))) [
      | inl u ↦ ((rw (u, request) at e).0).0
      | inr u ↦ (rw (u, request) at e).0
    ];
  }

  mark_renewed-Adds : Adds mark_renewed
  unfolding mark_renewed
  mark_renewed-Adds = record { at = λ w e. e }

  ruleset adding = (
    Adds-give, Adds-throw, Adds-outcome, Adds-at_store, Adds-bind, Adds-attempt, Adds-if,
    Adds-request,
  )

  fence-Adds : (lease : Lease) → Adds (fence_write env lease none)
  unfolding fence_write renew renewal
  fence-Adds lease = search (adding, mark_renewed-Adds) depth 9

  post_check-Adds : (x : Generation) → Adds (post_check env x)
  unfolding post_check
  post_check-Adds x = search adding depth 9

  find_check-Adds : (x : Generation) → Adds (find_check env x)
  unfolding find_check
  find_check-Adds x = search adding depth 9

  post_missing-Adds :
      (lease : Lease) (x : Generation) (i : Option ℕ) → Adds (post_missing_check env lease none x i)
  unfolding post_missing_check
  post_missing-Adds lease x (some i) = Adds-give i
  post_missing-Adds lease x none = search (adding, fence-Adds, post_check-Adds) depth 9

  -- What `create_check` does after its POST was answered.
  pub recover_check-Adds :
      (lease : Lease) (x : Generation) (f : Fault) → Adds (recover_check env lease none x f)
  unfolding recover_check
  recover_check-Adds lease x f = search (adding, find_check-Adds, post_missing-Adds) depth 9

  create_check-Adds : (lease : Lease) (x : Generation) → Adds (create_check env lease none x)
  unfolding create_check
  create_check-Adds lease x = search (adding, post_check-Adds, recover_check-Adds) depth 9

  send_patches-Adds :
      (x : Generation) (lease : Lease) (title summary : Text) (ps : List (Patch Annotation))
      → Adds (send_patches env x lease none title summary ps)
  unfolding send_patches
  send_patches-Adds x lease title summary [] = Adds-give tt
  send_patches-Adds x lease title summary (p ∷ ps) =
      Adds-bind _ _ (fence-Adds lease)
        λ _. Adds-bind _ _ (Adds-request _) λ _. send_patches-Adds x lease title summary ps

  pub close_check_run-Adds :
      (x : Generation) (lease : Lease) (c : Conclusion) (title summary : Text)
      (notes : List Annotation)
      → Adds (close_check_run env x lease none c title summary notes)
  unfolding close_check_run
  close_check_run-Adds x lease c title summary notes = send_patches-Adds x lease title summary _

  pub read_row-Adds : (i : ℕ) → Adds (read_row env i)
  unfolding read_row
  read_row-Adds i = Adds-at_store _
  -- `m` breaks the rule of `EachLooked` where a POST of the check may have landed before.
