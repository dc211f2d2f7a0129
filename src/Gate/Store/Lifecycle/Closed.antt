-- ===== src/Gate/Store/Lifecycle/Closed.antt =====
-- Rows that `finish` of src/prxref/gate/store.py closed, and that stay closed.
use prxref.Base.{
  ℕ, String, ◌≡◌, ◌≢◌, subst, refl, sym, ap, ◌∙◌, Bool, true, false, Option, none, some, List, [],
  ◌∷◌, arith, Bool-cases, Option-cases, inl, inr, count_where,
}
use prxref.Gate.Exec.{Result, ok, err, tx, settle, ◌>>=◌, continue, guard}
use prxref.Gate.Store.Rows.{State, Generation, Store, is_final, is_live, find_id}
use prxref.Gate.Store.Fence.{update, is_fenced, fence, get}
use prxref.Gate.Store.Generations.{start, finish}
use prxref.Gate.Store.History.{IsValid, Advances}
use prxref.Gate.Store.Lifecycle.{with_id, finish_lem, finish_row, finish_rows, finished}

-- The row with this id has this state, in which it is neither queued nor in progress.
pub record Closed (i : ℕ) (st : State) (s : Store) : Type 0 where
  pub row : Generation
  pub found : find_id i s.generations ≡ some row
  pub is : row.state ≡ st
  pub ended : is_live st ≡ false

pub Closed-Advances :
    (i : ℕ) (st : State) (s t : Store) → IsValid s → Advances s t → Closed i st s → Closed i st t
Closed-Advances i st s t v a c =
    let (h, found, m) = (a v).evolves.rows i c.row c.found in
    record {
      row = h;
      found = found;
      is = ap (λ (g : Generation). g.state) (m.frozen (rw c.is c.ended)) ∙ c.is;
      ended = c.ended;
    }

count_missing :
    (i : ℕ) (p : Generation → Bool) (gs : List Generation)
    → find_id i gs ≡ none
    → count_where (with_id i p) gs ≡ 0
unfolding count_where find_id
count_missing i p [] e = refl
count_missing i p (g ∷ gs) e = ground (arith, count_missing i p gs)

final_ended : (o : State) → is_final o ≡ true → is_live o ≡ false
unfolding is_final is_live
final_ended o h = ground arith

module _ (i token : ℕ) (o : State) (c e : Option String) (t now : ℕ) (s : Store) where
  finish_missing : find_id i s.generations ≡ none → (finish i token o c e t now s).0 ≢ ok tt
  unfolding finish ◌>>=◌ tx settle update guard fence
  finish_missing gone done = elim (Bool-cases (is_final o)) [
    | inl f ↦ elim (Bool-cases (is_fenced token t s.worker)) [
      | inl l ↦ ground (arith, count_missing i (λ x. is_live x.state) s.generations)
      | inr l ↦ ground arith
    ]
    | inr f ↦ ground arith
  ]

  finish_present :
      (g : Generation)
      → IsValid s
      → find_id i s.generations ≡ some g
      → (finish i token o c e t now s).0 ≡ ok tt
      → Closed i o (finish i token o c e t now s).1
  finish_present g v there done =
      let lem = finish_lem i token o c e t now s g v there in
      elim (Bool-cases (is_final o)) [
        | inl f ↦ elim (Bool-cases (is_fenced token t s.worker)) [
          | inl l ↦ elim (Bool-cases (is_live g.state)) [
            | inl q ↦
                let whole : finish i token o c e t now s
                    ≡ (ok tt, finish_rows i token o c e t now s g v there) =
                  lem ∙ rw (f, l, q) refl in
                subst (λ (r : Result (Unit {0}) × Store). Closed i o r.1) (sym whole)
                  (record {
                    row = finished i token o c e t now s g v there g;
                    found = finish_row i token o c e t now s g v there q;
                    is = refl;
                    ended = final_ended o f;
                  })
            | inr q ↦ absurd (ground (arith, lem))
          ]
          | inr l ↦ absurd (ground (arith, lem))
        ]
        | inr f ↦ absurd (ground (arith, lem))
      ]

  -- Where `finish` returns, the row is there and has the outcome.
  pub finish-Closed :
      IsValid s
      → (finish i token o c e t now s).0 ≡ ok tt
      → Closed i o (finish i token o c e t now s).1
  finish-Closed v done = elim (Option-cases (find_id i s.generations)) [
    | inl gone ↦ absurd (finish_missing gone done)
    | inr (g, there) ↦ finish_present g v there done
  ]

pub find_id-id : (n : ℕ) (gs : List Generation) (g : Generation) → find_id n gs ≡ some g → g.id ≡ n
unfolding find_id
find_id-id n [] g h = absurd (ground arith)
find_id-id n (x ∷ gs) g h = ground (arith, find_id-id n gs g)

-- `get` and `start` return the row with the id that they are called with.
pub get-id : (n : ℕ) (s : Store) (g : Generation) → (get n s).0 ≡ ok g → g.id ≡ n
unfolding get
get-id n s g h = elim (Option-cases (find_id n s.generations)) [
  | inl gone ↦ absurd (ground arith)
  | inr (x, there) ↦ find_id-id n s.generations g (ground arith)
]

start_continues :
    (n : ℕ) (r : Result (Unit {0}) × Store) (g : Generation)
    → (continue (λ _. get n) r).0 ≡ ok g
    → g.id ≡ n
start_continues n (ok a, s) g h = get-id n s g h
start_continues n (err e, s) g h = absurd (ground arith)

pub start-id :
    (n token t now : ℕ) (s : Store) (g : Generation) → (start n token t now s).0 ≡ ok g → g.id ≡ n
unfolding start ◌>>=◌
start-id n token t now s g h = start_continues n _ g h
