-- ===== src/Gate/Store/History.antt =====
-- The invariant of the database and what a method may do to it: `Advances`.
use prxref.Base.{ℕ, suc, ◌≡◌, refl, Bool, some, arith}
use prxref.Gate.Exec.{ok}
use prxref.Gate.Exec.Keeps.{IsOrder, Leads, Leads-gets, Leads-bind, Leads-guard}
use prxref.Gate.Store.Rows.{Generation, Store, find_id}
use prxref.Gate.Store.Fence.{update, fence, get}
use prxref.Gate.Store.Table.{
  Moves, Moves-refl, Moves-trans, IsUpdate, Ordered, QueuedNewest, update_where-Moves,
  update_where-Ordered, update_where-QueuedNewest,
}

-- Ids are below the counter and fall along the table, `gen` grows with each insert of a PR, and
-- every queued row is its PR's newest.
pub record IsValid (s : Store) : Type 0 where
  pub ordered : Ordered (suc s.seq) s.generations
  pub queued_newest : QueuedNewest s.generations s.generations

-- No row is lost, and each has moved.
pub record Evolves (s t : Store) : Type 0 where
  pub rows :
      (i : ℕ) (g : Generation)
      → find_id i s.generations ≡ some g
      → (h : Generation) × (find_id i t.generations ≡ some h) × Moves g h

pub record Kept (s t : Store) : Type 0 where
  pub valid : IsValid t
  pub evolves : Evolves s t

abbrev pub Advances : Store → Store → Type 0
Advances s t = IsValid s → Kept s t

pub Evolves-refl : (s : Store) → Evolves s s
Evolves-refl s = record { rows = λ i g e. (g, e, Moves-refl g) }

pub Evolves-trans : {s t u : Store} → Evolves s t → Evolves t u → Evolves s u
Evolves-trans f k = record {
  rows = λ i g e.
      let (h, p, m) = f.rows i g e in let (x, q, n) = k.rows i h p in (x, q, Moves-trans m n);
}

pub Advances-order : IsOrder Advances
Advances-order = record {
  stay = λ s v. record { valid = v; evolves = Evolves-refl s };
  chain = λ s t u f k v.
      let a = f v in
      let b = k a.valid in record { valid = b.valid; evolves = Evolves-trans a.evolves b.evolves };
}

-- A change that leaves `generations` and the counter alone.
pub same_rows : (s t : Store) → t.generations ≡ s.generations → t.seq ≡ s.seq → Advances s t
same_rows s t e c v = record {
  valid = record { ordered = rw (e, c) v.ordered; queued_newest = rw e v.queued_newest };
  evolves = record { rows = λ i g p. (g, rw e p, Moves-refl g) };
}

pub update-Advances :
    (p : Generation → Bool) (set : Generation → Generation)
    → IsUpdate p set
    → Leads Advances (update p set)
unfolding update
update-Advances p set u = record {
  at = λ s v. record {
    valid = record {
      ordered = update_where-Ordered p set u.moves (suc s.seq) s.generations v.ordered;
      queued_newest = update_where-QueuedNewest p set u s.generations v.queued_newest;
    };
    evolves = record { rows = λ i g e. update_where-Moves p set u.moves i s.generations g e };
  };
}

pub fence-Advances : (token now : ℕ) → Leads Advances (fence token now)
unfolding fence
fence-Advances token now =
    Leads-bind Advances-order _ _ (Leads-gets Advances-order _)
      (λ b. Leads-guard Advances-order b _)

pub get_same : (i : ℕ) (s : Store) → (get i s).1 ≡ s
unfolding get
get_same i s = ground arith

-- `get` on a row that is there.
pub get_found :
    (i : ℕ) (s : Store) (g : Generation) → find_id i s.generations ≡ some g → get i s ≡ (ok g, s)
unfolding get
get_found i s g e = rw (e, get) refl

pub get-Advances : (i : ℕ) → Leads Advances (get i)
get-Advances i = record { at = λ s. rw get_same (Advances-order.stay s) }
