-- ===== src/Triage/Plan/Places.antt =====
-- The indices that the placement pass of `plan_chunks` of src/prxref/triage.py chooses are those of
-- chunks, and what a round does is one of two things.
use prxref.Base.{
  ℕ, zero, suc, ◌+◌, ◌<◌, ◌≤◌, Bool, true, ◌&&◌, ◌≡◌, refl, sym, subst, Option, none, some, List,
  [], ◌∷◌, ◌++◌, arith, ltb, length, Bool-cases, Option-cases, ◌⊎◌, inl, inr, &&-parts, ltb→lt,
}
use prxref.Triage.Diff.{FileDiff}
use prxref.Triage.Plan.{
  Chunk, Limits, has_room, affinity, best_chunk, smallest, smallest_from, put_at, open_chunk,
  Placement, add_path, overflow, place, place_all,
}

-- There is a chunk at the index, and it has the property.
abbrev pub At : (Chunk → Type 0) → ℕ → List Chunk → Type 0
At P k [] = ⊥
At P zero (c ∷ cs) = P c
At P (suc k) (c ∷ cs) = At P k cs

pub At-length : (P : Chunk → Type 0) (k : ℕ) (cs : List Chunk) → At P k cs → k < length cs
At-length P k [] a = elim a [ ]
At-length P zero (c ∷ cs) a = omega arith
At-length P (suc k) (c ∷ cs) a = omega (arith, At-length P k cs a)

abbrev pub HasRoom : Limits → FileDiff → Chunk → Type 0
HasRoom limits f c = has_room limits f c ≡ true

-- The chunk is there, whatever it is.
abbrev pub Exists : Chunk → Type 0
Exists c = Unit

abbrev Found : Limits → FileDiff → ℕ → Option (ℕ × ℕ) → List Chunk → ℕ → ℕ → Type 0
Found limits f i found cs k a =
    (found ≡ some (k, a)) ⊎ ((j : ℕ) × (k ≡ i + j) × At (HasRoom limits f) j cs)

Found-next :
    (limits : Limits) (f : FileDiff) (i : ℕ) (found : Option (ℕ × ℕ)) (c : Chunk) (cs : List Chunk)
    (k a : ℕ)
    → Found limits f (i + 1) found cs k a
    → Found limits f i found (c ∷ cs) k a
Found-next limits f i found c cs k a (inl e) = inl e
Found-next limits f i found c cs k a (inr (j, e, h)) = inr (suc j, omega (arith, e), h)

Found-here :
    (limits : Limits) (f : FileDiff) (i b : ℕ) (found : Option (ℕ × ℕ)) (c : Chunk)
    (cs : List Chunk) (k a : ℕ)
    → has_room limits f c ≡ true
    → Found limits f (i + 1) (some (i, b)) cs k a
    → Found limits f i found (c ∷ cs) k a
Found-here limits f i b found c cs k a r (inl e) = inr (0, ground arith, r)
Found-here limits f i b found c cs k a r (inr (j, e, h)) = inr (suc j, omega (arith, e), h)

-- What the search answers is the best so far or a chunk ahead that has room.
best_chunk-Found :
    (limits : Limits) (f : FileDiff) (i : ℕ) (found : Option (ℕ × ℕ)) (cs : List Chunk) (k a : ℕ)
    → best_chunk limits f i found cs ≡ some (k, a)
    → Found limits f i found cs k a
unfolding best_chunk
best_chunk-Found limits f i found [] k a e = inl e
best_chunk-Found limits f i found (c ∷ cs) k a e =
    let d = affinity f c.files in
    let better : Bool = elim found [ none ↦ true | some (j, b) ↦ ltb b d ] in
    elim (Bool-cases (has_room limits f c && better)) [
      | inl t ↦
          Found-here limits f i d found c cs k a ((&&-parts _ better t).0)
            (best_chunk-Found limits f (i + 1) (some (i, d)) cs k a (ground arith))
      | inr t ↦
          Found-next limits f i found c cs k a
            (best_chunk-Found limits f (i + 1) found cs k a (ground arith))
    ]

pub best_chunk-At :
    (limits : Limits) (f : FileDiff) (cs : List Chunk) (k a : ℕ)
    → best_chunk limits f 0 none cs ≡ some (k, a)
    → At (HasRoom limits f) k cs
best_chunk-At limits f cs k a e = elim (best_chunk-Found limits f 0 none cs k a e) [
  | inl n ↦ ground arith
  | inr (j, h, at) ↦ subst (λ n. At (HasRoom limits f) n cs) (sym (omega (arith, h))) at
]

-- The first chunk of all is not passed over by an index out of range.
smallest_from-length :
    (best tokens i : ℕ) (cs : List Chunk)
    → best < i
    → smallest_from best tokens i cs < i + length cs
unfolding smallest_from
smallest_from-length best tokens i [] h = omega arith
smallest_from-length best tokens i (c ∷ cs) h = ground (
  arith,
  smallest_from-length i c.tokens (i + 1) cs (omega arith),
  smallest_from-length best tokens (i + 1) cs (omega arith),
)

pub smallest-length : (cs : List Chunk) (k : ℕ) → smallest cs ≡ some k → k < length cs
unfolding smallest
smallest-length [] k e = ground arith
smallest-length (c ∷ cs) k e = ground (arith, smallest_from-length 0 c.tokens 1 cs (omega arith))

pub smallest-none : (cs : List Chunk) → smallest cs ≡ none → cs ≡ []
unfolding smallest
smallest-none [] e = refl
smallest-none (c ∷ cs) e = ground arith

-- What a round may do: put the file into a chunk that has room, open a chunk while there are fewer
-- than `max_chunks`, or put it into a chunk although none has room.
pub data Placed (limits : Limits) (f : FileDiff) (p : Placement) : Placement → Type 0 where
  fits :
      (k : ℕ)
      → At (HasRoom limits f) k p.chunks
      → Placed limits f p (record p { chunks = put_at k f p.chunks })
  opens :
      length p.chunks < limits.max_chunks
      → Placed limits f p (record p { chunks = p.chunks ++ open_chunk f ∷ [] })
  overflows :
      (k : ℕ)
      → k < length p.chunks
      → Placed limits f p (record {
        chunks = put_at k f p.chunks;
        overflow_paths = add_path f.path p.overflow_paths;
      })

-- A round returns if one chunk may be opened.
pub place-Placed :
    (limits : Limits) (f : FileDiff) (p : Placement)
    → 1 ≤ limits.max_chunks
    → (q : Placement) × (place limits f p ≡ some q) × Placed limits f p q
unfolding place overflow
place-Placed limits f p m = elim (Option-cases (best_chunk limits f 0 none p.chunks)) [
  | inr ((k, a), e) ↦ (
    record p { chunks = put_at k f p.chunks },
    ground arith,
    fits k (best_chunk-At limits f p.chunks k a e),
  )
  | inl e ↦ elim (Bool-cases (ltb (length p.chunks) limits.max_chunks)) [
    | inl t ↦
        (record p { chunks = p.chunks ++ open_chunk f ∷ [] }, ground arith, opens (ltb→lt _ _ t))
    | inr t ↦ elim (Option-cases (smallest p.chunks)) [
      | inl s ↦ let absurd : ⊥ = ground (arith, smallest-none p.chunks s) in elim absurd [ ]
      | inr (k, s) ↦ (
        record { chunks = put_at k f p.chunks; overflow_paths = add_path f.path p.overflow_paths },
        ground arith,
        overflows k (smallest-length p.chunks k s),
      )
    ]
  ]
]

-- The loop goes on from what a round makes.
pub place_all-round :
    (limits : Limits) (f : FileDiff) (fs : List FileDiff) (a b : Placement)
    → place limits f a ≡ some b
    → place_all limits (f ∷ fs) a ≡ place_all limits fs b
unfolding place_all
place_all-round limits f fs a b e = rw (e, place_all) refl
