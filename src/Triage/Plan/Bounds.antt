-- ===== src/Triage/Plan/Bounds.antt =====
-- The limits that the placement pass of `plan_chunks` of src/prxref/triage.py keeps.
use prxref.Base.{
  ℕ, zero, suc, ◌+◌, ◌≤◌, ◌≡◌, refl, sym, ◌∙◌, subst, some, List, [], ◌∷◌, ◌++◌, arith, ltb, leb,
  length, length-append, ◌⊎◌, inl, inr, any, &&-parts, leb→le, ltb→lt, some_inj, All,
}
use prxref.Base.Text.{Text}
use prxref.Triage.Diff.{FileDiff}
use prxref.Triage.Pieces.{est_tokens, has_path}
use prxref.Triage.Plan.{
  Chunk, Limits, has_room, put_at, open_chunk, Placement, add_path, place_all, place_files,
  nothing_placed,
}
use prxref.Triage.Plan.Places.{
  At, HasRoom, Placed, fits, opens, overflows, place-Placed, place_all-round,
}

unfoldable pub sum_tokens : List FileDiff → ℕ
sum_tokens [] = 0
sum_tokens (f ∷ fs) = est_tokens f + sum_tokens fs

sum_tokens-append : (fs gs : List FileDiff) → sum_tokens (fs ++ gs) ≡ sum_tokens fs + sum_tokens gs
unfolding sum_tokens
sum_tokens-append [] gs = omega arith
sum_tokens-append (f ∷ fs) gs = omega (arith, sum_tokens-append fs gs)

-- Within the file cap, and within the budget unless one piece stands alone.
abbrev pub ChunkFits : Limits → Chunk → Type 0
ChunkFits limits c =
    (length c.files ≤ limits.max_files_per_chunk)
    × ((c.tokens ≤ limits.token_budget) ⊎ (length c.files ≡ 1))

-- The entry of `chunk_tokens` is the sum of the pieces' estimates.
abbrev pub Summed : Chunk → Type 0
Summed c = c.tokens ≡ sum_tokens c.files

abbrev pub PlacementFits : Limits → Placement → Type 0
PlacementFits limits p =
    (length p.chunks ≤ limits.max_chunks)
    × ((1 ≤ length p.overflow_paths) ⊎ All (ChunkFits limits) p.chunks)
    × All Summed p.chunks

length-put_at : (k : ℕ) (f : FileDiff) (cs : List Chunk) → length (put_at k f cs) ≡ length cs
unfolding put_at
length-put_at k f [] = refl
length-put_at zero f (c ∷ cs) = refl
length-put_at (suc k) f (c ∷ cs) = omega (arith, length-put_at k f cs)

Summed-put_at :
    (k : ℕ) (f : FileDiff) (cs : List Chunk) → All Summed cs → All Summed (put_at k f cs)
unfolding put_at sum_tokens
Summed-put_at k f [] h = h
Summed-put_at zero f (c ∷ cs) h = (omega (arith, h.0, sum_tokens-append c.files (f ∷ [])), h.1)
Summed-put_at (suc k) f (c ∷ cs) h = (h.0, Summed-put_at k f cs h.1)

ChunkFits-put_at :
    (limits : Limits) (k : ℕ) (f : FileDiff) (cs : List Chunk)
    → At (HasRoom limits f) k cs
    → All (ChunkFits limits) cs
    → All (ChunkFits limits) (put_at k f cs)
unfolding put_at has_room
ChunkFits-put_at limits k f [] a h = h
ChunkFits-put_at limits zero f (c ∷ cs) a h =
    let parts =
      &&-parts (leb (c.tokens + est_tokens f) limits.token_budget)
        (ltb (length c.files) limits.max_files_per_chunk) a in
    (
      (
        omega (arith, ltb→lt _ _ parts.1, length-append c.files (f ∷ [])),
        inl (omega (arith, leb→le _ _ parts.0)),
      ),
      h.1,
    )
ChunkFits-put_at limits (suc k) f (c ∷ cs) a h = (h.0, ChunkFits-put_at limits k f cs a h.1)

All-append {ℓ κ} :
    {A : Type ℓ} (P : A → Type κ) (xs ys : List A) → All P xs → All P ys → All P (xs ++ ys)
All-append P [] ys h k = k
All-append P (x ∷ xs) ys h k = (h.0, All-append P xs ys h.1 k)

add_path-length : (p : Text) (ps : List Text) → 1 ≤ length (add_path p ps)
unfolding add_path has_path any
add_path-length p [] = omega arith
add_path-length p (q ∷ ps) = ground (arith, length-append (q ∷ ps) (p ∷ []))

Placed-PlacementFits :
    (limits : Limits) (f : FileDiff) (a b : Placement)
    → 1 ≤ limits.max_files_per_chunk
    → Placed limits f a b
    → PlacementFits limits a
    → PlacementFits limits b
unfolding sum_tokens open_chunk
Placed-PlacementFits limits f a b m (fits k at) (n, h, s) = (
  omega (arith, n, length-put_at k f a.chunks),
  elim h [ inl o ↦ inl o | inr h ↦ inr (ChunkFits-put_at limits k f a.chunks at h) ],
  Summed-put_at k f a.chunks s,
)
Placed-PlacementFits limits f a b m (opens k) (n, h, s) = (
  omega (arith, k, length-append a.chunks (open_chunk f ∷ [])),
  elim h [
    | inl o ↦ inl o
    | inr h ↦ inr (All-append (ChunkFits limits) a.chunks _ h ((omega arith, inr refl), tt))
  ],
  All-append Summed a.chunks _ s (omega arith, tt),
)
Placed-PlacementFits limits f a b m (overflows k l) (n, h, s) = (
  omega (arith, n, length-put_at k f a.chunks),
  inl (add_path-length f.path a.overflow_paths),
  Summed-put_at k f a.chunks s,
)

place_all-PlacementFits :
    (limits : Limits) (fs : List FileDiff) (a b : Placement)
    → 1 ≤ limits.max_chunks
    → 1 ≤ limits.max_files_per_chunk
    → place_all limits fs a ≡ some b
    → PlacementFits limits a
    → PlacementFits limits b
unfolding place_all
place_all-PlacementFits limits [] a b m m' e h = subst (PlacementFits limits) (some_inj e) h
place_all-PlacementFits limits (f ∷ fs) a b m m' e h =
    let (c, e', placed) = place-Placed limits f a m in
    place_all-PlacementFits limits fs c b m m' (sym (place_all-round limits f fs a c e') ∙ e)
      (Placed-PlacementFits limits f a c m' placed h)

-- If a chunk may be opened and hold a file, the placement has at most `max_chunks` chunks; each
-- entry of `chunk_tokens` is the sum of the estimates of the chunk's pieces; and unless a piece was
-- placed by the overflow branch, every chunk is within the file cap, and within the budget or a
-- single piece.
pub place_files-PlacementFits :
    (limits : Limits) (churn : Text → ℕ) (found : List FileDiff) (b : Placement)
    → 1 ≤ limits.max_chunks
    → 1 ≤ limits.max_files_per_chunk
    → place_files limits churn found ≡ some b
    → PlacementFits limits b
unfolding place_files
place_files-PlacementFits limits churn found b m m' e =
    place_all-PlacementFits limits _ nothing_placed b m m' e (omega arith, inr tt, tt)
