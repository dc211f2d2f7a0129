-- ===== src/Stability/Walks.antt =====
-- How the walk of `_clusters` of src/prxref/stability.py over the passes builds the clusters.
use prxref.Base.{
  ℕ, suc, ◌+◌, ◌≤◌, ◌<◌, Bool, true, false, not, ◌&&◌, ◌≡◌, subst, inl, inr, List, [], ◌∷◌, ◌++◌,
  length, length-append, any, All, ◌==◌, arith, Bool-cases,
}
use prxref.Stability.{
  Finding, PassResult, Member, Cluster, members, join_cluster, cluster_pass, clusters_from,
}

-- The findings of a pass with their positions, from position `j` on.
unfoldable pub raised_in : ℕ → ℕ → List Finding → List Member
raised_in p j [] = []
raised_in p j (f ∷ fs) = record { pass = p; place = j; finding = f } ∷ raised_in p (j + 1) fs

-- All findings of the passes, in the order in which they are walked.
unfoldable pub raised : List (ℕ × PassResult) → List Member
unfolding raised_in
raised [] = []
raised ((p, r) ∷ ok) = raised_in p 0 r.findings ++ raised ok

unfoldable pub all_members : List Cluster → List Member
all_members [] = []
all_members (c ∷ cs) = members c ++ all_members cs

-- Each pass is numbered above the one before it, the first from `n` on.
abbrev pub Numbered : ℕ → List (ℕ × PassResult) → Type 0
Numbered n [] = Unit
Numbered n ((p, r) ∷ ok) = (n ≤ p) × Numbered (p + 1) ok

-- The passes of the members rise.
abbrev pub Rises : Member → List Member → Type 0
Rises m [] = Unit
Rises m (n ∷ ns) = (m.pass < n.pass) × Rises n ns

-- The members of a cluster, all from passes below `n`.
abbrev Below : ℕ → Member → List Member → Type 0
Below n m [] = m.pass < n
Below n m (x ∷ xs) = Below n x xs

Below-mono : (n k : ℕ) → n ≤ k → (m : Member) (ms : List Member) → Below n m ms → Below k m ms
Below-mono n k h m [] b = omega (arith, h, b)
Below-mono n k h m (x ∷ xs) b = Below-mono n k h x xs b

Rises-snoc :
    (m : Member) (ms : List Member) (x : Member)
    → Rises m ms
    → Below x.pass m ms
    → Rises m (ms ++ x ∷ [])
Rises-snoc m [] x r b = (b, tt)
Rises-snoc m (y ∷ ys) x (l, r) b = (l, Rises-snoc y ys x r b)

Below-snoc : (m : Member) (ms : List Member) (x : Member) → Below (x.pass + 1) m (ms ++ x ∷ [])
Below-snoc m [] x = omega arith
Below-snoc m (y ∷ ys) x = Below-snoc y ys x

All-snoc {ℓ} :
    {A : Type 0} (P : A → Type ℓ) (xs : List A) (x : A) → All P xs → P x → All P (xs ++ x ∷ [])
All-snoc P [] x a p = (p, tt)
All-snoc P (y ∷ ys) x (q, a) p = (q, All-snoc P ys x a p)

module _ (same_cluster : Finding → Finding → Bool) where
  -- The members come from different passes, in their order, at most `k`, and each later one shares
  -- the cause of the first.
  abbrev pub Clustered : ℕ → Cluster → Type 0
  Clustered k c =
      Rises c.first c.later
      × All (λ m. same_cluster c.first.finding m.finding ≡ true) c.later
      × (length (members c) ≤ k)

  abbrev Fits : ℕ → ℕ → Cluster → Type 0
  Fits n k c = Clustered k c × Below n c.first c.later

  Fits-mono : (n n' k : ℕ) → n ≤ n' → (c : Cluster) → Fits n k c → Fits n' k c
  Fits-mono n n' k h c (f, b) = (f, Below-mono n n' h c.first c.later b)

  Fits-snoc :
      (k : ℕ) (m : Member) (c : Cluster)
      → same_cluster c.first.finding m.finding ≡ true
      → Fits m.pass k c
      → Fits (m.pass + 1) (k + 1) (record c { later = c.later ++ m ∷ [] })
  Fits-snoc k m c s ((r, a, n), b) = (
    (
      Rises-snoc c.first c.later m r b,
      All-snoc (λ x. same_cluster c.first.finding x.finding ≡ true) c.later m a s,
      omega (arith, n, length-append c.later (m ∷ [])),
    ),
    Below-snoc c.first c.later m,
  )

  -- Within pass `p`, which `k` passes came before: the touched clusters may hold a member of it.
  abbrev Walks : ℕ → ℕ → List ℕ → ℕ → List Cluster → Type 0
  Walks p k touched i [] = Unit
  Walks p k touched i (c ∷ cs) =
      (Fits (p + 1) (k + 1) c × (any (λ t. i == t) touched ≡ false → Fits p k c))
      × Walks p k touched (i + 1) cs

  Walks-touched :
      (p k t : ℕ) (touched : List ℕ) (i : ℕ) (cs : List Cluster)
      → Walks p k touched i cs
      → Walks p k (t ∷ touched) i cs
  unfolding any
  Walks-touched p k t touched i [] w = tt
  Walks-touched p k t touched i (c ∷ cs) ((f, g), w) =
      ((f, λ h. g (ground arith)), Walks-touched p k t touched (i + 1) cs w)

  own : (i : ℕ) (touched : List ℕ) → any (λ t. i == t) (i ∷ touched) ≡ false → ⊥
  unfolding any
  own i touched h = ground arith

  join_cluster-Walks :
      (k : ℕ) (touched : List ℕ) (m : Member) (i : ℕ) (cs : List Cluster)
      → Walks m.pass k touched i cs
      → (let joined = join_cluster same_cluster touched m i cs in
          Walks m.pass k (joined.1 ∷ touched) i joined.0)
  unfolding join_cluster any
  join_cluster-Walks k touched m i [] w =
      ((((tt, tt, omega arith), omega arith), λ h. elim (own i touched h) [ ]), tt)
  join_cluster-Walks k touched m i (c ∷ cs) ((f, g), w) =
      elim (Bool-cases
        (not (any (λ t. i == t) touched) && same_cluster c.first.finding m.finding)) [
          | inr other ↦
              let rest = join_cluster same_cluster touched m (i + 1) cs in
              let kept : Walks m.pass k (rest.1 ∷ touched) i (c ∷ rest.0) =
                ((f, λ h. g (ground arith)), join_cluster-Walks k touched m (i + 1) cs w) in
              rw other kept
          | inl here ↦ rw here (
              (
                (
                  Fits-snoc k m c (ground arith) (g (ground arith)),
                  λ h. elim (own i touched h) [ ],
                ),
                Walks-touched m.pass k i touched (i + 1) cs w,
              ))
        ]

  pass-Walks :
      (p k j : ℕ) (fs : List Finding) (touched : List ℕ) (cs : List Cluster)
      → Walks p k touched 0 cs
      → All (Fits (p + 1) (k + 1)) (cluster_pass same_cluster p j fs touched cs)
  unfolding cluster_pass
  pass-Walks p k j [] touched cs w = walked 0 cs w
    where
      walked : (i : ℕ) (ds : List Cluster) → Walks p k touched i ds → All (Fits (p + 1) (k + 1)) ds
      walked i [] w = tt
      walked i (d ∷ ds) ((f, g), w) = (f, walked (i + 1) ds w)
  pass-Walks p k j (f ∷ fs) touched cs w =
      pass-Walks p k (j + 1) fs _ _ (join_cluster-Walks k touched _ 0 cs w)

  starts-Walks : (n p k i : ℕ) → n ≤ p → (cs : List Cluster) → All (Fits n k) cs → Walks p k [] i cs
  starts-Walks n p k i h [] a = tt
  starts-Walks n p k i h (c ∷ cs) ((cl, b), a) = (
    (
      (
        (cl.0, cl.1, omega (arith, cl.2)),
        Below-mono n (p + 1) (omega (arith, h)) c.first c.later b,
      ),
      λ e. Fits-mono n p k h c (cl, b),
    ),
    starts-Walks n p k (i + 1) h cs a,
  )

  pub from-Fits :
      (n k : ℕ) (ok : List (ℕ × PassResult)) (cs : List Cluster)
      → Numbered n ok
      → All (Fits n k) cs
      → All (Clustered (k + length ok)) (clusters_from same_cluster ok cs)
  unfolding clusters_from
  from-Fits n k [] cs h a = fitted cs a
    where
      fitted : (ds : List Cluster) → All (Fits n k) ds → All (Clustered (k + 0)) ds
      fitted [] a = tt
      fitted (d ∷ ds) (((r, s, l), b), a) = ((r, s, omega (arith, l)), fitted ds a)
  from-Fits n k ((p, r) ∷ ok) cs (h, hs) a =
      let next = cluster_pass same_cluster p 0 r.findings [] cs in
      let walked = pass-Walks p k 0 r.findings [] cs (starts-Walks n p k 0 h cs a) in
      let e : (k + 1) + length ok ≡ k + suc (length ok) = omega arith in
      subst (λ m. All (Clustered m) (clusters_from same_cluster ok next)) e
        (from-Fits (p + 1) (k + 1) ok next hs walked)
