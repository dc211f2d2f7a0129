-- ===== src/Stability/Sorting.antt =====
-- How the loop of `merge_chunk` of src/prxref/stability.py sorts the clusters into findings that are
-- kept and findings that are dropped.
use prxref.Base.{
  ℕ, suc, ◌+◌, ◌≤◌, ◌<◌, true, false, ◌≡◌, refl, sym, ap, ◌∙◌, subst, ◌⊎◌, inl, inr, some, List, [],
  ◌∷◌, ◌++◌, length, All, In, leb, arith, Bool-cases,
}
use prxref.Base.Text.{Text}
use mathlib.Core.List.{Permᴰ}
use prxref.Stability.{
  severity_rank, Finding, PassResult, Member, Cluster, members, is_ok, key_less, least,
  representative, normalized,
}
use prxref.Stability.Merge.{stamped, sort_clusters, ok_passes}
use prxref.Stability.Walks.{all_members, Numbered}

In-append : {A : Type 0} (a : A) (xs ys : List A) → In a (xs ++ ys) → In a xs ⊎ In a ys
In-append a [] ys i = inr i
In-append a (x ∷ xs) ys (inl e) = inl (inl e)
In-append a (x ∷ xs) ys (inr i) = elim (In-append a xs ys i) [ inl h ↦ inl (inr h) | inr h ↦ inr h ]

append-In : {A : Type 0} (a : A) (xs ys : List A) → In a xs ⊎ In a ys → In a (xs ++ ys)
append-In a [] ys (inl i) = elim i [ ]
append-In a [] ys (inr i) = i
append-In a (x ∷ xs) ys (inl (inl e)) = inl e
append-In a (x ∷ xs) ys (inl (inr i)) = inr (append-In a xs ys (inl i))
append-In a (x ∷ xs) ys (inr i) = inr (append-In a xs ys (inr i))

pub Perm-In : {A : Type 0} {xs ys : List A} → Permᴰ xs ys → (a : A) → In a xs → In a ys
Perm-In Permᴰ.nil a i = i
Perm-In (Permᴰ.cons e d) a (inl h) = inl (h ∙ e)
Perm-In (Permᴰ.cons e d) a (inr i) = inr (Perm-In d a i)
Perm-In (Permᴰ.swap e f) a (inl h) = inr (inl (h ∙ e))
Perm-In (Permᴰ.swap e f) a (inr (inl h)) = inl (h ∙ f)
Perm-In (Permᴰ.swap e f) a (inr (inr i)) = inr (inr i)
Perm-In (Permᴰ.trans d e) a i = Perm-In e a (Perm-In d a i)

-- More severe, or as severe and at least as confident.
abbrev pub AtLeast : Finding → Finding → Type 0
AtLeast f g =
    (severity_rank f.severity < severity_rank g.severity)
    ⊎ ((severity_rank f.severity ≡ severity_rank g.severity) × (g.confidence ≤ f.confidence))

AtLeast-trans : (f g h : Finding) → AtLeast f g → AtLeast g h → AtLeast f h
AtLeast-trans f g h a b = omega (arith, a, b)

less-AtLeast : (a b : Member) → key_less a b ≡ true → AtLeast a.finding b.finding
unfolding key_less
less-AtLeast a b h = ground arith

not_less-AtLeast : (a b : Member) → key_less a b ≡ false → AtLeast b.finding a.finding
unfolding key_less
not_less-AtLeast a b h = ground arith

AtLeast-refl : (f : Finding) → AtLeast f f
AtLeast-refl f = omega arith

-- A member among those seen, at least as severe and confident as each.
abbrev IsLeast : Member → List Member → Member → Type 0
IsLeast best ms r =
    In r (best ∷ ms) × AtLeast r.finding best.finding × All (λ m. AtLeast r.finding m.finding) ms

least-IsLeast : (best : Member) (ms : List Member) → IsLeast best ms (least best ms)
unfolding least
least-IsLeast best [] = (inl refl, AtLeast-refl best.finding, tt)
least-IsLeast best (m ∷ ms) = elim (Bool-cases (key_less m best)) [
  | inl less ↦
      let (i, a, all) = least-IsLeast m ms in
      let r : Member = least m ms in
      subst (IsLeast best (m ∷ ms)) (replaced less) (
        inr i,
        AtLeast-trans r.finding m.finding best.finding a (less-AtLeast m best less),
        (a, all),
      )
  | inr not_less ↦
      let (i, a, all) = least-IsLeast best ms in
      let r : Member = least best ms in
      subst (IsLeast best (m ∷ ms)) (stayed not_less) (
        later i,
        a,
        (AtLeast-trans r.finding best.finding m.finding a (not_less-AtLeast m best not_less), all),
      )
]
  where
    replaced : key_less m best ≡ true → least m ms ≡ least best (m ∷ ms)
    replaced h = rw h refl

    stayed : key_less m best ≡ false → least best ms ≡ least best (m ∷ ms)
    stayed h = rw h refl

    later : In (least best ms) (best ∷ ms) → In (least best ms) (best ∷ m ∷ ms)
    later (inl e) = inl e
    later (inr i) = inr (inr i)

pub All-In : {A : Type 0} (P : A → Type 0) (xs : List A) → All P xs → (a : A) → In a xs → P a
All-In P [] all a i = elim i [ ]
All-In P (x ∷ xs) (p, all) a (inl e) = subst P (sym e) p
All-In P (x ∷ xs) (p, all) a (inr i) = All-In P xs all a i

-- A member of the cluster, at least as severe and confident as each.
abbrev pub Leads : Cluster → Member → Type 0
Leads c m = In m (members c) × All (λ x. AtLeast m.finding x.finding) (members c)

least-Leads : (c : Cluster) → Leads c (least c.first c.later)
least-Leads c = let (i, a, all) = least-IsLeast c.first c.later in (i, (a, all))

module _ (n need : ℕ) (Known : Cluster → Type 0) where
  -- What is kept: a leading finding of a cluster with enough members, stamped with their number.
  abbrev pub Kept : Finding → Type 0
  Kept f =
      (c : Cluster) × Known c
      × (need ≤ length (members c))
      × ((m : Member) × Leads c m
          × (f ≡ record (m.finding) { agreement = length (members c); passes_ok = n }))

  -- What is dropped: a leading finding of a cluster with too few members, stamped with their
  -- number, with a reason.
  abbrev pub Dropped : Finding → Type 0
  Dropped f =
      (c : Cluster) × Known c
      × (length (members c) < need)
      × ((m : Member) × (reason : Text) × Leads c m
          × (f ≡ record (m.finding) {
            agreement = length (members c);
            passes_ok = n;
            drop_reason = some reason;
          }))

  pub sort_clusters-Kept :
      (cs : List Cluster)
      → ((c : Cluster) → In c cs → Known c)
      → All Kept (sort_clusters n need cs).kept × All Dropped (sort_clusters n need cs).dropped
  unfolding sort_clusters stamped representative
  sort_clusters-Kept [] known = (tt, tt)
  sort_clusters-Kept (c ∷ cs) known =
      let (ks, ds) = sort_clusters-Kept cs (λ d i. known d (inr i)) in
      let k = known c (inl refl) in
      let leads = least-Leads c in
      elim (Bool-cases (leb need (length (members c)))) [
        | inl enough ↦ rw enough (((c, k, ground arith, (_, leads, refl)), ks), ds)
        | inr few ↦ rw few (ks, ((c, k, ground arith, (_, _, leads, refl)), ds))
      ]

-- Each cluster gives one finding, to the kept or to the dropped.
pub length-sort_clusters :
    (n need : ℕ) (cs : List Cluster)
    → length (sort_clusters n need cs).kept + length (sort_clusters n need cs).dropped ≡ length cs
unfolding sort_clusters
length-sort_clusters n need [] = omega arith
length-sort_clusters n need (c ∷ cs) =
    let rest = length-sort_clusters n need cs in
    elim (Bool-cases (leb need (length (members c)))) [
      | inl enough ↦ rw enough (omega (arith, rest))
      | inr few ↦ rw few (omega (arith, rest))
    ]

-- The member stands in a cluster, and a finding stamped with the number of that cluster's members is
-- kept or dropped, at least as severe and confident.
abbrev pub Represented : List Cluster → List Finding → List Finding → Member → Type 0
Represented cs kept dropped m =
    (c : Cluster) × In c cs
    × In m (members c)
    × ((f : Finding) × (In f kept ⊎ In f dropped)
        × (f.agreement ≡ length (members c))
        × AtLeast f m.finding)

Represented-more :
    (k d : Finding) (c : Cluster) (cs : List Cluster) (kept dropped : List Finding) (m : Member)
    → Represented cs kept dropped m
    → Represented (c ∷ cs) (k ∷ kept) dropped m × Represented (c ∷ cs) kept (d ∷ dropped) m
Represented-more k d c cs kept dropped m (e, i, j, (f, inl h, n, a)) =
    ((e, inr i, j, (f, inl (inr h), n, a)), (e, inr i, j, (f, inl h, n, a)))
Represented-more k d c cs kept dropped m (e, i, j, (f, inr h, n, a)) =
    ((e, inr i, j, (f, inr h, n, a)), (e, inr i, j, (f, inr (inr h), n, a)))

cluster-AtLeast :
    (c : Cluster) (m : Member) → In m (members c) → AtLeast (representative c) m.finding
unfolding representative
cluster-AtLeast c m i =
    All-In (λ x. AtLeast (least c.first c.later).finding x.finding) (members c) (least-Leads c).1 m
      i

pub sort_clusters-Represented :
    (n need : ℕ) (cs : List Cluster) (m : Member)
    → In m (all_members cs)
    → Represented cs (sort_clusters n need cs).kept (sort_clusters n need cs).dropped m
unfolding sort_clusters all_members stamped
sort_clusters-Represented n need [] m i = elim i [ ]
sort_clusters-Represented n need (c ∷ cs) m i =
    let rest = sort_clusters n need cs in
    elim (Bool-cases (leb need (length (members c)))) [
      | inl enough ↦ rw enough (elim (In-append m (members c) (all_members cs) i) [
        | inl here ↦
            (c, inl refl, here, (stamped n c, inl (inl refl), refl, cluster-AtLeast c m here))
        | inr later ↦
            (Represented-more _ (stamped n c) c cs rest.kept rest.dropped m
              (sort_clusters-Represented n need cs m later)).0
      ])
      | inr few ↦ rw few (elim (In-append m (members c) (all_members cs) i) [
        | inl here ↦ (c, inl refl, here, (_, inr (inl refl), refl, cluster-AtLeast c m here))
        | inr later ↦
            (Represented-more (stamped n c) _ c cs rest.kept rest.dropped m
              (sort_clusters-Represented n need cs m later)).1
      ])
    ]

Numbered-mono : (n k : ℕ) → n ≤ k → (ok : List (ℕ × PassResult)) → Numbered k ok → Numbered n ok
Numbered-mono n k h [] a = tt
Numbered-mono n k h (r ∷ ok) (a, as') = (omega (arith, h, a), as')

pub ok_passes-Numbered : (i : ℕ) (rs : List PassResult) → Numbered i (ok_passes i rs)
unfolding ok_passes
ok_passes-Numbered i [] = tt
ok_passes-Numbered i (r ∷ rs) = elim (Bool-cases (is_ok r)) [
  | inl ok ↦ rw ok (omega arith, ok_passes-Numbered (i + 1) rs)
  | inr failed ↦ rw failed (Numbered-mono i (i + 1) (omega arith) _ (ok_passes-Numbered (i + 1) rs))
]

pub normalized-Numbered :
    (paths : List Text) (n : ℕ) (ok : List (ℕ × PassResult))
    → Numbered n ok
    → Numbered n (normalized ok paths)
unfolding normalized
normalized-Numbered [] n ok a = a
normalized-Numbered (p ∷ ps) n [] a = tt
normalized-Numbered (p ∷ ps) n (r ∷ ok) (a, rest) =
    (a, normalized-Numbered (p ∷ ps) (r.0 + 1) ok rest)

pub length-normalized :
    (paths : List Text) (ok : List (ℕ × PassResult)) → length (normalized ok paths) ≡ length ok
unfolding normalized
length-normalized [] ok = refl
length-normalized (p ∷ ps) [] = refl
length-normalized (p ∷ ps) (r ∷ ok) = ap suc (length-normalized (p ∷ ps) ok)
