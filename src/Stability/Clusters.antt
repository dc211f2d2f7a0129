-- ===== src/Stability/Clusters.antt =====
-- What `_clusters` of src/prxref/stability.py makes of the findings of the ok passes.
use prxref.Base.{
  ℕ, ◌+◌, Bool, not, ◌&&◌, ◌≡◌, sym, subst, inl, inr, List, [], ◌∷◌, ◌++◌, length, append_nil, any,
  All, ◌==◌, arith, Bool-cases, append_assoc,
}
use mathlib.Core.List.{Permᴰ}
use mathlib.Core.List.Permᴰ as Permᴰ
use prxref.Stability.{
  Finding, PassResult, Member, Cluster, members, join_cluster, cluster_pass, clusters_from,
  clusters,
}
use prxref.Stability.Walks.{raised_in, raised, all_members, Numbered, Clustered, from-Fits}

module _ (same_cluster : Finding → Finding → Bool) where
  -- The member that joins is added, and no other.
  join_cluster-Perm :
      (touched : List ℕ) (m : Member) (i : ℕ) (cs : List Cluster)
      → Permᴰ (all_members ((join_cluster same_cluster touched m i cs).0)) (m ∷ all_members cs)
  unfolding join_cluster all_members
  join_cluster-Perm touched m i [] = Permᴰ.refl _
  join_cluster-Perm touched m i (c ∷ cs) =
      elim (Bool-cases
        (not (any (λ t. i == t) touched) && same_cluster c.first.finding m.finding)) [
          | inr other ↦
              let rest = join_cluster same_cluster touched m (i + 1) cs in
              let moved : Permᴰ (members c ++ all_members rest.0)
                  (m ∷ members c ++ all_members cs) =
                Permᴰ.trans (Permᴰ.append_left (members c) (join_cluster-Perm touched m (i + 1) cs))
                  (Permᴰ.middle m (members c) (all_members cs)) in
              rw other moved
          | inl here ↦
              let added : Permᴰ ((members c ++ m ∷ []) ++ all_members cs)
                  (m ∷ members c ++ all_members cs) =
                subst (λ ms. Permᴰ ms (m ∷ members c ++ all_members cs))
                  (sym (append_assoc (members c) (m ∷ []) (all_members cs)))
                  (Permᴰ.middle m (members c) (all_members cs)) in
              rw here added
        ]

  pass-Perm :
      (p j : ℕ) (fs : List Finding) (touched : List ℕ) (cs : List Cluster)
      → Permᴰ
          (all_members (cluster_pass same_cluster p j fs touched cs))
          (all_members cs ++ raised_in p j fs)
  unfolding cluster_pass raised_in
  pass-Perm p j [] touched cs =
      subst (Permᴰ (all_members cs)) (sym (append_nil (all_members cs))) (Permᴰ.refl _)
  pass-Perm p j (f ∷ fs) touched cs =
      let m : Member = record { pass = p; place = j; finding = f } in
      Permᴰ.trans (pass-Perm p (j + 1) fs _ _) (
        Permᴰ.trans (Permᴰ.append_right _ (join_cluster-Perm touched m 0 cs))
          (Permᴰ.symm (Permᴰ.middle m (all_members cs) (raised_in p (j + 1) fs))))

  from-Perm :
      (ok : List (ℕ × PassResult)) (cs : List Cluster)
      → Permᴰ (all_members (clusters_from same_cluster ok cs)) (all_members cs ++ raised ok)
  unfolding clusters_from raised
  from-Perm [] cs =
      subst (Permᴰ (all_members cs)) (sym (append_nil (all_members cs))) (Permᴰ.refl _)
  from-Perm ((p, r) ∷ ok) cs = Permᴰ.trans (from-Perm ok _) (
      subst (Permᴰ (all_members (cluster_pass same_cluster p 0 r.findings [] cs) ++ raised ok))
        (append_assoc (all_members cs) (raised_in p 0 r.findings) (raised ok))
        (Permᴰ.append_right (raised ok) (pass-Perm p 0 r.findings [] cs)))

  -- The clusters of numbered passes hold the findings of the passes, each once. The members of a
  -- cluster come from different passes in their order, and so are at most as many as the passes, and
  -- each shares the cause of the first.
  pub clusters-Clustered :
      (ok : List (ℕ × PassResult))
      → Numbered 0 ok
      → All (Clustered same_cluster (length ok)) (clusters same_cluster ok)
        × Permᴰ (all_members (clusters same_cluster ok)) (raised ok)
  unfolding clusters all_members
  clusters-Clustered ok h =
      let e : 0 + length ok ≡ length ok = omega arith in
      (
        subst (λ k. All (Clustered same_cluster k) (clusters_from same_cluster ok [])) e
            (from-Fits same_cluster 0 0 ok [] h tt),
        from-Perm ok [],
      )
