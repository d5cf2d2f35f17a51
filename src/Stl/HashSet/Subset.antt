-- ===== src/Stl/HashSet/Subset.antt =====
-- `IsSubset` of utils/stlutil/hashset.go decides inclusion; its early test of the lengths is right.
use silvernode_go.Common.{
  ◌≤◌, ◌≡◌, refl, true, false, ◌↔◌, List, [], ◌∷◌, arith, length, Comparable, ◌==◌,
}
use silvernode_go.Stl.GoMap.{
  GoMap, lookup, delete, has, Distinct, lookup-delete, delete-Distinct, length-delete,
}
use silvernode_go.Stl.Loops.{keys, mem, mem-keys}
use silvernode_go.Stl.HashSet.{HashSet, len, contains, all_in, is_subset}

module _ {ℓ κ} {T : Type ℓ} {V : Type κ} ⦃e : Comparable T⦄ where
  abbrev Included : GoMap T V → GoMap T V → Type ℓ
  Included m n = (j : T) → has j m ≡ true → has j n ≡ true

  has_head : (j : T) (v : V) (m : GoMap T V) → has j ((j, v) ∷ m) ≡ true
  unfolding lookup
  has_head j v m = ground (arith, e.equal_iff j j)

  has_tail : (i j : T) (v : V) (m : GoMap T V) → has i m ≡ true → has i ((j, v) ∷ m) ≡ true
  unfolding lookup
  has_tail i j v m h = ground arith

  has_both_absurd : (j i : T) (m : GoMap T V) → has j m ≡ false → has i m ≡ true → (j == i) ≡ false
  has_both_absurd j i m a b = ground (arith, e.equal_iff j i)

  -- The pigeonhole principle: distinct keys that all occur in `n` are at most as many as those of `n`.
  length-le : (m n : GoMap T V) → Distinct m → Distinct n → Included m n → length m ≤ length n
  length-le [] n dm dn inc = omega arith
  length-le ((j, v) ∷ m) n dm dn inc = ground (
    arith,
    length-delete j n dn,
    inc j (has_head j v m),
    length-le m (delete j n) dm.1 (delete-Distinct j n dn) λ i h.
        ground
          (arith, lookup-delete j i n, inc i (has_tail i j v m h), has_both_absurd j i m dm.0 h),
  )

module _ {ℓ} {T : Type ℓ} ⦃e : Comparable T⦄ where
  all_in_sound :
      (ks : List T) (a : HashSet T) (j : T)
      → all_in ks a ≡ true
      → mem j ks ≡ true
      → contains j a ≡ true
  unfolding all_in
  all_in_sound [] a j h k = cc
  all_in_sound (i ∷ ks) a j h k = ground (arith, e.equal_iff i j, all_in_sound ks a j)

  all_in_complete :
      (ks : List T) (a : HashSet T)
      → ((j : T) → mem j ks ≡ true → contains j a ≡ true)
      → all_in ks a ≡ true
  unfolding all_in
  all_in_complete [] a h = refl
  all_in_complete (i ∷ ks) a h =
      ground (arith, e.equal_iff i i, h i, all_in_complete ks a (λ j k. h j (ground arith)))

  -- On sets that hold no item twice, `IsSubset` answers true exactly when every item of the first
  -- set is in the second.
  pub is_subset_iff :
      (h a : HashSet T)
      → Distinct h.entries
      → Distinct a.entries
      → (is_subset h a ≡ true) ↔ ((j : T) → contains j h ≡ true → contains j a ≡ true)
  unfolding is_subset len contains
  is_subset_iff h a dh da = (
    λ s j k.
        all_in_sound (keys h.entries) a j (ground arith) (ground (arith, mem-keys j h.entries)),
    λ inc. ground (
      arith,
      length-le h.entries a.entries dh da inc,
      all_in_complete (keys h.entries) a (λ j k. inc j (ground (arith, mem-keys j h.entries))),
    ),
  )
