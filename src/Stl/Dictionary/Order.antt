-- ===== src/Stl/Dictionary/Order.antt =====
-- The keys and the entries of utils/stlutil/dictionary.go stay in step.
use silvernode_go.Common.{
  ℕ, ◌≡◌, refl, ◌∙◌, inl, inr, true, false, ◌||◌, Option, none, some, List, [], ◌∷◌, ◌++◌, arith,
  ltb, Bool-cases, pos, Run, ret, panic, stuck, ◌>>=◌, length, length-append, Comparable, ◌==◌,
  nat_eq, bytes_eq,
}
use mathlib.Core.Path.{subst}
use silvernode_go.Common.{ret-injective}
use silvernode_go.Stl.GoMap.{
  lookup, insert, has, Distinct, lookup-insert, lookup-nil, length-insert, insert-Distinct,
}
use silvernode_go.Stl.Loops.{prune_all}
use silvernode_go.Stl.Slices.{count, one_if, count-append, swap_at, count-swap_at, length-swap_at}
use silvernode_go.Stl.Dictionary.{
  Dictionary, new_dictionary, add, set as put, clear, swap, swapped, sort,
}

module _ {ℓ} {K : Type ℓ} ⦃e : Comparable K⦄ where
  count_one : (k j : K) → count j (k ∷ []) ≡ one_if (k == j)
  unfolding count
  count_one k j = omega arith

module _ {ℓ κ} {K : Type ℓ} {V : Type κ} ⦃e : Comparable K⦄ where
  -- Each key of the map stands once among the ordered keys, and no other key does.
  pub record IsValid (d : Dictionary K V) : Type ℓ where
    pub distinct : Distinct d.entries
    pub ordered : (k : K) → count k d.keys ≡ one_if (has k d.entries)
    pub counted : length d.keys ≡ length d.entries

  pub new_dictionary-IsValid : IsValid new_dictionary
  unfolding count lookup
  new_dictionary-IsValid = record { distinct = tt; ordered = λ k. refl; counted = refl }

  insert_new :
      (key : K) (value : V) (d : Dictionary K V)
      → has key d.entries ≡ false
      → IsValid d
      → IsValid (record d { keys = d.keys ++ (key ∷ []); entries = insert key value d.entries })
  insert_new key value d new v = record {
    distinct = insert-Distinct key value d.entries v.distinct;
    ordered = λ k. ground (
      arith,
      v.ordered k,
      count-append k d.keys (key ∷ []),
      count_one key k,
      lookup-insert key k value d.entries,
      e.equal_iff key k,
    );
    counted =
        ground
          (arith, v.counted, length-append d.keys (key ∷ []), length-insert key value d.entries);
  }

  insert_old :
      (key : K) (value : V) (d : Dictionary K V)
      → has key d.entries ≡ true
      → IsValid d
      → IsValid (record d { entries = insert key value d.entries })
  insert_old key value d old v = record {
    distinct = insert-Distinct key value d.entries v.distinct;
    ordered =
        λ k. ground (arith, v.ordered k, lookup-insert key k value d.entries, e.equal_iff key k);
    counted = ground (arith, v.counted, length-insert key value d.entries);
  }

  pub add-IsValid :
      (key : K) (value : V) (d : Dictionary K V) → IsValid d → IsValid (add key value d).1
  unfolding add
  add-IsValid key value d v = elim (Bool-cases (has key d.entries)) [
    | inl old ↦ rw old v
    | inr new ↦ rw new (insert_new key value d new v)
  ]

  pub set-IsValid :
      (key : K) (value : V) (d : Dictionary K V) → IsValid d → IsValid (put key value d)
  unfolding put
  set-IsValid key value d v = elim (Bool-cases (has key d.entries)) [
    | inl old ↦ rw old (insert_old key value d old v)
    | inr new ↦ rw new (insert_new key value d new v)
  ]

  clear-IsValid : (d : Dictionary K V) → IsValid (clear d)
  unfolding clear count
  clear-IsValid d =
      rw (prune_all d.entries)
        (record { distinct = tt; ordered = λ k. rw (lookup-nil {V = V} k); counted = refl })

  swap_keys-IsValid :
      (d : Dictionary K V) (i j : ℕ) (ks : List K)
      → swap_at d.keys i j ≡ some ks
      → IsValid d
      → IsValid (record d { keys = ks })
  swap_keys-IsValid d i j ks h v = record {
    distinct = v.distinct;
    ordered = λ k. count-swap_at k d.keys ks i j h ∙ v.ordered k;
    counted = length-swap_at d.keys ks i j h ∙ v.counted;
  }

  -- What `Swap` returns without a panic is valid.
  pub swap-IsValid :
      (d d' : Dictionary K V) (i j : ℕ) → IsValid d → swap (pos i) (pos j) d ≡ ret d' → IsValid d'
  unfolding swap
  swap-IsValid d d' i j v h = elim (Bool-cases (ltb (length d.keys) i || ltb (length d.keys) j)) [
    | inl out ↦ subst IsValid (ret-injective (rw out at h)) v
    | inr in_range ↦ go (swap_at d.keys i j) refl (rw in_range at h)
  ]
    where
      go : (o : Option (List K)) → swap_at d.keys i j ≡ o → swapped d o ≡ ret d' → IsValid d'
      go none p q = cc
      go (some ks) p q = subst IsValid (ret-injective q) (swap_keys-IsValid d i j ks p v)

  -- What `Sort` returns without a panic is valid, whichever exchanges the library makes.
  pub sort-IsValid :
      (swaps : List (ℕ × ℕ)) (d d' : Dictionary K V)
      → IsValid d
      → sort swaps d ≡ ret d'
      → IsValid d'
  unfolding sort
  sort-IsValid [] d d' v h = subst IsValid (ret-injective h) v
  sort-IsValid ((i, j) ∷ swaps) d d' v h = go (swap (pos i) (pos j) d) refl h (sort-IsValid swaps)
    where
      go :
          (r : Run (Dictionary K V))
          → swap (pos i) (pos j) d ≡ r
          → (r >>= sort swaps) ≡ ret d'
          → ((a b : Dictionary K V) → IsValid a → sort swaps a ≡ ret b → IsValid b)
          → IsValid d'
      go (ret a) p q rest = rest a d' (swap-IsValid d a i j v p) q
      go panic p q rest = cc
      go stuck p q rest = cc

  -- A fresh dictionary is valid; `Add`, `Set` and `Clear` of a valid one leave it valid.
  pub operations-IsValid :
      (key : K) (value : V) (d : Dictionary K V)
      → IsValid d
      → IsValid (new_dictionary {K = K} {V = V})
        × IsValid (add key value d).1
        × IsValid (put key value d)
        × IsValid (clear d)
  operations-IsValid key value d v = (
    new_dictionary-IsValid,
    add-IsValid key value d v,
    set-IsValid key value d v,
    clear-IsValid d,
  )
