-- ===== src/Stl/Map/Lookup.antt =====
-- What `Get`, `Len` and `ForEach` of utils/stlutil/map.go see after each operation.
use silvernode_go.Common.{
  ◌+◌, ◌≡◌, refl, inl, inr, Bool, not, ◌&&◌, none, some, [], ◌∷◌, arith, if◌then◌else◌, Bool-cases,
  Comparable, ◌==◌,
}
use silvernode_go.Stl.GoMap.{
  GoMap, lookup, insert, has, Distinct, lookup-insert, lookup-delete, lookup-nil, length-insert,
  length-delete, insert-Distinct, delete-Distinct,
}
use silvernode_go.Stl.Loops.{range_until_lem, record_until, until, prune_all}
use silvernode_go.Stl.Map.{
  Map, add, remove, set as put, get, len, contains_key, for_each, copy, key_value_pairs, clear,
}

module _ {ℓ κ} {K : Type ℓ} {V : Type κ} ⦃e : Comparable K⦄ where
  -- After each operation `Get` sees the new value at the key that the operation wrote (`Add` writes
  -- only a key that is absent), nothing at the key that it removed, and no change at other keys.
  pub get_after :
      (k j : K) (v : V) (d : Map K V)
      → (get j (put k v d) ≡ (if k == j then some v else get j d))
        × (get j (add k v d).1 ≡ (if k == j && not (contains_key k d) then some v else get j d))
        × (get j (remove k d).1 ≡ (if k == j then none else get j d))
        × (get j (clear d) ≡ none)
  unfolding get put add remove clear contains_key
  get_after k j v d = (
    lookup-insert k j v d.entries,
    ground (arith, lookup-insert k j v d.entries),
    ground (arith, e.equal_iff k j, lookup-delete k j d.entries),
    rw (prune_all d.entries) (lookup-nil j),
  )

  -- On a map with distinct keys the answers of `Add` and `Remove` say whether the length changed,
  -- and it changes by one.
  pub len_after :
      (k : K) (v : V) (d : Map K V)
      → Distinct d.entries
      → (len (add k v d).1 ≡ (if (add k v d).0 then len d + 1 else len d))
        × (len d ≡ (if (remove k d).0 then len (remove k d).1 + 1 else len (remove k d).1))
        × Distinct (add k v d).1.entries
        × Distinct (remove k d).1.entries
        × Distinct (put k v d).entries
  unfolding len add remove put
  len_after k v d h = elim (Bool-cases (has k d.entries)) [
    | inl old ↦ rw old (
      refl,
      ground (arith, length-delete k d.entries h),
      h,
      delete-Distinct k d.entries h,
      insert-Distinct k v d.entries h,
    )
    | inr new ↦ rw new (
      ground (arith, length-insert k v d.entries),
      refl,
      insert-Distinct k v d.entries h,
      h,
      insert-Distinct k v d.entries h,
    )
  ]

  lookup-copy :
      (j : K) (ret m : GoMap K V)
      → Distinct m
      → lookup j (copy ret m) ≡ (if has j m then lookup j m else lookup j ret)
  unfolding copy lookup
  lookup-copy j r [] d = refl
  lookup-copy j r ((k, v) ∷ m) d =
      ground (arith, e.equal_iff k j, lookup-copy j (insert k v r) m d.1, lookup-insert k j v r)

  -- The copy that `KeyValuePairs` returns has the same value at every key.
  pub lookup-key_value_pairs :
      (j : K) (d : Map K V) → Distinct d.entries → lookup j (key_value_pairs d) ≡ get j d
  unfolding key_value_pairs get
  lookup-key_value_pairs j d h = ground (arith, lookup-copy j [] d.entries h, lookup-nil {V = V} j)

module _ {ℓ κ} {K : Type ℓ} {V : Type κ} where
  -- A callback that records its calls and breaks where `stop` says so is called on the entries up to
  -- and with the first that `stop` accepts, whatever `Break` has left in the map before.
  pub for_each-until :
      (stop : K → V → Bool) (d : Map K V)
      → (for_each (record_until stop) [] d).0 ≡ until stop d.entries
  unfolding for_each
  for_each-until stop d = range_until_lem stop [] d.entries
