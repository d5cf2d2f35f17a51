-- ===== src/Stl/Dictionary/Removal.antt =====
-- `Remove` of utils/stlutil/dictionary.go: right for every key but the first in order.
use silvernode_go.Common.{
  ℕ, ◌+◌, ◌<◌, ◌≡◌, refl, ◌≢◌, inl, inr, true, false, some, arith, ltb, Bool-cases, pos, length,
  get_elem?, Comparable,
}
use silvernode_go.Stl.GoMap.{delete, has, lookup-delete, length-delete, delete-Distinct}
use silvernode_go.Stl.Slices.{
  ok, err, invalid_key, index, cut, count-cut-index, index_cases, length-cut,
}
use silvernode_go.Stl.Dictionary.{
  Dictionary, remove, drop_key, get_key, get_value, contains_key, len,
}
use silvernode_go.Stl.Dictionary.Order.{IsValid}

module _ {ℓ κ} {K : Type ℓ} {V : Type κ} ⦃e : Comparable K⦄ where
  removed_at :
      (key : K) (d : Dictionary K V) (i : ℕ)
      → IsValid d
      → has key d.entries ≡ true
      → index key d.keys ≡ some i
      → i < length d.keys
      → IsValid (record d { entries = delete key d.entries; keys = cut d.keys i })
  removed_at key d i v old at lt = record {
    distinct = delete-Distinct key d.entries v.distinct;
    ordered = λ k. ground (
      arith,
      v.ordered k,
      count-cut-index key k d.keys i at,
      lookup-delete key k d.entries,
      e.equal_iff key k,
    );
    counted =
        ground (arith, v.counted, length-cut d.keys i lt, length-delete key d.entries v.distinct);
  }

  -- Removing a key that is not the first in order keeps the dictionary valid.
  pub remove-IsValid :
      (key : K) (d : Dictionary K V)
      → IsValid d
      → index key d.keys ≢ some 0
      → IsValid (remove key d).1
  unfolding remove drop_key
  remove-IsValid key d v later = elim (Bool-cases (has key d.entries)) [
    | inr new ↦ rw new v
    | inl old ↦ elim (index_cases key d.keys) [
      | inl (i, at, lt, here) ↦
          let positive : ltb 0 i ≡ true = ground (arith, later) in
          rw (old, at, positive) (removed_at key d i v old at lt)
      | inr (nowhere, c) ↦ absurd (ground (arith, v.ordered key))
    ]
  ]

  -- Removing the first key in order answers true and takes the entry out of the map, but leaves
  -- the key in the order: `GetKey(0)` still returns it, `GetValue(0)` fails, and the order is one
  -- longer than the map.
  pub remove_first_leaves_key :
      (key : K) (d : Dictionary K V)
      → IsValid d
      → index key d.keys ≡ some 0
      → ((remove key d).0 ≡ true)
        × (contains_key key (remove key d).1 ≡ false)
        × (get_key (pos 0) (remove key d).1 ≡ ok key)
        × (get_value (pos 0) (remove key d).1 ≡ err invalid_key)
        × (length (remove key d).1.keys ≡ len (remove key d).1 + 1)
  unfolding remove drop_key contains_key get_key get_value len
  remove_first_leaves_key key d v first = elim (index_cases key d.keys) [
    | inr (nowhere, c) ↦ cc
    | inl (i, at, lt, here) ↦
        let zeroth : get_elem? d.keys 0 ≡ some key = ground (arith, first, at, here) in
        let old : has key d.entries ≡ true =
          ground
            (arith, v.ordered key, count-cut-index key key d.keys 0 first, e.equal_iff key key) in
        rw (old, first)
          (
            refl,
            ground (arith, lookup-delete key key d.entries, e.equal_iff key key),
            rw zeroth,
            rw zeroth (ground (arith, lookup-delete key key d.entries, e.equal_iff key key)),
            ground (arith, v.counted, length-delete key d.entries v.distinct),
          )
  ]
