-- ===== src/Stl/HashSet/Algebra.antt =====
-- The set operations of utils/stlutil/hashset.go against membership.
use silvernode_go.Common.{
  ◌≡◌, refl, ap, ◌∙◌, inl, inr, Bool, true, false, not, ◌&&◌, ◌||◌, List, [], ◌∷◌, arith,
  if◌then◌else◌, Bool-cases, Comparable, ◌==◌,
}
use silvernode_go.Stl.GoMap.{
  GoMap, lookup-nil, insert, has, Distinct, lookup-insert, insert-Distinct, delete-Distinct,
}
use silvernode_go.Stl.Loops.{keys, mem, mem-keys, lookup-prune, prune-Distinct, prune_all}
use silvernode_go.Stl.HashSet.{
  HashSet, len, items, insert_all, new_hash_set_raw, add, remove, contains, clear, intersect_with,
  except_with, union_items, union_with, clone, intersect, except, union,
}

module _ {ℓ} {T : Type ℓ} ⦃e : Comparable T⦄ where
  has-insert_all :
      (j : T) (raw : List T) (m : GoMap T Unit) → has j (insert_all m raw) ≡ (mem j raw || has j m)
  unfolding insert_all
  has-insert_all j [] m = refl
  has-insert_all j (k ∷ raw) m =
      ground (arith, lookup-insert k j tt m, has-insert_all j raw (insert k tt m))

  insert_all-Distinct : (raw : List T) (m : GoMap T Unit) → Distinct m → Distinct (insert_all m raw)
  unfolding insert_all
  insert_all-Distinct [] m d = d
  insert_all-Distinct (k ∷ raw) m d =
      insert_all-Distinct raw (insert k tt m) (insert-Distinct k tt m d)

  pub contains-clone : (j : T) (h : HashSet T) → contains j (clone h) ≡ contains j h
  unfolding contains clone new_hash_set_raw items
  contains-clone j h = ground (
    arith,
    has-insert_all j (keys h.entries) [],
    mem-keys j h.entries,
    lookup-nil {V = Unit {0}} j,
  )

  pub clone-Distinct : (h : HashSet T) → Distinct (clone h).entries
  unfolding clone new_hash_set_raw
  clone-Distinct h = insert_all-Distinct (items h) [] tt

  contains-intersect_with :
      (j : T) (h a : HashSet T) → contains j (intersect_with h a) ≡ (contains j h && contains j a)
  unfolding contains intersect_with
  contains-intersect_with j h a = ground (
    arith,
    lookup-prune (λ k. not (has k a.entries)) (keys h.entries) j h.entries,
    mem-keys j h.entries,
  )

  contains-except_with :
      (j : T) (h a : HashSet T)
      → contains j (except_with h a) ≡ (contains j h && not (contains j a))
  unfolding contains except_with
  contains-except_with j h a = ground (
    arith,
    lookup-prune (λ k. has k a.entries) (keys h.entries) j h.entries,
    mem-keys j h.entries,
  )

  contains-add : (j k : T) (h : HashSet T) → contains j (add k h).1 ≡ (k == j || contains j h)
  unfolding contains add
  contains-add j k h = ground (arith, e.equal_iff k j, lookup-insert k j tt h.entries)

  contains-union_items :
      (j : T) (h : HashSet T) (ks : List T)
      → contains j (union_items h ks) ≡ (mem j ks || contains j h)
  unfolding union_items
  contains-union_items j h [] = refl
  contains-union_items j h (k ∷ ks) = ground (
    arith,
    e.equal_iff k j,
    contains-union_items j h ks,
    contains-union_items j (add k h).1 ks,
    contains-add j k h,
  )

  contains-union_with :
      (j : T) (h a : HashSet T) → contains j (union_with h a) ≡ (contains j a || contains j h)
  unfolding union_with items
  contains-union_with j h a =
      contains-union_items j h (keys a.entries)
      ∙ ap (λ b. b || contains j h) (unfold contains in mem-keys j a.entries)

  -- An item is in the intersection exactly when it is in both sets, in the difference exactly when
  -- it is in the first and not in the second, and in the union exactly when it is in one of them.
  pub contains_algebra :
      (j : T) (h a : HashSet T)
      → (contains j (intersect h a) ≡ (contains j h && contains j a))
        × (contains j (except h a) ≡ (contains j h && not (contains j a)))
        × (contains j (union h a) ≡ (contains j a || contains j h))
  unfolding intersect except union
  contains_algebra j h a = (
    rw (contains-intersect_with j (clone h) a, contains-clone j h),
    rw (contains-except_with j (clone h) a, contains-clone j h),
    rw (contains-union_with j (clone h) a, contains-clone j h),
  )

  add-Distinct : (k : T) (h : HashSet T) → Distinct h.entries → Distinct (add k h).1.entries
  unfolding add
  add-Distinct k h d = elim (Bool-cases (has k h.entries)) [
    | inl old ↦ rw old d
    | inr new ↦ rw new (insert-Distinct k tt h.entries d)
  ]

  either-Distinct :
      (b : Bool) (h h' : HashSet T)
      → Distinct h.entries
      → Distinct h'.entries
      → Distinct (if b then h else h').entries
  either-Distinct true h h' d d' = d
  either-Distinct false h h' d d' = d'

  union_items-Distinct :
      (h : HashSet T) (ks : List T) → Distinct h.entries → Distinct (union_items h ks).entries
  unfolding union_items
  union_items-Distinct h [] d = d
  union_items-Distinct h (k ∷ ks) d =
      union_items-Distinct (if contains k h then h else (add k h).1) ks
        (either-Distinct (contains k h) h (add k h).1 d (add-Distinct k h d))

  remove-Distinct : (k : T) (h : HashSet T) → Distinct h.entries → Distinct (remove k h).1.entries
  unfolding remove
  remove-Distinct k h d = elim (Bool-cases (has k h.entries)) [
    | inl old ↦ rw old (delete-Distinct k h.entries d)
    | inr new ↦ rw new d
  ]

  -- No operation that changes a set makes it hold an item twice.
  pub operations-Distinct :
      (k : T) (raw : List T) (h a : HashSet T)
      → Distinct h.entries
      → Distinct (new_hash_set_raw raw).entries
        × Distinct (add k h).1.entries
        × Distinct (remove k h).1.entries
        × Distinct (intersect_with h a).entries
        × Distinct (except_with h a).entries
        × Distinct (union_with h a).entries
        × (Distinct (clear h).entries × (len (clear h) ≡ 0))
  unfolding new_hash_set_raw intersect_with except_with union_with clear len
  operations-Distinct k raw h a d = (
    insert_all-Distinct raw [] tt,
    add-Distinct k h d,
    remove-Distinct k h d,
    prune-Distinct (λ j. not (contains j a)) (keys h.entries) h.entries d,
    prune-Distinct (λ j. contains j a) (keys h.entries) h.entries d,
    union_items-Distinct h (items a) d,
    (rw (prune_all h.entries) tt, rw (prune_all h.entries)),
  )
