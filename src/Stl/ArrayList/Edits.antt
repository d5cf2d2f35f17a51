-- ===== src/Stl/ArrayList/Edits.antt =====
-- What the edits of utils/stlutil/list.go do to the items, and where they panic.
use silvernode_go.Common.{
  ℕ, zero, suc, ◌+◌, ◌≤◌, ◌<◌, ◌≡◌, refl, ap, ◌↔◌, inl, inr, false, ◌&&◌, none, some, List, [], ◌∷◌,
  ◌++◌, arith, pos, ret, panic, length, get_elem?, take, drop, le→ltb_false, ltb_irrefl, ltb_next,
  Comparable, ◌==◌,
}
use silvernode_go.Common.{get_elem?-length}
use silvernode_go.Stl.Slices.{
  ok, err, out_of_range, index_cases, cut_parts, count, count-cut-index, one_if,
}
use silvernode_go.Stl.ArrayList.{
  ArrayList, insert, remove_at, get, set_item, index_of, contains, remove, at_index, list_len,
}

module _ {ℓ} {T : Type ℓ} where
  splice : List T → ℕ → T → List T
  splice xs i x = (take i xs ++ (x ∷ [])) ++ drop i xs

  splice_before :
      (xs : List T) (i j : ℕ) (x : T)
      → i ≤ length xs
      → j < i
      → get_elem? (splice xs i x) j ≡ get_elem? xs j
  unfolding splice
  splice_before xs zero j x h lt = absurd (omega arith)
  splice_before [] (suc i) j x h lt = absurd (omega arith)
  splice_before (y ∷ xs) (suc i) zero x h lt = refl
  splice_before (y ∷ xs) (suc i) (suc j) x h lt = splice_before xs i j x (omega arith) (omega arith)

  splice_at : (xs : List T) (i : ℕ) (x : T) → i ≤ length xs → get_elem? (splice xs i x) i ≡ some x
  unfolding splice
  splice_at xs zero x h = refl
  splice_at [] (suc i) x h = absurd (omega arith)
  splice_at (y ∷ xs) (suc i) x h = splice_at xs i x (omega arith)

  splice_after :
      (xs : List T) (i j : ℕ) (x : T)
      → i ≤ length xs
      → i ≤ j
      → get_elem? (splice xs i x) (suc j) ≡ get_elem? xs j
  unfolding splice
  splice_after xs zero j x h le = refl
  splice_after [] (suc i) j x h le = absurd (omega arith)
  splice_after (y ∷ xs) (suc i) zero x h le = absurd (omega arith)
  splice_after (y ∷ xs) (suc i) (suc j) x h le = splice_after xs i j x (omega arith) (omega arith)

  -- Where the index is at most the length, `Insert` returns nil; the item then stands at the index,
  -- what stood before it is unchanged, and what stood at it or after it is one place further on.
  pub get-insert :
      (i : ℕ) (x : T) (l : ArrayList T)
      → i ≤ length l.array
      → (l' : ArrayList T) × (insert (pos i) x l ≡ ret (none, l'))
        × (get (pos i) l' ≡ ok x)
        × ((j : ℕ) → j < i → get (pos j) l' ≡ get (pos j) l)
        × ((j : ℕ) → i ≤ j → get (pos (suc j)) l' ≡ get (pos j) l)
  unfolding insert get splice
  get-insert i x l h = (
    record l { array = splice l.array i x },
    rw (le→ltb_false i (length l.array) h),
    ap at_index (splice_at l.array i x h),
    λ j lt. ap at_index (splice_before l.array i j x h lt),
    λ j le. ap at_index (splice_after l.array i j x h le),
  )

  -- The bounds that the methods test are off by one: at the length itself `Get` reports an error,
  -- and `RemoveAt` and `Set` panic; one further on all three report the error.
  pub at_length :
      (x : T) (l : ArrayList T)
      → (get (pos (list_len l)) l ≡ err out_of_range)
        × (remove_at (pos (list_len l)) l ≡ panic)
        × (set_item (pos (list_len l)) x l ≡ panic)
        × (remove_at (pos (list_len l + 1)) l ≡ ret (some out_of_range, l))
        × (set_item (pos (list_len l + 1)) x l ≡ ret (some out_of_range, l))
  unfolding get remove_at set_item list_len
  at_length x l = (
    rw get_elem?-length,
    rw (ltb_irrefl (length l.array), ltb_next (length l.array)),
    rw ltb_irrefl,
    rw ltb_next,
    rw ltb_next,
  )

module _ {ℓ} {T : Type ℓ} ⦃e : Comparable T⦄ where
  -- `Remove` never panics. It answers true exactly when the item is in the list, and then the list
  -- holds it once less, and every other item as often as before.
  pub count-remove :
      (x : T) (l : ArrayList T)
      → (l' : ArrayList T) × (remove x l ≡ ret (contains x l, l'))
        × ((y : T) → count y l'.array + one_if (contains x l && x == y) ≡ count y l.array)
        × ((contains x l ≡ false) ↔ (count x l.array ≡ 0))
  unfolding remove contains index_of remove_at
  count-remove x l = elim (index_cases x l.array) [
    | inr (nowhere, c) ↦ (l, rw nowhere, λ y. rw nowhere (omega arith), (λ _. c, λ _. rw nowhere))
    | inl (i, at, lt, here) ↦ (
      record l { array = take i l.array ++ drop (i + 1) l.array },
      rw at (ground arith),
      λ y.
          rw at
            (ground (arith, ap (count y) (cut_parts l.array i), count-cut-index x y l.array i at)),
      (
        λ p. absurd (ground (arith, at, p)),
        λ c. absurd (ground (arith, count-cut-index x x l.array i at, e.equal_iff x x)),
      ),
    )
  ]
