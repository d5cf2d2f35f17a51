-- ===== src/Stl/GoMap.antt =====
-- Go's built-in map, as the list of its entries in the order in which this run ranges over them.
use silvernode_go.Common.{
  ◌+◌, ◌≡◌, refl, Bool, false, Option, none, some, List, [], ◌∷◌, arith, if◌then◌else◌, is_some,
  length, Comparable, ◌==◌, nat_eq, bytes_eq,
}

abbrev pub GoMap {ℓ κ} : Type ℓ → Type κ → Type (ℓ ⊔ κ)
GoMap K V = List (K × V)

module _ {ℓ κ} {K : Type ℓ} {V : Type κ} ⦃e : Comparable K⦄ where
  -- `v, ok := m[k]`
  unfoldable pub lookup : K → GoMap K V → Option V
  lookup k [] = none
  lookup k ((j, v) ∷ m) = if j == k then some v else lookup k m

  -- `m[k] = v`
  unfoldable pub insert : K → V → GoMap K V → GoMap K V
  insert k v [] = (k, v) ∷ []
  insert k v ((j, w) ∷ m) = if j == k then (j, v) ∷ m else (j, w) ∷ insert k v m

  -- `delete(m, k)`
  unfoldable pub delete : K → GoMap K V → GoMap K V
  delete k [] = []
  delete k ((j, w) ∷ m) = let rest = delete k m in if j == k then rest else (j, w) ∷ rest

  abbrev pub has : K → GoMap K V → Bool
  has k m = is_some (lookup k m)

  -- A map holds no key twice.
  abbrev pub Distinct : GoMap K V → Type 0
  Distinct [] = Unit
  Distinct ((j, w) ∷ m) = (has j m ≡ false) × Distinct m

  pub lookup-nil : (k : K) → lookup k [] ≡ none
  unfolding lookup
  lookup-nil k = refl

  pub lookup-insert :
      (key other : K) (value : V) (entries : GoMap K V)
      → lookup other (insert key value entries)
        ≡ (if key == other then some value else lookup other entries)
  unfolding insert lookup
  lookup-insert key other value [] = refl
  lookup-insert key other value ((i, old) ∷ entries) = ground (
    lookup-insert key other value entries,
    arith,
    e.equal_iff i key,
    e.equal_iff i other,
    e.equal_iff key other,
  )

  pub lookup-delete :
      (k j : K) (m : GoMap K V) → lookup j (delete k m) ≡ (if k == j then none else lookup j m)
  unfolding lookup delete
  lookup-delete k j [] = ground arith
  lookup-delete k j ((i, w) ∷ m) =
      ground (arith, e.equal_iff k j, e.equal_iff i k, e.equal_iff i j, lookup-delete k j m)

  pub insert-Distinct : (k : K) (v : V) (m : GoMap K V) → Distinct m → Distinct (insert k v m)
  unfolding lookup insert
  insert-Distinct k v [] d = (refl, tt)
  insert-Distinct k v ((j, w) ∷ m) d =
      ground
        (arith, e.equal_iff k j, e.equal_iff j k, lookup-insert k j v m, insert-Distinct k v m d.1)

  pub delete-Distinct : (k : K) (m : GoMap K V) → Distinct m → Distinct (delete k m)
  unfolding lookup delete
  delete-Distinct k [] d = tt
  delete-Distinct k ((j, w) ∷ m) d =
      ground (arith, e.equal_iff k j, lookup-delete k j m, delete-Distinct k m d.1)

  pub length-insert :
      (k : K) (v : V) (m : GoMap K V)
      → length (insert k v m) ≡ (if has k m then length m else length m + 1)
  unfolding lookup insert
  length-insert k v [] = omega arith
  length-insert k v ((j, w) ∷ m) = ground (arith, length-insert k v m)

  delete_absent : (k : K) (m : GoMap K V) → lookup k m ≡ none → delete k m ≡ m
  unfolding lookup delete
  delete_absent k [] h = refl
  delete_absent k ((j, w) ∷ m) h = ground (arith, delete_absent k m)

  pub delete-insert :
      (k : K) (v : V) (m : GoMap K V) → lookup k m ≡ none → delete k (insert k v m) ≡ m
  unfolding lookup insert delete
  delete-insert k v [] h = ground (arith, e.equal_iff k k)
  delete-insert k v ((j, w) ∷ m) h = ground (arith, delete-insert k v m)

  pub insert-insert : (k : K) (v w : V) (m : GoMap K V) → insert k v (insert k w m) ≡ insert k v m
  unfolding insert
  insert-insert k v w [] = ground (arith, e.equal_iff k k)
  insert-insert k v w ((j, u) ∷ m) = ground (arith, insert-insert k v w m)

  pub length-delete :
      (k : K) (m : GoMap K V)
      → Distinct m
      → length m ≡ (if has k m then length (delete k m) + 1 else length (delete k m))
  unfolding lookup delete
  length-delete k [] d = refl
  length-delete k ((j, w) ∷ m) d =
      ground (arith, e.equal_iff j k, length-delete k m d.1, delete_absent k m)
