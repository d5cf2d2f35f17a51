-- ===== src/Stl/Loops.antt =====
-- The loops that range over a map: with `Break`, and with a `delete` of the key at hand.
use silvernode_go.Common.{
  ◌≡◌, refl, ap, Bool, true, false, none, List, [], ◌∷◌, ◌++◌, ◌&&◌, ◌||◌, arith, if◌then◌else◌,
  Comparable, ◌==◌,
}
use silvernode_go.Stl.GoMap.{GoMap, lookup, delete, has, lookup-delete, delete-Distinct, Distinct}

-- The callback returns its own state and whether it called `Break`; the loop tests `breaking`
-- before each call. The result is the callback's state and the last value of `breaking`.
module _ {ℓ κ μ} {K : Type ℓ} {V : Type κ} {S : Type μ} where
  unfoldable pub range_until : (S → K → V → S × Bool) → S → Bool → GoMap K V → S × Bool
  range_until f s b [] = (s, b)
  range_until f s true ((k, v) ∷ m) = (s, true)
  range_until f s false ((k, v) ∷ m) = let (s', b) = f s k v in range_until f s' b m

module _ {ℓ κ} {K : Type ℓ} {V : Type κ} where
  abbrev pub keys : GoMap K V → List K
  keys [] = []
  keys ((k, v) ∷ m) = k ∷ keys m

  -- The entries up to and with the first that `stop` accepts.
  abbrev pub until : (K → V → Bool) → GoMap K V → GoMap K V
  until stop [] = []
  until stop ((k, v) ∷ m) = (k, v) ∷ (if stop k v then [] else until stop m)

  -- A callback that records what it is called with, and breaks where `stop` says so.
  abbrev pub record_until : (K → V → Bool) → GoMap K V → K → V → GoMap K V × Bool
  record_until stop seen k v = (seen ++ ((k, v) ∷ []), stop k v)

  broken_stays :
      (stop : K → V → Bool) (seen m : GoMap K V)
      → (range_until (record_until stop) seen true m).0 ≡ seen
  unfolding range_until
  broken_stays stop seen [] = refl
  broken_stays stop seen ((k, v) ∷ m) = refl

module _ {ℓ κ} {K : Type ℓ} {V : Type κ} where
  append_one :
      (xs : GoMap K V) (x : K × V) (ys : GoMap K V) → (xs ++ (x ∷ [])) ++ ys ≡ xs ++ (x ∷ ys)
  append_one [] x ys = refl
  append_one (z ∷ xs) x ys = ap (λ t. z ∷ t) (append_one xs x ys)

  append_none : (xs : GoMap K V) → xs ++ [] ≡ xs
  append_none [] = refl
  append_none (z ∷ xs) = ap (λ t. z ∷ t) (append_none xs)

  pub range_until_lem :
      (stop : K → V → Bool) (seen m : GoMap K V)
      → (range_until (record_until stop) seen false m).0 ≡ seen ++ until stop m
  unfolding range_until
  range_until_lem stop seen [] = ground (arith, append_none seen)
  range_until_lem stop seen ((k, v) ∷ m) = ground (
    arith,
    append_one seen (k, v) [],
    append_one seen (k, v) (until stop m),
    broken_stays stop (seen ++ ((k, v) ∷ [])) m,
    range_until_lem stop (seen ++ ((k, v) ∷ [])) m,
  )

module _ {ℓ} {K : Type ℓ} ⦃e : Comparable K⦄ where
  abbrev pub mem : K → List K → Bool
  mem j [] = false
  mem j (k ∷ ks) = k == j || mem j ks

module _ {ℓ κ} {K : Type ℓ} {V : Type κ} ⦃e : Comparable K⦄ where
  -- `for k := range m { if test(k) { delete(m, k) } }`; only the key at hand is deleted, so the
  -- keys that the loop visits are those of the map at its start.
  unfoldable pub prune : (K → Bool) → List K → GoMap K V → GoMap K V
  prune test [] m = m
  prune test (k ∷ ks) m = prune test ks (if test k then delete k m else m)

  pub lookup-prune :
      (test : K → Bool) (ks : List K) (j : K) (m : GoMap K V)
      → lookup j (prune test ks m) ≡ (if mem j ks && test j then none else lookup j m)
  unfolding prune
  lookup-prune test [] j m = refl
  lookup-prune test (k ∷ ks) j m = ground (
    arith,
    e.equal_iff k j,
    lookup-prune test ks j (delete k m),
    lookup-prune test ks j m,
    lookup-delete k j m,
  )

  pub prune-Distinct :
      (test : K → Bool) (ks : List K) (m : GoMap K V) → Distinct m → Distinct (prune test ks m)
  unfolding prune
  prune-Distinct test [] m d = d
  prune-Distinct test (k ∷ ks) m d = ground (
    arith,
    prune-Distinct test ks (delete k m) (delete-Distinct k m d),
    prune-Distinct test ks m d,
  )

  pub mem-keys : (j : K) (m : GoMap K V) → mem j (keys m) ≡ has j m
  unfolding lookup
  mem-keys j [] = refl
  mem-keys j ((k, v) ∷ m) = ground (arith, mem-keys j m)

  -- A map in which no key is found holds no entry.
  pub empty_of_none : (m : GoMap K V) → ((j : K) → has j m ≡ false) → m ≡ []
  unfolding lookup
  empty_of_none [] h = refl
  empty_of_none ((k, v) ∷ m) h = ground (arith, h k, e.equal_iff k k)

  -- Deleting every key that the map has leaves the empty map.
  pub prune_all : (m : GoMap K V) → prune (λ k. true) (keys m) m ≡ []
  prune_all m =
      empty_of_none (prune (λ k. true) (keys m) m)
        λ j. ground (arith, lookup-prune (λ k. true) (keys m) j m, mem-keys j m)
