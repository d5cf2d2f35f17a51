-- ===== src/Stl/Slices.antt =====
-- What utils/stlutil does with a slice: the first index of an item, a cut, an exchange.
use silvernode_go.Common.{
  ℕ, zero, suc, ◌+◌, ◌<◌, ◌≡◌, refl, ap, ◌⊎◌, inl, inr, Bool, true, false, Option, none, some, List,
  [], ◌∷◌, ◌++◌, arith, if◌then◌else◌, Bool-cases, length, get_elem?, set, take, drop, length-set,
  Comparable, ◌==◌,
}

-- Why a method of utils/stlutil returns an error.
pub data Fault : Type 0 where
  out_of_range invalid_key : Fault

pub data Result {ℓ} (A : Type ℓ) : Type ℓ where
  ok : A → Result A
  err : Fault → Result A

module _ {ℓ} {A : Type ℓ} where
  -- `append(s[:i], s[i+1:]...)`, in range
  unfoldable pub cut : List A → ℕ → List A
  cut [] i = []
  cut (x ∷ xs) zero = xs
  cut (x ∷ xs) (suc i) = x ∷ cut xs i

  abbrev exchange : List A → ℕ → ℕ → Option A → Option A → Option (List A)
  exchange xs i j none b = none
  exchange xs i j (some a) none = none
  exchange xs i j (some a) (some b) = some (set (set xs i b) j a)

  -- `s[i], s[j] = s[j], s[i]`; `none` is the panic on an index out of range
  unfoldable pub swap_at : List A → ℕ → ℕ → Option (List A)
  swap_at xs i j = exchange xs i j (get_elem? xs i) (get_elem? xs j)

  pub length-cut : (xs : List A) (i : ℕ) → i < length xs → length (cut xs i) + 1 ≡ length xs
  unfolding cut
  length-cut [] i h = elim h [ ]
  length-cut (x ∷ xs) zero h = omega arith
  length-cut (x ∷ xs) (suc i) h = omega (arith, length-cut xs i (omega arith))

  pub cut_parts : (xs : List A) (i : ℕ) → cut xs i ≡ take i xs ++ drop (suc i) xs
  unfolding cut
  cut_parts [] zero = refl
  cut_parts [] (suc i) = refl
  cut_parts (x ∷ xs) zero = refl
  cut_parts (x ∷ xs) (suc i) = ap (λ t. x ∷ t) (cut_parts xs i)

  pub length-swap_at : (xs ys : List A) (i j : ℕ) → swap_at xs i j ≡ some ys → length ys ≡ length xs
  unfolding swap_at
  length-swap_at xs ys i j h = go (get_elem? xs i) (get_elem? xs j) h
    where
      go : (a b : Option A) → exchange xs i j a b ≡ some ys → length ys ≡ length xs
      go none b h = cc
      go (some a) none h = cc
      go (some a) (some b) h = ground (arith, h, length-set (set xs i b) j a, length-set xs i b)

abbrev pub next_index : Option ℕ → Option ℕ
next_index none = none
next_index (some i) = some (suc i)

abbrev pub one_if : Bool → ℕ
one_if true = 1
one_if false = 0

module _ {ℓ} {A : Type ℓ} ⦃e : Comparable A⦄ where
  -- The first index at which the item stands; `none` is the source's -1.
  unfoldable pub index : A → List A → Option ℕ
  index a [] = none
  index a (x ∷ xs) = if x == a then some 0 else next_index (index a xs)

  -- How often the item stands in the list.
  unfoldable pub count : A → List A → ℕ
  count a [] = 0
  count a (x ∷ xs) = one_if (x == a) + count a xs

  pub count-append : (a : A) (xs ys : List A) → count a (xs ++ ys) ≡ count a xs + count a ys
  unfolding count
  count-append a [] ys = omega arith
  count-append a (x ∷ xs) ys = omega (arith, count-append a xs ys)

  pub count-set :
      (a v x : A) (xs : List A) (i : ℕ)
      → get_elem? xs i ≡ some x
      → count a (set xs i v) + one_if (x == a) ≡ count a xs + one_if (v == a)
  unfolding count
  count-set a v x [] i h = cc
  count-set a v x (y ∷ xs) zero h = ground arith
  count-set a v x (y ∷ xs) (suc i) h = omega (arith, count-set a v x xs i h)

  pub count-cut-index :
      (a j : A) (xs : List A) (i : ℕ)
      → index a xs ≡ some i
      → count j (cut xs i) + one_if (a == j) ≡ count j xs
  unfolding count cut index
  count-cut-index a j [] i h = cc
  count-cut-index a j (x ∷ xs) zero h = ground (arith, e.equal_iff x a)
  count-cut-index a j (x ∷ xs) (suc i) h = ground (arith, count-cut-index a j xs i)

  pub index_cases :
      (a : A) (xs : List A)
      → ((i : ℕ) × (index a xs ≡ some i) × (i < length xs) × (get_elem? xs i ≡ some a))
        ⊎ ((index a xs ≡ none) × (count a xs ≡ 0))
  unfolding index count
  index_cases a [] = inr (refl, refl)
  index_cases a (x ∷ xs) = elim (Bool-cases (x == a)) [
    | inl e1 ↦ inl (0, rw e1, omega arith, ap some ((e.equal_iff x a).0 e1))
    | inr e0 ↦ elim (index_cases a xs) [
      | inl (i, h, l, g) ↦ inl (suc i, rw (e0, h), omega arith, g)
      | inr (h, c) ↦ inr (rw (e0, h), rw (e0, c) (omega arith))
    ]
  ]

  get_elem?-set_same :
      (xs : List A) (i j : ℕ) (b : A) → get_elem? xs j ≡ some b → get_elem? (set xs i b) j ≡ some b
  get_elem?-set_same [] i j b h = h
  get_elem?-set_same (x ∷ xs) zero zero b h = refl
  get_elem?-set_same (x ∷ xs) zero (suc j) b h = h
  get_elem?-set_same (x ∷ xs) (suc i) zero b h = h
  get_elem?-set_same (x ∷ xs) (suc i) (suc j) b h = get_elem?-set_same xs i j b h

  -- An exchange keeps how often each item stands in the list.
  pub count-swap_at :
      (k : A) (xs ys : List A) (i j : ℕ) → swap_at xs i j ≡ some ys → count k ys ≡ count k xs
  unfolding swap_at
  count-swap_at k xs ys i j h = go (get_elem? xs i) (get_elem? xs j) refl refl h
    where
      go :
          (a b : Option A)
          → get_elem? xs i ≡ a
          → get_elem? xs j ≡ b
          → exchange xs i j a b ≡ some ys
          → count k ys ≡ count k xs
      go none b p q h = cc
      go (some a) none p q h = cc
      go (some a) (some b) p q h = ground (
        arith,
        h,
        count-set k b a xs i p,
        count-set k a b (set xs i b) j (get_elem?-set_same xs i j b q),
      )
