-- ===== src/Stl/Dictionary.antt =====
-- utils/stlutil/dictionary.go: `Dictionary`, a map that keeps its keys in the order of insertion.
pub mod Order
pub mod Removal
use silvernode_go.Common.{
  ℕ, zero, suc, ◌<◌, Bool, true, false, ◌||◌, Option, none, some, List, [], ◌∷◌, ◌++◌, map, ltb,
  if◌then◌else◌, ℤ, pos, negsuc, Run, ret, panic, ◌>>=◌, length, get_elem?, Comparable,
}
use silvernode_go.Stl.GoMap.{GoMap, lookup, insert, delete, has}
use silvernode_go.Stl.Loops.{prune}
use silvernode_go.Stl.Loops
use silvernode_go.Stl.Map.{has_value}
use silvernode_go.Stl.Slices.{
  Result, ok, err, Fault, out_of_range, invalid_key, index, cut, swap_at,
}

pub record Dictionary {ℓ κ} (K : Type ℓ) (V : Type κ) : Type (ℓ ⊔ κ) where
  pub keys : List K
  pub entries : GoMap K V
  pub breaking : Bool
  pub comparer : Option (V → V → Bool)

module _ {ℓ} {K : Type ℓ} where
  abbrev pub at_index : Option K → Result K
  at_index none = err out_of_range
  at_index (some k) = ok k

  -- `if index > 0 { d._keys = append(d._keys[:index], d._keys[index+1:]...) }`
  unfoldable pub drop_key : Option ℕ → List K → List K
  drop_key none ks = ks
  drop_key (some i) ks = if ltb 0 i then cut ks i else ks

module _ {κ} {V : Type κ} where
  abbrev pub value_of : Option V → Result V
  value_of none = err invalid_key
  value_of (some v) = ok v

  abbrev pub compared : Option (V → V → Bool) → Result V → Result V → Bool
  compared none one another = false
  compared (some f) (ok a) (ok b) = f a b
  compared (some f) (ok a) (err x) = false
  compared (some f) (err x) another = false

  abbrev pub or_default : V → Option V → V
  or_default zero_value none = zero_value
  or_default zero_value (some v) = v

module _ {ℓ κ} {K : Type ℓ} {V : Type κ} where
  abbrev pub new_dictionary : Dictionary K V
  new_dictionary = record { keys = []; entries = []; breaking = false; comparer = none }

  unfoldable pub len : Dictionary K V → ℕ
  len d = length d.entries

  -- `index < 0 || index >= len(d._keys)`
  unfoldable pub get_key : ℤ → Dictionary K V → Result K
  get_key (negsuc i) d = err out_of_range
  get_key (pos i) d = at_index (get_elem? d.keys i)

  abbrev pub swapped : Dictionary K V → Option (List K) → Run (Dictionary K V)
  swapped d none = panic
  swapped d (some ks) = ret (record d { keys = ks })

  -- Only an index above the length is refused; the length itself and a negative index panic.
  unfoldable pub swap : ℤ → ℤ → Dictionary K V → Run (Dictionary K V)
  swap (pos i) (pos j) d =
      if ltb (length d.keys) i || ltb (length d.keys) j
      then ret d
      else swapped d (swap_at d.keys i j)
  swap (pos i) (negsuc j) d = if ltb (length d.keys) i then ret d else panic
  swap (negsuc i) (pos j) d = if ltb (length d.keys) j then ret d else panic
  swap (negsuc i) (negsuc j) d = panic

  unfoldable pub set_comparer : Option (V → V → Bool) → Dictionary K V → Dictionary K V
  set_comparer fun d = record d { comparer = fun }

  unfoldable pub break : Dictionary K V → Dictionary K V
  break d = record d { breaking = true }

  -- `sort.Sort` changes the dictionary by calls of `Swap` alone; which ones is the library's.
  unfoldable pub sort : List (ℕ × ℕ) → Dictionary K V → Run (Dictionary K V)
  sort [] d = ret d
  sort ((i, j) ∷ swaps) d = swap (pos i) (pos j) d >>= sort swaps

module _ {ℓ κ} {K : Type ℓ} {V : Type κ} ⦃e : Comparable K⦄ where
  unfoldable pub add : K → V → Dictionary K V → Bool × Dictionary K V
  add key value d =
      if has key d.entries
      then (false, d)
      else (true, record d { keys = d.keys ++ (key ∷ []); entries = insert key value d.entries })

  unfoldable pub remove : K → Dictionary K V → Bool × Dictionary K V
  remove key d =
      if has key d.entries
      then (
        true,
        record d { entries = delete key d.entries; keys = drop_key (index key d.keys) d.keys },
      )
      else (false, d)

  unfoldable pub set : K → V → Dictionary K V → Dictionary K V
  set key value d = record d {
    keys = if has key d.entries then d.keys else d.keys ++ (key ∷ []);
    entries = insert key value d.entries;
  }

  unfoldable pub get : K → Dictionary K V → Option V
  get key d = lookup key d.entries

  unfoldable pub contains_key : K → Dictionary K V → Bool
  contains_key key d = has key d.entries

  abbrev pub value_at : GoMap K V → Result K → Result V
  value_at m (err f) = err f
  value_at m (ok k) = value_of (lookup k m)

  unfoldable pub get_value : ℤ → Dictionary K V → Result V
  get_value i d = value_at d.entries (get_key i d)

  unfoldable pub less : ℤ → ℤ → Dictionary K V → Bool
  less i j d = compared d.comparer (get_value i d) (get_value j d)

  -- The loop over the keys from index `i` on: a key with no entry gives Go's zero value.
  unfoldable pub walk {μ} :
      {S : Type μ} → V → GoMap K V → (S → ℕ → K → V → S × Bool) → S → Bool → ℕ → List K → S × Bool
  walk zero_value m f s b i [] = (s, b)
  walk zero_value m f s true i (k ∷ ks) = (s, true)
  walk zero_value m f s false i (k ∷ ks) =
      let (s', b) = f s i k (or_default zero_value (lookup k m)) in
      walk zero_value m f s' b (suc i) ks

  unfoldable pub for_each {μ} :
      {S : Type μ} → V → (S → ℕ → K → V → S × Bool) → S → Dictionary K V → S × Dictionary K V
  unfolding walk
  for_each zero_value f s d =
      let (s', b) = walk zero_value d.entries f s false 0 d.keys in (s', record d { breaking = b })

  unfoldable pub clear : Dictionary K V → Dictionary K V
  clear d = record d { entries = prune (λ k. true) (Loops.keys d.entries) d.entries; keys = [] }

module _ {ℓ κ} {K : Type ℓ} {V : Type κ} ⦃e : Comparable V⦄ where
  unfoldable pub contains_value : V → Dictionary K V → Bool
  unfolding has_value
  contains_value value d = has_value value d.entries
