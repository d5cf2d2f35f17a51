-- ===== src/Stl/Map.antt =====
-- utils/stlutil/map.go: `Map`, a built-in map behind a lock. Each method holds the lock throughout,
-- so it is one atomic function from the state to the new state.
pub mod Lookup
use silvernode_go.Common.{
  ℕ, Bool, true, false, Option, [], ◌∷◌, length, if◌then◌else◌, Comparable, ◌==◌,
}
use silvernode_go.Stl.GoMap.{GoMap, lookup, insert, delete, has}
use silvernode_go.Stl.Loops.{range_until, prune, keys}

pub record Map {ℓ κ} (K : Type ℓ) (V : Type κ) : Type (ℓ ⊔ κ) where
  pub entries : GoMap K V
  pub breaking : Bool

module _ {ℓ κ} {K : Type ℓ} {V : Type κ} where
  abbrev pub new_map : Map K V
  new_map = record { entries = []; breaking = false }

  abbrev pub new_map_raw : GoMap K V → Map K V
  new_map_raw raw = record { entries = raw; breaking = false }

  unfoldable pub len : Map K V → ℕ
  len d = length d.entries

  -- `d.Break()` inside the callback is the flag that the callback returns.
  unfoldable pub for_each {μ} : {S : Type μ} → (S → K → V → S × Bool) → S → Map K V → S × Map K V
  unfolding range_until
  for_each f s d = let (s', b) = range_until f s false d.entries in (s', record d { breaking = b })

  unfoldable pub break : Map K V → Map K V
  break d = record d { breaking = true }

  abbrev pub raw : Map K V → GoMap K V
  raw d = d.entries

module _ {ℓ κ} {K : Type ℓ} {V : Type κ} ⦃e : Comparable K⦄ where
  unfoldable pub add : K → V → Map K V → Bool × Map K V
  add key value d =
      if has key d.entries
      then (false, d)
      else (true, record d { entries = insert key value d.entries })

  unfoldable pub remove : K → Map K V → Bool × Map K V
  remove key d =
      if has key d.entries then (true, record d { entries = delete key d.entries }) else (false, d)

  unfoldable pub set : K → V → Map K V → Map K V
  set key value d = record d { entries = insert key value d.entries }

  unfoldable pub get : K → Map K V → Option V
  get key d = lookup key d.entries

  unfoldable pub contains_key : K → Map K V → Bool
  contains_key key d = has key d.entries

  unfoldable pub copy : GoMap K V → GoMap K V → GoMap K V
  copy ret [] = ret
  copy ret ((k, v) ∷ m) = copy (insert k v ret) m

  unfoldable pub key_value_pairs : Map K V → GoMap K V
  unfolding copy
  key_value_pairs d = copy [] d.entries

  unfoldable pub clear : Map K V → Map K V
  clear d = record d { entries = prune (λ k. true) (keys d.entries) d.entries }

module _ {ℓ κ} {K : Type ℓ} {V : Type κ} ⦃e : Comparable V⦄ where
  unfoldable pub has_value : V → GoMap K V → Bool
  has_value value [] = false
  has_value value ((k, v) ∷ m) = if v == value then true else has_value value m

  unfoldable pub contains_value : V → Map K V → Bool
  unfolding has_value
  contains_value value d = has_value value d.entries
