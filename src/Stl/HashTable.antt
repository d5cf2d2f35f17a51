-- ===== src/Stl/HashTable.antt =====
-- utils/stlutil/hashtable.go: `HashTable`, the same over values that need not be comparable.
pub mod Lookup
use silvernode_go.Common.{ℕ, Bool, true, false, Option, [], ◌∷◌, length, if◌then◌else◌, Comparable}
use silvernode_go.Stl.GoMap.{GoMap, lookup, insert, delete, has}
use silvernode_go.Stl.Loops.{range_until, prune, keys}

pub record HashTable {ℓ κ} (K : Type ℓ) (V : Type κ) : Type (ℓ ⊔ κ) where
  pub entries : GoMap K V
  pub breaking : Bool

module _ {ℓ κ} {K : Type ℓ} {V : Type κ} where
  abbrev pub new_hash_table : HashTable K V
  new_hash_table = record { entries = []; breaking = false }

  abbrev pub new_hash_table_raw : GoMap K V → HashTable K V
  new_hash_table_raw raw = record { entries = raw; breaking = false }

  unfoldable pub len : HashTable K V → ℕ
  len h = length h.entries

  unfoldable pub for_each {μ} :
      {S : Type μ} → (S → K → V → S × Bool) → S → HashTable K V → S × HashTable K V
  unfolding range_until
  for_each f s h = let (s', b) = range_until f s false h.entries in (s', record h { breaking = b })

  unfoldable pub break : HashTable K V → HashTable K V
  break h = record h { breaking = true }

module _ {ℓ κ} {K : Type ℓ} {V : Type κ} ⦃e : Comparable K⦄ where
  unfoldable pub add : K → V → HashTable K V → Bool × HashTable K V
  add key value h =
      if has key h.entries
      then (false, h)
      else (true, record h { entries = insert key value h.entries })

  unfoldable pub remove : K → HashTable K V → Bool × HashTable K V
  remove key h =
      if has key h.entries then (true, record h { entries = delete key h.entries }) else (false, h)

  unfoldable pub set : K → V → HashTable K V → HashTable K V
  set key value h = record h { entries = insert key value h.entries }

  unfoldable pub get : K → HashTable K V → Option V
  get key h = lookup key h.entries

  unfoldable pub contains_key : K → HashTable K V → Bool
  contains_key key h = has key h.entries

  unfoldable pub copy : GoMap K V → GoMap K V → GoMap K V
  copy ret [] = ret
  copy ret ((k, v) ∷ m) = copy (insert k v ret) m

  unfoldable pub key_value_pairs : HashTable K V → GoMap K V
  unfolding copy
  key_value_pairs h = copy [] h.entries

  unfoldable pub clear : HashTable K V → HashTable K V
  clear h = record h { entries = prune (λ k. true) (keys h.entries) h.entries }
