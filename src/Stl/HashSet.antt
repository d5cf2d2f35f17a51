-- ===== src/Stl/HashSet.antt =====
-- utils/stlutil/hashset.go: `HashSet`, the keys of a built-in map.
pub mod Algebra
pub mod Subset
use silvernode_go.Common.{
  ℕ, Bool, true, false, not, List, [], ◌∷◌, map, ltb, if◌then◌else◌, length, set, Comparable,
  nat_eq, bytes_eq,
}
use silvernode_go.Stl.GoMap.{GoMap, insert, delete, has}
use silvernode_go.Stl.Loops.{range_until, prune, keys}

pub record HashSet {ℓ} (T : Type ℓ) : Type ℓ where
  pub entries : GoMap T (Unit {0})
  pub breaking : Bool

module _ {ℓ} {T : Type ℓ} where
  abbrev pub new_hash_set : HashSet T
  new_hash_set = record { entries = []; breaking = false }

  unfoldable pub len : HashSet T → ℕ
  len h = length h.entries

  unfoldable pub items : HashSet T → List T
  items h = keys h.entries

  unfoldable pub for_each {μ} : {S : Type μ} → (S → T → S × Bool) → S → HashSet T → S × HashSet T
  unfolding range_until
  for_each f s h =
      let (s', b) = range_until (λ t k _. f t k) s false h.entries in
      (s', record h { breaking = b })

  unfoldable pub break : HashSet T → HashSet T
  break h = record h { breaking = true }

module _ {ℓ} {T : Type ℓ} ⦃e : Comparable T⦄ where
  unfoldable pub insert_all : GoMap T (Unit {0}) → List T → GoMap T (Unit {0})
  insert_all m [] = m
  insert_all m (item ∷ raw) = insert_all (insert item tt m) raw

  unfoldable pub new_hash_set_raw : List T → HashSet T
  unfolding insert_all
  new_hash_set_raw raw = record { entries = insert_all [] raw; breaking = false }

  unfoldable pub add : T → HashSet T → Bool × HashSet T
  add item h =
      if has item h.entries
      then (false, h)
      else (true, record h { entries = insert item tt h.entries })

  unfoldable pub remove : T → HashSet T → Bool × HashSet T
  remove item h =
      if has item h.entries
      then (true, record h { entries = delete item h.entries })
      else (false, h)

  unfoldable pub contains : T → HashSet T → Bool
  contains item h = has item h.entries

  unfoldable pub clear : HashSet T → HashSet T
  clear h = record h { entries = prune (λ k. true) (keys h.entries) h.entries }

  unfoldable pub intersect_with : HashSet T → HashSet T → HashSet T
  intersect_with h another = record h {
    entries = prune (λ k. not (contains k another)) (keys h.entries) h.entries;
  }

  unfoldable pub except_with : HashSet T → HashSet T → HashSet T
  except_with h another = record h {
    entries = prune (λ k. contains k another) (keys h.entries) h.entries;
  }

  -- The callback of `another.ForEach`, over the items of the other set; it never calls `Break`.
  unfoldable pub union_items : HashSet T → List T → HashSet T
  union_items h [] = h
  union_items h (item ∷ rest) = union_items (if contains item h then h else (add item h).1) rest

  unfoldable pub union_with : HashSet T → HashSet T → HashSet T
  unfolding union_items
  union_with h another = union_items h (items another)

  unfoldable pub clone : HashSet T → HashSet T
  clone h = new_hash_set_raw (items h)

  unfoldable pub intersect : HashSet T → HashSet T → HashSet T
  intersect h another = intersect_with (clone h) another

  unfoldable pub except : HashSet T → HashSet T → HashSet T
  except h another = except_with (clone h) another

  unfoldable pub union : HashSet T → HashSet T → HashSet T
  union h another = union_with (clone h) another

  unfoldable pub all_in : List T → HashSet T → Bool
  all_in [] another = true
  all_in (k ∷ ks) another = if not (contains k another) then false else all_in ks another

  unfoldable pub is_subset : HashSet T → HashSet T → Bool
  unfolding all_in
  is_subset h another = if ltb (len another) (len h) then false else all_in (keys h.entries) another

  unfoldable pub is_superset : HashSet T → HashSet T → Bool
  is_superset h another = is_subset another h
