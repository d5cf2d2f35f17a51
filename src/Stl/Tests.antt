-- ===== src/Stl/Tests.antt =====
-- Runs of utils/stlutil at concrete inputs, and its theorems there.
use silvernode_go.Common.{
  ℕ, ◌+◌, ◌≡◌, refl, ◌≢◌, ◌↔◌, Bool, true, false, not, ◌&&◌, ◌||◌, none, some, [], ◌∷◌, arith, pos,
  length, ◌==◌, nat_eq, bytes_eq,
}
use silvernode_go.Stl.GoMap.{lookup, Distinct}
use silvernode_go.Stl.Slices.{ok, err, invalid_key, index, count}
use silvernode_go.Stl.Map.{Map}
use silvernode_go.Stl.HashTable.{HashTable}
use silvernode_go.Stl.HashSet
use silvernode_go.Stl.HashSet.{HashSet}
use silvernode_go.Stl.HashSet.Algebra.{contains_algebra}
use silvernode_go.Stl.HashSet.Subset.{is_subset_iff}
use silvernode_go.Stl.Dictionary
use silvernode_go.Stl.Dictionary.{Dictionary}
use silvernode_go.Stl.Dictionary.Order.{IsValid}
use silvernode_go.Stl.Dictionary.Removal.{remove-IsValid, remove_first_leaves_key}
use silvernode_go.Stl.ArrayList.{ArrayList}

abbrev ages : Map ℕ ℕ
ages = record { entries = (1, 30) ∷ (2, 40) ∷ []; breaking = false }

abbrev table : HashTable ℕ ℕ
table = record { entries = (1, 30) ∷ (2, 40) ∷ []; breaking = false }

ages-Distinct : Distinct ages.entries
ages-Distinct = unfold lookup in (refl, (refl, tt))

abbrev at_two : ℕ → ℕ → Bool
at_two k v = k == 2

abbrev evens : HashSet ℕ
evens = record { entries = (2, tt) ∷ (4, tt) ∷ []; breaking = false }

abbrev small : HashSet ℕ
small = record { entries = (1, tt) ∷ (2, tt) ∷ []; breaking = false }

evens-Distinct : Distinct evens.entries
evens-Distinct = unfold lookup in (refl, (refl, tt))

small-Distinct : Distinct small.entries
small-Distinct = unfold lookup in (refl, (refl, tt))

contains_algebra_example :
    (HashSet.contains 2 (HashSet.intersect evens small)
      ≡ (HashSet.contains 2 evens && HashSet.contains 2 small))
    × (HashSet.contains 2 (HashSet.except evens small)
        ≡ (HashSet.contains 2 evens && not (HashSet.contains 2 small)))
    × (HashSet.contains 2 (HashSet.union evens small)
        ≡ (HashSet.contains 2 small || HashSet.contains 2 evens))
contains_algebra_example = contains_algebra 2 evens small

is_subset_iff_example :
    (HashSet.is_subset evens small ≡ true)
    ↔ ((j : ℕ) → HashSet.contains j evens ≡ true → HashSet.contains j small ≡ true)
is_subset_iff_example = is_subset_iff evens small evens-Distinct small-Distinct

abbrev ranks : Dictionary ℕ ℕ
ranks = record {
  keys = 1 ∷ 2 ∷ [];
  entries = (1, 30) ∷ (2, 40) ∷ [];
  breaking = false;
  comparer = none;
}

ranks-IsValid : IsValid ranks
ranks-IsValid = record {
  distinct = unfold lookup in (refl, (refl, tt));
  ordered = λ k. unfold count lookup in ground arith;
  counted = refl;
}

second_is_later : index 2 ranks.keys ≢ some 0
second_is_later = unfold index in λ e. cc

remove-IsValid_example : IsValid (Dictionary.remove 2 ranks).1
remove-IsValid_example = remove-IsValid 2 ranks ranks-IsValid second_is_later

remove_first_leaves_key_example :
    ((Dictionary.remove 1 ranks).0 ≡ true)
    × (Dictionary.contains_key 1 (Dictionary.remove 1 ranks).1 ≡ false)
    × (Dictionary.get_key (pos 0) (Dictionary.remove 1 ranks).1 ≡ ok 1)
    × (Dictionary.get_value (pos 0) (Dictionary.remove 1 ranks).1 ≡ err invalid_key)
    × (length (Dictionary.remove 1 ranks).1.keys ≡ Dictionary.len (Dictionary.remove 1 ranks).1 + 1)
unfolding index
remove_first_leaves_key_example = remove_first_leaves_key 1 ranks ranks-IsValid refl

abbrev turned : Dictionary ℕ ℕ
turned = record ranks { keys = 2 ∷ 1 ∷ [] }

abbrev letters : ArrayList ℕ
letters = record { array = 7 ∷ 8 ∷ 7 ∷ []; breaking = false; comparer = none }
