-- ===== src/Stl/ArrayList.antt =====
-- utils/stlutil/list.go: `List`, a slice behind a lock. A method returns its error (`none` is nil)
-- and the new state, or panics where the runtime refuses an index.
pub mod Edits
use silvernode_go.Common.{
  ℕ, ◌+◌, Bool, true, false, not, ◌||◌, Option, none, some, List, [], ◌∷◌, ◌++◌, ltb, if◌then◌else◌,
  ℤ, pos, negsuc, ltb_ℤ, Run, ret, panic, ◌>>=◌, length, get_elem?, set, take, drop, Comparable,
}
use silvernode_go.Stl.Slices.{Result, ok, err, Fault, out_of_range, index, swap_at}

pub record ArrayList {ℓ} (T : Type ℓ) : Type ℓ where
  pub array : List T
  pub breaking : Bool
  pub comparer : Option (T → T → Bool)

abbrev pub Failure : Type 0
Failure = Option Fault

-- The source's -1 for an item that is not there.
abbrev pub as_int : Option ℕ → ℤ
as_int none = negsuc 0
as_int (some i) = pos i

module _ {ℓ} {T : Type ℓ} where
  abbrev pub new_list : ArrayList T
  new_list = record { array = []; breaking = false; comparer = none }

  abbrev pub new_list_raw : List T → ArrayList T
  new_list_raw raw = record { array = raw; breaking = false; comparer = none }

  unfoldable pub add : T → ArrayList T → ArrayList T
  add item l = record l { array = l.array ++ (item ∷ []) }

  unfoldable pub insert : ℤ → T → ArrayList T → Run (Failure × ArrayList T)
  insert (negsuc i) item l = panic
  insert (pos i) item l =
      if ltb (length l.array) i
      then ret (some out_of_range, l)
      else let after = drop i l.array in
        let before = take i l.array in
        ret (none, record l { array = (before ++ (item ∷ [])) ++ after })

  -- `l.array[index+1:]` panics where the index is the length.
  unfoldable pub remove_at : ℤ → ArrayList T → Run (Failure × ArrayList T)
  remove_at (negsuc i) l = panic
  remove_at (pos i) l =
      if ltb (length l.array) i
      then ret (some out_of_range, l)
      else if ltb (length l.array) (i + 1)
      then panic
      else ret (none, record l { array = take i l.array ++ drop (i + 1) l.array })

  unfoldable pub list_len : ArrayList T → ℕ
  list_len l = length l.array

  unfoldable pub copy : List T → List T → List T
  copy acc [] = acc
  copy acc (item ∷ rest) = copy (acc ++ (item ∷ [])) rest

  unfoldable pub items : ArrayList T → List T
  unfolding copy
  items l = copy [] l.array

  abbrev pub raw : ArrayList T → List T
  raw l = l.array

  abbrev pub at_index : Option T → Result T
  at_index none = err out_of_range
  at_index (some x) = ok x

  unfoldable pub get : ℤ → ArrayList T → Result T
  get (negsuc i) l = err out_of_range
  get (pos i) l = at_index (get_elem? l.array i)

  unfoldable pub set_item : ℤ → T → ArrayList T → Run (Failure × ArrayList T)
  set_item (negsuc i) item l = panic
  set_item (pos i) item l =
      if ltb (length l.array) i
      then ret (some out_of_range, l)
      else if ltb i (length l.array)
      then ret (none, record l { array = set l.array i item })
      else panic

  -- The loop of `ForEach`: the callback returns its state and whether it called `Break`.
  unfoldable pub walk {μ} : {S : Type μ} → (S → T → S × Bool) → S → Bool → List T → S × Bool
  walk f s b [] = (s, b)
  walk f s true (v ∷ vs) = (s, true)
  walk f s false (v ∷ vs) = let (s', b) = f s v in walk f s' b vs

  unfoldable pub for_each {μ} :
      {S : Type μ} → (S → T → S × Bool) → S → ArrayList T → S × ArrayList T
  unfolding walk
  for_each f s l = let (s', b) = walk f s false l.array in (s', record l { breaking = b })

  unfoldable pub break : ArrayList T → ArrayList T
  break l = record l { breaking = true }

  unfoldable pub clear : ArrayList T → ArrayList T
  clear l = record l { array = take 0 l.array }

  abbrev pub swapped : ArrayList T → Option (List T) → Run (ArrayList T)
  swapped l none = panic
  swapped l (some xs) = ret (record l { array = xs })

  unfoldable pub swap : ℤ → ℤ → ArrayList T → Run (ArrayList T)
  swap (negsuc i) j l = ret l
  swap (pos i) (negsuc j) l = ret l
  swap (pos i) (pos j) l =
      if ltb (length l.array) i || ltb (length l.array) j
      then ret l
      else swapped l (swap_at l.array i j)

  abbrev pub compared : (T → T → Bool) → Option T → Option T → Run Bool
  compared f (some a) (some b) = ret (f a b)
  compared f (some a) none = panic
  compared f none b = panic

  abbrev pub compare_at : Option (T → T → Bool) → ℕ → ℕ → List T → Run Bool
  compare_at none i j xs = ret false
  compare_at (some f) i j xs = compared f (get_elem? xs i) (get_elem? xs j)

  unfoldable pub less : ℤ → ℤ → ArrayList T → Run Bool
  less (negsuc i) j l = ret false
  less (pos i) (negsuc j) l = ret false
  less (pos i) (pos j) l =
      if ltb (length l.array) i || ltb (length l.array) j
      then ret false
      else compare_at l.comparer i j l.array

  unfoldable pub set_comparer : Option (T → T → Bool) → ArrayList T → ArrayList T
  set_comparer fun l = record l { comparer = fun }

  -- `sort.Sort` changes the list by calls of `Swap` alone; which ones is the library's.
  unfoldable pub sort : List (ℕ × ℕ) → ArrayList T → Run (ArrayList T)
  sort [] l = ret l
  sort ((i, j) ∷ swaps) l = swap (pos i) (pos j) l >>= sort swaps

module _ {ℓ} {T : Type ℓ} ⦃e : Comparable T⦄ where
  unfoldable pub index_of : T → ArrayList T → ℤ
  index_of item l = as_int (index item l.array)

  unfoldable pub contains : T → ArrayList T → Bool
  contains item l = not (ltb_ℤ (index_of item l) (pos 0))

  -- The error of `RemoveAt` is dropped.
  abbrev pub removed : ArrayList T → Run (Failure × ArrayList T) → Run (Bool × ArrayList T)
  removed l r = r >>= λ p. ret (true, p.1)

  unfoldable pub remove : T → ArrayList T → Run (Bool × ArrayList T)
  remove item l =
      if ltb_ℤ (index_of item l) (pos 0)
      then ret (false, l)
      else removed l (remove_at (index_of item l) l)
