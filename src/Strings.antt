-- ===== src/Strings.antt =====
-- What the program uses of Go's package strings, at texts of bytes.
use silvernode_go.Common.{
  ℕ, zero, suc, ◌≡◌, refl, ◌≢◌, Bool, true, false, not, ◌&&◌, List, [], ◌∷◌, ◌++◌, arith,
  if◌then◌else◌, length, All, ◌==◌, Bytes, nat_eq, bytes_eq,
}
pub mod Decimal

abbrev pub onto : ℕ → List Bytes → List Bytes
onto b [] = (b ∷ []) ∷ []
onto b (part ∷ parts) = (b ∷ part) ∷ parts

-- `strings.Split(s, sep)`
unfoldable pub split : ℕ → Bytes → List Bytes
split sep [] = [] ∷ []
split sep (b ∷ bs) = let parts = split sep bs in if b == sep then [] ∷ parts else onto b parts

-- `strings.HasPrefix(s, prefix)`
unfoldable pub has_prefix : Bytes → Bytes → Bool
has_prefix s [] = true
has_prefix [] (p ∷ ps) = false
has_prefix (b ∷ bs) (p ∷ ps) = b == p && has_prefix bs ps

abbrev pub with_length : Bytes → ℕ
with_length [] = 0
with_length (b ∷ bs) = length bs

abbrev pub cut : Bool → ℕ → List Bytes → List Bytes
cut true b parts = [] ∷ parts
cut false b parts = onto b parts

-- The parts of what is left, of which so many bytes belong to a separator that was found.
unfoldable pub split_from : Bytes → ℕ → Bytes → List Bytes
unfolding has_prefix
split_from sep skip [] = [] ∷ []
split_from sep (suc skip) (b ∷ bs) = split_from sep skip bs
split_from sep zero (b ∷ bs) =
    cut (has_prefix (b ∷ bs) sep) b
      (split_from sep (if has_prefix (b ∷ bs) sep then with_length sep else 0) bs)

-- `strings.Split(s, sep)` of a separator that is not empty
unfoldable pub split_str : Bytes → Bytes → List Bytes
unfolding split_from
split_str sep s = split_from sep 0 s

-- The byte does not occur.
abbrev pub Free : ℕ → Bytes → Type 0
Free sep s = All (λ (b : ℕ). b ≢ sep) s

pub split-Free : (sep : ℕ) (s : Bytes) → Free sep s → split sep s ≡ s ∷ []
unfolding split
split-Free sep [] f = refl
split-Free sep (b ∷ bs) f = ground (arith, split-Free sep bs f.1)

pub split-append :
    (sep : ℕ) (s rest : Bytes) → Free sep s → split sep (s ++ sep ∷ rest) ≡ s ∷ split sep rest
unfolding split
split-append sep [] rest f = ground arith
split-append sep (b ∷ bs) rest f = ground (arith, split-append sep bs rest f.1)
