-- ===== src/Common/Classes.antt =====
-- Go's `comparable`: a type with a test of equality that decides it.
use Prim.Native.Nat.{ℕ}
use mathlib.Core.Path.{◌≡◌, refl}
use mathlib.Core.Logic.{◌↔◌}
use mathlib.Core.Bool.{Bool, true, false, ◌&&◌}
use mathlib.Core.List.{List, [], ◌∷◌}
use native.Mathlib.Omega.{arith}
use silvernode_go.Common.Tests.{nat_beq, nat_beq_iff}

-- A Go string, as its bytes.
abbrev pub Bytes : Type 0
Bytes = List ℕ

abbrev pub bytes_beq : Bytes → Bytes → Bool
bytes_beq [] [] = true
bytes_beq [] (c ∷ bs) = false
bytes_beq (b ∷ xs) [] = false
bytes_beq (b ∷ xs) (c ∷ bs) = nat_beq b c && bytes_beq xs bs

pub bytes_beq_iff : (xs bs : Bytes) → (bytes_beq xs bs ≡ true) ↔ (xs ≡ bs)
bytes_beq_iff [] [] = ground arith
bytes_beq_iff [] (c ∷ bs) = ground arith
bytes_beq_iff (b ∷ xs) [] = ground arith
bytes_beq_iff (b ∷ xs) (c ∷ bs) = ground (arith, bytes_beq_iff xs bs)

pub record Comparable {ℓ} (K : Type ℓ) : Type ℓ where
  pub equal : K → K → Bool
  pub equal_iff : (j k : K) → (equal j k ≡ true) ↔ (j ≡ k)

instance abbrev pub bytes_eq : Comparable Bytes
bytes_eq = record { equal = bytes_beq; equal_iff = bytes_beq_iff }

-- The keys of a map.
instance abbrev pub nat_eq : Comparable ℕ
nat_eq = record { equal = nat_beq; equal_iff = nat_beq_iff }

-- Go's `==` at a type parameter that is `comparable`.
infix 50 ◌==◌
abbrev pub ◌==◌ {ℓ} : {K : Type ℓ} ⦃e : Comparable K⦄ → K → K → Bool
◌==◌ ⦃e⦄ = e.equal

pub ==_refl {ℓ} : {K : Type ℓ} ⦃e : Comparable K⦄ (k : K) → (k == k) ≡ true
==_refl ⦃e⦄ k = (e.equal_iff k k).1 refl
