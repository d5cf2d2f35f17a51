-- ===== src/Buffutil/Words.antt =====
-- encoding/binary in little-endian order, and the two's complement of Go's signed integers.
use silvernode_go.Common.{
  ℕ, zero, suc, ◌+◌, ◌-◌, ◌*◌, ◌/◌, ◌%◌, ◌^◌, ◌<◌, ◌≡◌, refl, ap, [], ◌∷◌, arith, ltb,
  if◌then◌else◌, ℤ, pos, negsuc, length, All, Bytes,
}
use native.Mathlib.Nat.{pow-suc, mod-eq_of_lt}

-- The `n` lowest bytes of a number, lowest first.
unfoldable pub le_bytes : ℕ → ℕ → Bytes
le_bytes zero v = []
le_bytes (suc n) v = (v % 256) ∷ le_bytes n (v / 256)

unfoldable pub from_le : Bytes → ℕ
from_le [] = 0
from_le (b ∷ bs) = b + 256 * from_le bs

pub length-le_bytes : (n v : ℕ) → length (le_bytes n v) ≡ n
unfolding le_bytes
length-le_bytes zero v = refl
length-le_bytes (suc n) v = ap suc (length-le_bytes n (v / 256))

pub from_le-le_bytes : (n v : ℕ) → v < 256 ^ n → from_le (le_bytes n v) ≡ v
unfolding le_bytes from_le
from_le-le_bytes zero v h = omega arith
from_le-le_bytes (suc n) v h =
    omega (arith, from_le-le_bytes n (v / 256) (omega (arith, h, pow-suc 256 n)))

abbrev pub IsByte : ℕ → Type 0
IsByte b = b < 256

pub le_bytes-IsByte : (n v : ℕ) → All IsByte (le_bytes n v)
unfolding le_bytes
le_bytes-IsByte zero v = tt
le_bytes-IsByte (suc n) v = (omega arith, le_bytes-IsByte n (v / 256))

-- The two's complement pattern of an integer at a modulus 2 ^ w, and the integer that a pattern
-- stands for; `half` is 2 ^ (w - 1).
unfoldable pub pattern_of : ℕ → ℤ → ℕ
pattern_of m (pos n) = n % m
pattern_of m (negsuc n) = m - 1 - n % m

unfoldable pub signed : ℕ → ℕ → ℤ
signed half p = if ltb p half then pos p else negsuc (half + half - 1 - p)

-- The integers that Go's intN holds.
abbrev pub Fits : ℕ → ℤ → Type 0
Fits half (pos n) = n < half
Fits half (negsuc n) = n < half

abbrev pub half16 : ℕ
half16 = 2 ^ 15

abbrev pub half32 : ℕ
half32 = 2 ^ 31

abbrev pub half64 : ℕ
half64 = 2 ^ 63

pub signed-pattern_of :
    (half : ℕ) (z : ℤ) → Fits half z → signed half (pattern_of (half + half) z) ≡ z
unfolding signed pattern_of
signed-pattern_of half (pos n) h =
    rw (mod-eq_of_lt {n = n} {m = half + half} (omega arith)) (ground arith)
signed-pattern_of half (negsuc n) h =
    rw (mod-eq_of_lt {n = n} {m = half + half} (omega arith)) (ground arith)

pub pattern_of-lt : (m : ℕ) (z : ℤ) → 0 < m → pattern_of m z < m
unfolding pattern_of
pattern_of-lt m (pos n) h = omega arith
pattern_of-lt m (negsuc n) h = omega arith
