-- ===== src/Snowflake/Bits.antt =====
-- utils/snowflake: the bitwise or of parts that share no bits, and its bounds.
use silvernode_go.Common.{ℕ, zero, suc, ◌+◌, ◌*◌, ◌/◌, ◌%◌, ◌^◌, ◌≤◌, ◌<◌, ◌≡◌, ap, ◌∙◌, arith}
use silvernode_go.Snowflake.{bit_or, or_bit}

or_bit-lt : (x y : ℕ) → x < 2 → y < 2 → or_bit x y < 2
or_bit-lt zero y f g = g
or_bit-lt (suc x) y f g = omega arith

or_bit_zero : (x y : ℕ) → x ≡ 0 → y ≡ 0 → or_bit x y ≡ 0
or_bit_zero zero y f g = g
or_bit_zero (suc x) y f g = absurd (omega arith)

or_bit_right : (x y : ℕ) → x < 2 → y ≡ 0 → or_bit x y ≡ x
or_bit_right zero y f g = g
or_bit_right (suc x) y f g = omega arith

pub bit_or-lt : (k n a b : ℕ) → a < 2 ^ k → b < 2 ^ k → bit_or n a b < 2 ^ k
unfolding bit_or
bit_or-lt k zero a b f g = omega arith
bit_or-lt zero (suc n) a b f g = omega (
  arith,
  bit_or-lt 0 n (a / 2) (b / 2) (omega arith) (omega arith),
  or_bit_zero (a % 2) (b % 2) (omega arith) (omega arith),
)
bit_or-lt (suc k) (suc n) a b f g = omega (
  arith,
  bit_or-lt k n (a / 2) (b / 2) (omega arith) (omega arith),
  or_bit-lt (a % 2) (b % 2) (omega arith) (omega arith),
)

pub bit_or_zero : (n b : ℕ) → b < 2 ^ n → bit_or n 0 b ≡ b
unfolding bit_or
bit_or_zero zero b f = omega arith
bit_or_zero (suc n) b f = omega (arith, bit_or_zero n (b / 2) (omega arith))

pub bit_or_right : (n a b : ℕ) → a < 2 ^ n → b ≡ 0 → bit_or n a b ≡ a
unfolding bit_or
bit_or_right zero a b f g = omega arith
bit_or_right (suc n) a b f g = omega (
  arith,
  bit_or_right n (a / 2) (b / 2) (omega arith) (omega arith),
  or_bit_right (a % 2) (b % 2) (omega arith) (omega arith),
)

double_product : (t m : ℕ) → t * (2 * m) ≡ 2 * (t * m)
double_product t m = omega arith

pow_suc : (k : ℕ) → 2 ^ suc k ≡ 2 * 2 ^ k
pow_suc k = omega arith

double : (t k : ℕ) → t * 2 ^ suc k ≡ 2 * (t * 2 ^ k)
double t k = ap (λ (m : ℕ). t * m) (pow_suc k) ∙ double_product t (2 ^ k)

-- The lowest bit and the others of a sum whose first part is even.
halves :
    (t k b : ℕ) → ((t * 2 ^ suc k + b) / 2 ≡ t * 2 ^ k + b / 2) × ((t * 2 ^ suc k + b) % 2 ≡ b % 2)
halves t k b = (omega (arith, double t k), omega (arith, double t k))

pub bit_or_high :
    (k n t b c : ℕ)
    → b < 2 ^ k
    → c < 2 ^ k
    → t * 2 ^ k < 2 ^ n
    → k ≤ n
    → bit_or n (t * 2 ^ k + b) c ≡ t * 2 ^ k + bit_or n b c
unfolding bit_or
bit_or_high zero n t b c f g h l = omega (
  arith,
  bit_or_right n (t * 1 + b) c (omega arith) (omega arith),
  bit_or_right n b c (omega arith) (omega arith),
)
bit_or_high (suc k) zero t b c f g h l = absurd (omega arith)
bit_or_high (suc k) (suc n) t b c f g h l =
    rw ((halves t k b).0, (halves t k b).1)
      (omega (
        arith,
        double t k,
        bit_or_high k n t (b / 2) (c / 2) (omega arith) (omega arith) (omega (arith, double t k))
            (omega arith),
      ))
