-- ===== src/Snowflake.antt =====
-- utils/snowflake/snowflake.go: identifiers from the clock, a seed and a step.
use silvernode_go.Common.{
  ℕ, zero, suc, ◌+◌, ◌-◌, ◌*◌, ◌/◌, ◌%◌, ◌^◌, Option, none, some, List, [], ◌∷◌, ltb, leb,
  if◌then◌else◌, ℤ, pos, negsuc, Run, ret, stuck, ◌>>=◌, ◌==◌, nat_eq, bytes_eq,
}
use silvernode_go.Buffutil.Words.{signed}
pub mod Bits
pub mod Numbers
pub mod Unique
pub mod Overflow
pub mod Tests

abbrev pub step_max : ℕ
step_max = 4095

abbrev pub seed_max : ℕ
seed_max = 1023

abbrev pub epoch : ℕ
epoch = 1288834974657

-- Milliseconds since 1970.
pub record Seed : Type 0 where
  pub timestamp : ℕ
  pub seed : ℕ
  pub step : ℕ

unfoldable pub new_seed : ℤ → Option Seed
new_seed (negsuc n) = none
new_seed (pos n) =
    if ltb seed_max n then none else some (record { timestamp = 0; seed = n; step = 0 })

abbrev pub or_bit : ℕ → ℕ → ℕ
or_bit zero y = y
or_bit (suc x) y = 1

-- `a | b` on the lowest `n` bits.
unfoldable pub bit_or : ℕ → ℕ → ℕ → ℕ
bit_or zero a b = 0
bit_or (suc n) a b = or_bit (a % 2) (b % 2) + 2 * bit_or n (a / 2) (b / 2)

-- `(now-epoch)<<timeShift | (n.seed << seedShift) | (n.step)` on int64, as its 64 bits.
unfoldable pub bits_of : ℕ → ℕ → ℕ → ℕ
unfolding bit_or
bits_of now seed step =
    bit_or 64
      (bit_or 64 (((now + (2 ^ 64 - epoch)) % 2 ^ 64 * 2 ^ 22) % 2 ^ 64) ((seed * 2 ^ 12) % 2 ^ 64))
      step

-- `for now <= n.timestamp { now = … }` over the readings of the clock that follow.
unfoldable pub wait : ℕ → ℕ → List ℕ → Run ℕ
wait timestamp now [] = if leb now timestamp then stuck else ret now
wait timestamp now (t ∷ ts) =
    let rest = wait timestamp t ts in if leb now timestamp then rest else ret now

abbrev pub issue : Seed → ℕ → ℕ → ℤ × Seed
issue n step now = (
  signed (2 ^ 63) (bits_of now n.seed step),
  record { timestamp = now; seed = n.seed; step = step },
)

-- `Generate`, with the reading of the clock at its start and those after it.
unfoldable pub generate : ℕ → List ℕ → Seed → Run (ℤ × Seed)
unfolding bits_of wait
generate now later n =
    if n.timestamp == now
    then if ltb step_max (n.step + 1)
      then (wait n.timestamp now later >>= λ t. ret (issue n (n.step + 1) t))
      else ret (issue n (n.step + 1) now)
    else ret (issue n 0 now)
