-- ===== src/Snowflake/Numbers.antt =====
-- utils/snowflake: an identifier as a number, and the branches of Generate.
use silvernode_go.Common.{
  ℕ, ◌+◌, ◌-◌, ◌*◌, ◌%◌, ◌^◌, ◌≤◌, ◌<◌, ◌≡◌, refl, ap, ◌∙◌, true, false, List, arith, ltb, lt→ltb,
  pos, ret, ◌==◌, nat_eq, bytes_eq,
}
use silvernode_go.Buffutil.Words.{signed}
use silvernode_go.Snowflake.{
  Seed, step_max, seed_max, epoch, bit_or, bits_of, wait, issue, generate,
}
use silvernode_go.Snowflake.Bits.{bit_or_high, bit_or_zero, bit_or-lt}

-- The 41 bits that are left for the time.
abbrev pub InRange : ℕ → Type 0
InRange t = (epoch ≤ t) × (t < epoch + 2 ^ 41)

-- The seed's bits with the step's.
abbrev pub low : ℕ → ℕ → ℕ
low seed step = bit_or 64 (seed * 2 ^ 12) step

pub low-lt : (seed step : ℕ) → seed ≤ seed_max → step < 2 ^ 22 → low seed step < 2 ^ 22
low-lt seed step f g = bit_or-lt 22 64 (seed * 2 ^ 12) step (omega arith) g

pub low_sum :
    (seed step : ℕ) → seed ≤ seed_max → step ≤ step_max → low seed step ≡ seed * 2 ^ 12 + step
low_sum seed step f g =
    ap (λ (b : ℕ). bit_or 64 b step) (omega arith)
    ∙ (bit_or_high 12 64 seed 0 step (omega arith) (omega arith) (omega arith) (omega arith)
        ∙ rw (bit_or_zero 64 step (omega arith)) refl)

time_bits :
    (t : ℕ)
    → InRange t
    → (((t + (2 ^ 64 - epoch)) % 2 ^ 64) * 2 ^ 22) % 2 ^ 64 ≡ (t - epoch) * 2 ^ 22
time_bits t r = omega (arith, r.0, r.1)

pub bits_of_lem :
    (t seed step : ℕ)
    → InRange t
    → seed ≤ seed_max
    → step < 2 ^ 22
    → bits_of t seed step ≡ (t - epoch) * 2 ^ 22 + low seed step
unfolding bits_of
bits_of_lem t seed step r f g =
    rw (time_bits t r, small, joined)
      (bit_or_high 22 64 (t - epoch) (seed * 2 ^ 12) step (omega arith) g (omega (arith, r.0, r.1))
        (omega arith))
  where
    small : (seed * 2 ^ 12) % 2 ^ 64 ≡ seed * 2 ^ 12
    small = omega arith

    joined : bit_or 64 ((t - epoch) * 2 ^ 22) (seed * 2 ^ 12) ≡ (t - epoch) * 2 ^ 22 + seed * 2 ^ 12
    joined =
        ap (λ (b : ℕ). bit_or 64 b (seed * 2 ^ 12)) (omega arith)
        ∙ (bit_or_high 22 64 (t - epoch) 0 (seed * 2 ^ 12) (omega arith) (omega arith)
              (omega (arith, r.0, r.1)) (omega arith)
            ∙ rw (bit_or_zero 64 (seed * 2 ^ 12) (omega arith)) refl)

-- The identifier of a time, a seed and a step.
abbrev pub number : ℕ → ℕ → ℕ → ℕ
number t seed step = (t - epoch) * 2 ^ 22 + low seed step

pub issue_lem :
    (n : Seed) (step t : ℕ)
    → InRange t
    → n.seed ≤ seed_max
    → step < 2 ^ 22
    → issue n step t
      ≡ (pos (number t n.seed step), record { timestamp = t; seed = n.seed; step = step })
issue_lem n step t r f g = rw (bits_of_lem t n.seed step r f g) (
    unfold signed in
    rw (lt→ltb (number t n.seed step) (2 ^ 63) (omega (arith, r.0, r.1, low-lt n.seed step f g)))
      refl)

pub later_number :
    (s t seed i j : ℕ)
    → InRange s
    → s < t
    → seed ≤ seed_max
    → i < 2 ^ 22
    → number s seed i < number t seed j
later_number s t seed i j r f g h = omega (arith, r.0, r.1, low-lt seed i g h)

pub generate_fresh :
    (n : Seed) (now : ℕ) (ts : List ℕ)
    → (n.timestamp == now) ≡ false
    → generate now ts n ≡ ret (issue n 0 now)
unfolding generate
generate_fresh n now ts h = rw h refl

pub generate_next :
    (n : Seed) (now : ℕ) (ts : List ℕ)
    → (n.timestamp == now) ≡ true
    → ltb step_max (n.step + 1) ≡ false
    → generate now ts n ≡ ret (issue n (n.step + 1) now)
unfolding generate
generate_next n now ts h l = rw (h, l) refl

pub generate_full :
    (n : Seed) (now : ℕ) (ts : List ℕ) (t : ℕ)
    → (n.timestamp == now) ≡ true
    → ltb step_max (n.step + 1) ≡ true
    → wait n.timestamp now ts ≡ ret t
    → generate now ts n ≡ ret (issue n (n.step + 1) t)
unfolding generate
generate_full n now ts t h l e = rw (h, l, e) refl
