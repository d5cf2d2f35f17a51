-- ===== src/Snowflake/Overflow.antt =====
-- utils/snowflake: the step after an overflow.
use silvernode_go.Common.{
  ℕ, ◌+◌, ◌/◌, ◌%◌, ◌≤◌, ◌<◌, ◌≡◌, refl, sym, ap, ◌∙◌, false, [], ◌∷◌, arith, le→leb, ℤ, ret,
  lt→leb_false, ◌==◌, ==_refl, nat_eq, bytes_eq,
}
use silvernode_go.Snowflake.{Seed, step_max, seed_max, bit_or, wait, issue, generate}
use silvernode_go.Snowflake.Bits.{bit_or_high, bit_or_zero}
use silvernode_go.Snowflake.Numbers.{
  InRange, low, low_sum, bits_of_lem, generate_fresh, generate_full,
}

low_overflow : (seed : ℕ) → seed + 1 ≤ seed_max → seed % 2 ≡ 0 → low seed 4096 ≡ low (seed + 1) 0
low_overflow seed f e =
    ap (λ (b : ℕ). bit_or 64 b 4096) (omega arith)
    ∙ (bit_or_high 13 64 (seed / 2) 0 4096 (omega arith) (omega arith) (omega arith) (omega arith)
        ∙ rw (bit_or_zero 64 4096 (omega arith))
            (omega (arith, low_sum (seed + 1) 0 f (omega arith))))

issue_overflow :
    (n n2 : Seed) (t : ℕ)
    → InRange t
    → n.seed % 2 ≡ 0
    → n2.seed ≡ n.seed + 1
    → n2.seed ≤ seed_max
    → (issue n 4096 t).0 ≡ (issue n2 0 t).0
issue_overflow n n2 t r e s f =
    rw
      (
        s,
        bits_of_lem t n.seed 4096 r (omega arith) (omega arith),
        bits_of_lem t (n.seed + 1) 0 r (omega arith) (omega arith),
        low_overflow n.seed (omega arith) e,
      )
      refl

-- At an overflow the step is 4096 and not 0, which sets a bit of the seed. So where a seed that is
-- even has used its last step and waits for the time t, it gives the identifier that the next
-- seed gives at the time t, if that seed gave none at that time before.
pub overflow_collides :
    (n n2 : Seed) (t : ℕ)
    → n.step ≡ step_max
    → n.seed % 2 ≡ 0
    → n2.seed ≡ n.seed + 1
    → n2.seed ≤ seed_max
    → n.timestamp < t
    → (n2.timestamp == t) ≡ false
    → InRange t
    → (id : ℤ) × (m m2 : Seed) × (generate n.timestamp (t ∷ []) n ≡ ret (id, m))
      × (generate t [] n2 ≡ ret (id, m2))
overflow_collides n n2 t last even follows f late fresh r = (
  (issue n 4096 t).0,
  (issue n 4096 t).1,
  (issue n2 0 t).1,
  generate_full n n.timestamp (t ∷ []) t (==_refl n.timestamp) (rw last refl) waited
      ∙ ap (λ (i : ℕ). ret (issue n i t)) (omega (arith, last)),
  generate_fresh n2 t [] fresh
      ∙ ap (λ (i : ℤ). ret (i, (issue n2 0 t).1)) (sym (issue_overflow n n2 t r even follows f)),
)
  where
    waited : wait n.timestamp n.timestamp (t ∷ []) ≡ ret t
    waited =
        unfold wait in
        rw (le→leb n.timestamp n.timestamp (omega arith), lt→leb_false n.timestamp t late) refl
