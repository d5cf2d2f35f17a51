-- ===== src/Snowflake/Unique.antt =====
-- utils/snowflake: a call of Generate against the identifier given before.
use silvernode_go.Common.{
  ℕ, ◌+◌, ◌^◌, ◌≤◌, ◌<◌, ◌≡◌, refl, sym, ap, ◌∙◌, inl, inr, List, [], ◌∷◌, ◌++◌, arith, ltb, leb,
  Bool-cases, ℤ, pos, Run, ret, lt→leb_false, All, ◌==◌, nat_eq, bytes_eq,
}
use silvernode_go.Snowflake.{Seed, step_max, seed_max, wait, issue, generate}
use silvernode_go.Snowflake.Numbers.{
  InRange, low_sum, number, issue_lem, later_number, generate_fresh, generate_next, generate_full,
}

wait_lem :
    (s now : ℕ) (ts : List ℕ) (t : ℕ)
    → s < t
    → InRange now
    → All InRange ts
    → InRange t
    → (r : ℕ) × (wait s now (ts ++ t ∷ []) ≡ ret r) × (s < r) × InRange r
unfolding wait
wait_lem s now [] t f r a q = elim (Bool-cases (leb now s)) [
  | inl h ↦ (t, rw (h, lt→leb_false s t f) refl, f, q)
  | inr h ↦ (now, rw h refl, ground (arith, h), r)
]
wait_lem s now (u ∷ ts) t f r a q = elim (Bool-cases (leb now s)) [
  | inl h ↦ let (x, e, g, y) = wait_lem s u ts t f a.0 a.1 q in (x, rw (h, e) refl, g, y)
  | inr h ↦ (now, rw h refl, ground (arith, h), r)
]

-- What a call of `Generate` gives, with respect to the identifier that the seed gave before.
abbrev pub Increases : Seed → ℕ → Run (ℤ × Seed) → Type 0
Increases n now out =
    (before after : ℕ) × (n' : Seed) × (out ≡ ret (pos after, n'))
    × ((issue n n.step n.timestamp).0 ≡ pos before)
    × (before < after)
    × (issue n' n'.step n'.timestamp ≡ (pos after, n'))
    × (now ≤ n'.timestamp)
    × (n'.seed ≡ n.seed)
    × (n'.step ≤ n.step + 1)

issued-Increases :
    (n : Seed) (now step t : ℕ) (out : Run (ℤ × Seed))
    → n.seed ≤ seed_max
    → n.step < 2 ^ 22
    → step < 2 ^ 22
    → step ≤ n.step + 1
    → InRange n.timestamp
    → InRange t
    → now ≤ t
    → number n.timestamp n.seed n.step < number t n.seed step
    → out ≡ ret (issue n step t)
    → Increases n now out
issued-Increases n now step t out f g h l r q m less e = (
  number n.timestamp n.seed n.step,
  number t n.seed step,
  record { timestamp = t; seed = n.seed; step = step },
  e ∙ ap ret (issue_lem n step t q f h),
  ap (λ (o : ℤ × Seed). o.0) (issue_lem n n.step n.timestamp r f g),
  less,
  issue_lem n step t q f h,
  m,
  refl,
  l,
)

next_number :
    (n : Seed) (now : ℕ)
    → n.seed ≤ seed_max
    → n.timestamp ≡ now
    → n.step + 1 ≤ step_max
    → number n.timestamp n.seed n.step < number now n.seed (n.step + 1)
next_number n now f e l =
    rw (sym e)
      (omega (arith, low_sum n.seed n.step f (omega arith), low_sum n.seed (n.step + 1) f l))

-- `Generate` of a seed from 0 to 1023 whose step is below 2 ^ 22 - 1, with a clock that does not go
-- back, stays within 41 bits after the epoch, and shows a later time in the end: it returns; the
-- identifier is greater than the one that the seed gave before, and is the one that it gave last.
pub generate-Increases :
    (n : Seed) (now : ℕ) (ts : List ℕ) (t : ℕ)
    → n.seed ≤ seed_max
    → n.step + 1 < 2 ^ 22
    → InRange n.timestamp
    → n.timestamp ≤ now
    → InRange now
    → All InRange ts
    → InRange t
    → n.timestamp < t
    → Increases n now (generate now (ts ++ t ∷ []) n)
generate-Increases n now ts t f g r m rn a rt late = elim (Bool-cases (n.timestamp == now)) [
  | inr fresh ↦
      issued-Increases n now 0 now (generate now (ts ++ t ∷ []) n) f (omega arith) (omega arith)
        (omega arith) r rn (omega arith)
        (later_number n.timestamp now n.seed n.step 0 r (ground (arith, fresh)) f (omega arith))
        (generate_fresh n now (ts ++ t ∷ []) fresh)
  | inl same ↦ elim (Bool-cases (ltb step_max (n.step + 1))) [
    | inr small ↦
        issued-Increases n now (n.step + 1) now (generate now (ts ++ t ∷ []) n) f (omega arith) g
          (omega arith) r rn (omega arith)
          (next_number n now f (ground (arith, same)) (ground (arith, small)))
          (generate_next n now (ts ++ t ∷ []) same small)
    | inl full ↦
        let (u, e, later, ru) = wait_lem n.timestamp now ts t late rn a rt in
        issued-Increases n now (n.step + 1) u (generate now (ts ++ t ∷ []) n) f (omega arith) g
          (omega arith) r ru (ground (arith, same, later))
          (later_number n.timestamp u n.seed n.step (n.step + 1) r later f (omega arith))
          (generate_full n now (ts ++ t ∷ []) u same full e)
  ]
]
