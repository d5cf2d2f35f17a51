-- ===== src/Strings/Decimal.antt =====
-- What the program uses of Go's package strconv: decimal numbers as text, and back.
use silvernode_go.Common.{
  ℕ, zero, suc, ◌+◌, ◌-◌, ◌*◌, ◌/◌, ◌%◌, ◌^◌, ◌≤◌, ◌<◌, ◌≡◌, refl, ap, ◌∙◌, inl, inr, ◌&&◌, Option,
  none, some, [], ◌∷◌, arith, ltb, leb, if◌then◌else◌, ltb→lt, lt→ltb, le→leb, Bool-cases, ℤ, pos,
  negsuc, le→ltb_false, ◌==◌, Bytes, nat_eq, bytes_eq,
}

-- A digit's value.
abbrev pub digit_of : ℕ → Option ℕ
digit_of b = if leb 48 b && leb b 57 then some (b - 48) else none

abbrev pub next_digit : ℕ → Option ℕ → Option ℕ
next_digit value none = none
next_digit value (some d) = some (value * 10 + d)

-- The digits that follow, after the value so far.
unfoldable pub number_from : Option ℕ → Bytes → Option ℕ
number_from value [] = value
number_from none (b ∷ bs) = none
number_from (some value) (b ∷ bs) = number_from (next_digit value (digit_of b)) bs

unfoldable pub number : Bytes → Option ℕ
unfolding number_from
number [] = none
number (b ∷ bs) = number_from (some 0) (b ∷ bs)

abbrev pub below : ℕ → Option ℕ → Option ℕ
below bound none = none
below bound (some n) = if ltb n bound then some n else none

-- `strconv.ParseUint(s, 10, 64)`, none for the error
unfoldable pub parse_uint : Bytes → Option ℕ
unfolding number
parse_uint s = below (2 ^ 64) (number s)

abbrev pub negated : Option ℕ → Option ℤ
negated none = none
negated (some zero) = some (pos 0)
negated (some (suc n)) = some (negsuc n)

abbrev pub positive : Option ℕ → Option ℤ
positive none = none
positive (some n) = some (pos n)

-- `strconv.Atoi`: a sign and digits, within 64 bits
unfoldable pub atoi : Bytes → Option ℤ
unfolding number
atoi [] = none
atoi (b ∷ bs) =
    if b == 45
    then negated (below (2 ^ 63 + 1) (number bs))
    else if b == 43
    then positive (below (2 ^ 63) (number bs))
    else positive (below (2 ^ 63) (number (b ∷ bs)))

-- `uint64(val)` of an int
abbrev pub to_uint64 : ℤ → ℕ
to_uint64 (pos n) = n % 2 ^ 64
to_uint64 (negsuc n) = 2 ^ 64 - 1 - n % 2 ^ 64

-- The digits of a number before a text; the fuel bounds their number.
unfoldable pub digits : ℕ → ℕ → Bytes → Bytes
digits zero n rest = rest
digits (suc fuel) n rest =
    let more = digits fuel (n / 10) ((48 + n % 10) ∷ rest) in
    if ltb n 10 then (48 + n) ∷ rest else more

-- `fmt.Sprint` of a natural number
unfoldable pub sprint : ℕ → Bytes
unfolding digits
sprint n = digits (suc n) n []

digit_of_lem : (d : ℕ) → d < 10 → digit_of (48 + d) ≡ some d
digit_of_lem d h =
    rw (le→leb 48 (48 + d) (omega arith), le→leb (48 + d) 57 (omega arith)) (ap some (omega arith))

number_from-cons :
    (value d : ℕ) (rest : Bytes)
    → d < 10
    → number_from (some value) ((48 + d) ∷ rest) ≡ number_from (some (value * 10 + d)) rest
unfolding number_from
number_from-cons value d rest h = rw (digit_of_lem d h) refl

digits_small : (fuel n : ℕ) (rest : Bytes) → n < 10 → digits (suc fuel) n rest ≡ (48 + n) ∷ rest
unfolding digits
digits_small fuel n rest h = rw (lt→ltb n 10 h) refl

digits_large :
    (fuel n : ℕ) (rest : Bytes)
    → 10 ≤ n
    → digits (suc fuel) n rest ≡ digits fuel (n / 10) ((48 + n % 10) ∷ rest)
unfolding digits
digits_large fuel n rest h = rw (le→ltb_false 10 n h) refl

-- What `digits` puts before a text is read as the number.
number_from-digits :
    (fuel n : ℕ) (rest : Bytes)
    → n < fuel
    → number_from (some 0) (digits fuel n rest) ≡ number_from (some n) rest
number_from-digits zero n rest h = absurd (omega (arith, h))
number_from-digits (suc fuel) n rest h = elim (Bool-cases (ltb n 10)) [
  | inl small ↦
      ap (number_from (some 0)) (digits_small fuel n rest (ltb→lt n 10 small))
      ∙ number_from-cons 0 n rest (ltb→lt n 10 small)
      ∙ ap (λ (m : ℕ). number_from (some m) rest) (omega arith)
  | inr large ↦
      ap (number_from (some 0)) (digits_large fuel n rest (ground (arith, large)))
      ∙ number_from-digits fuel (n / 10) ((48 + n % 10) ∷ rest) (ground (arith, large))
      ∙ number_from-cons (n / 10) (n % 10) rest (omega arith)
      ∙ ap (λ (m : ℕ). number_from (some m) rest) (omega arith)
]

-- There is a digit.
digits-cons :
    (fuel n c : ℕ) (rest : Bytes) → (b : ℕ) × (bs : Bytes) × (digits fuel n (c ∷ rest) ≡ b ∷ bs)
unfolding digits
digits-cons zero n c rest = (c, rest, refl)
digits-cons (suc fuel) n c rest = elim (Bool-cases (ltb n 10)) [
  | inl small ↦ (48 + n, c ∷ rest, rw small refl)
  | inr large ↦ rw large (digits-cons fuel (n / 10) (48 + n % 10) (c ∷ rest))
]

sprint-cons : (n : ℕ) → (b : ℕ) × (bs : Bytes) × (sprint n ≡ b ∷ bs)
unfolding sprint
sprint-cons n = elim (Bool-cases (ltb n 10)) [
  | inl small ↦ (48 + n, [], digits_small n n [] (ltb→lt n 10 small))
  | inr large ↦
      let (b, bs, e) = digits-cons n (n / 10) (48 + n % 10) [] in
      (b, bs, digits_large n n [] (ground (arith, large)) ∙ e)
]

number_lem : (b : ℕ) (bs s : Bytes) → s ≡ b ∷ bs → number s ≡ number_from (some 0) s
unfolding number
number_lem b bs s e = rw e refl

read_sprint : (n : ℕ) → number_from (some 0) (sprint n) ≡ some n
unfolding sprint
read_sprint n = number_from-digits (suc n) n [] (omega arith) ∙ unfold number_from in refl

number-sprint : (n : ℕ) → number (sprint n) ≡ some n
number-sprint n = let (b, bs, e) = sprint-cons n in number_lem b bs (sprint n) e ∙ read_sprint n

-- What `fmt.Sprint` makes of a number of 64 bits, `ParseUint` reads as that number.
pub parse_uint-sprint : (n : ℕ) → n < 2 ^ 64 → parse_uint (sprint n) ≡ some n
unfolding parse_uint
parse_uint-sprint n h = rw (number-sprint n, lt→ltb n (2 ^ 64) h) refl
