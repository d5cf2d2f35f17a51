-- ===== src/Stringutil.antt =====
-- utils/stringutil/stringutil.go: names and parts of texts. Snake, Camel and UcFirst are modelled on ASCII
-- characters; a text of SubString is its list of runes.
use silvernode_go.Common.{
  ℕ, ◌+◌, ◌-◌, ◌≤◌, ◌<◌, ◌≡◌, refl, Bool, true, false, not, ◌&&◌, ◌||◌, Option, none, some, List,
  [], ◌∷◌, arith, ltb, leb, nat_beq, if◌then◌else◌, le→leb, ℤ, Run, ret, panic, ◌>>=◌, length, take,
  drop, le→ltb_false, lt→leb_false, ◌==◌, Bytes, nat_eq, bytes_eq,
}
use silvernode_go.Strings.{split_str}
use silvernode_go.Strings.Decimal.{atoi}

abbrev pub is_upper : ℕ → Bool
is_upper d = leb 65 d && leb d 90

abbrev pub is_lower : ℕ → Bool
is_lower d = leb 97 d && leb d 122

abbrev pub lower : ℕ → ℕ
lower d = if is_upper d then d + 32 else d

-- The loop of `Snake` with `i > 0` and `j`
unfoldable pub snake_from : Bool → Bool → Bytes → Bytes
snake_from later j [] = []
snake_from later j (d ∷ ds) =
    let rest = snake_from true (j || not (d == 95)) ds in
    if later && is_upper d && j then 95 ∷ (lower d ∷ rest) else lower d ∷ rest

unfoldable pub snake : Bytes → Bytes
unfolding snake_from
snake s = snake_from false false s

-- Whether the next character is a small letter
abbrev pub small_next : Bytes → Bool
small_next [] = false
small_next (d ∷ ds) = is_lower d

-- A character after the first two tests of the loop of `Camel`: its value, `j` and `k`
abbrev pub raised : ℕ → Bool → Bool → ℕ × Bool × Bool
raised d j k =
    if is_lower d && (j || not (k || is_upper d))
    then (d - 32, false, true)
    else (d, j, k || is_upper d)

unfoldable pub camel_from : Bool → Bool → Bytes → Bytes
camel_from j k [] = []
camel_from j k (c ∷ ds) =
    let (d, j1, k1) = raised c j k in
    let skips = k1 && (d == 95 && small_next ds) in
    let rest = camel_from (skips || j1) k1 ds in if skips then rest else d ∷ rest

unfoldable pub camel : Bytes → Bytes
unfolding camel_from
camel s = camel_from false false s

unfoldable pub uc_first : Bytes → Bytes
uc_first [] = []
uc_first (d ∷ ds) = if is_lower d then (d - 32) ∷ ds else d ∷ ds

-- `runes[i:j]` panics where the bounds are out of order or of range.
abbrev pub slice : {A : Type 0} → List A → ℕ → ℕ → Run (List A)
slice xs i j = if leb i j && leb j (length xs) then ret (take (j - i) (drop i xs)) else panic

-- `SubString`, none for false; a negative length is none, and a negative index is not modelled.
unfoldable pub sub_string : {A : Type 0} → List A → ℕ → Option ℕ → Run (Option (List A))
sub_string runes index none =
    if leb (length runes) index
    then ret none
    else slice runes index (length runes) >>= λ part. ret (some part)
sub_string runes index (some len) =
    if leb (length runes) index
    then ret none
    else if len == 0
    then ret (some [])
    else if ltb (length runes) (index + len)
    then ret none
    else slice runes index len >>= λ part. ret (some part)

abbrev pub one_more : Option ℤ → Option (List ℤ) → Option (List ℤ)
one_more none rest = none
one_more (some z) none = none
one_more (some z) (some zs) = some (z ∷ zs)

-- `SplitInt`, none for its error
unfoldable pub all_ints : List Bytes → Option (List ℤ)
unfolding atoi
all_ints [] = some []
all_ints (part ∷ parts) = one_more (atoi part) (all_ints parts)

unfoldable pub split_int : Bytes → Bytes → Option (List ℤ)
unfolding all_ints split_str
split_int str sep = all_ints (split_str sep str)

-- A part of positive length within the text comes out shorter than asked for by the index, if the index
-- is at most the length, and panics if it is more.
pub sub_string_short :
    {A : Type 0} (runes : List A) (index len : ℕ)
    → 0 < len
    → index + len ≤ length runes
    → (index ≤ len
        → sub_string runes index (some len) ≡ ret (some (take (len - index) (drop index runes))))
      × (len < index → sub_string runes index (some len) ≡ panic)
unfolding sub_string
sub_string_short runes index len positive within = (
  λ h.
      rw
        (
          lt→leb_false index (length runes) (omega arith),
          not_zero,
          le→ltb_false (index + len) (length runes) within,
          le→leb index len h,
          le→leb len (length runes) (omega arith),
        )
        refl,
  λ h.
      rw
        (
          lt→leb_false index (length runes) (omega arith),
          not_zero,
          le→ltb_false (index + len) (length runes) within,
          lt→leb_false len index h,
        )
        refl,
)
  where
    not_zero : nat_beq len 0 ≡ false
    not_zero = ground arith
