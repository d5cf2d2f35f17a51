-- ===== src/Buffutil/Primitives.antt =====
-- What each method of `Buffer` appends, and that the method of `Parser` reads it back.
use silvernode_go.Common.{
  ℕ, suc, ◌+◌, ◌^◌, ◌≤◌, ◌<◌, ◌≡◌, refl, sym, ap, ◌∙◌, Bool, true, false, none, some, List, [], ◌∷◌,
  ◌++◌, arith, le→leb, ℤ, pos, ret, length, length-append, le→ltb_false, take-append, drop-append,
  All, Bytes,
}
use mathlib.Core.List.{append_assoc, append-nil}
use silvernode_go.Buffutil.Words.{
  le_bytes, from_le, length-le_bytes, from_le-le_bytes, signed, pattern_of, Fits, signed-pattern_of,
  pattern_of-lt,
}
use silvernode_go.Buffutil.Value.{Method}
use silvernode_go.Buffutil.Buffer.{
  Buffer, write_int, write_string, write_each_int, write_ints, bool_byte,
}
use silvernode_go.Buffutil.Parser.{
  Parser, read_fixed, read_byte, read_bool, read_short, read_int, read_long, read_float, read_text,
  read_string, read_each_int, read_ints, max_string, read_ints_after,
}

-- A buffer and a parser with no error.
abbrev pub holding : Bytes → Buffer
holding bs = record { content = bs; err = none }

abbrev pub ready : Bytes → Parser
ready bs = record { content = bs; err = none }

abbrev pub int_bytes : ℤ → Bytes
int_bytes z = le_bytes 4 (pattern_of (2 ^ 32) z)

abbrev pub text_bytes : Bytes → Bytes
text_bytes s = int_bytes (pos (length s)) ++ s

pub read_fixed-ready :
    (m : Method) (n : ℕ) (bs rest : Bytes)
    → length bs ≡ n
    → read_fixed m n (ready (bs ++ rest)) ≡ (some bs, ready rest)
unfolding read_fixed
read_fixed-ready m n bs rest h = rw (
  ← h,
  le→leb (length bs) (length (bs ++ rest)) (omega (arith, length-append bs rest)),
  take-append bs rest,
  drop-append bs rest,
)

from_le_one : (c : ℕ) → from_le (c ∷ []) ≡ c
unfolding from_le
from_le_one c = omega arith

pub read_byte-ready : (c : ℕ) (rest : Bytes) → read_byte (ready (c ∷ rest)) ≡ (c, ready rest)
unfolding read_byte
read_byte-ready c rest =
    rw (read_fixed-ready Method.read_byte 1 (c ∷ []) rest refl)
      (ap (λ (k : ℕ). (k, ready rest)) (from_le_one c))

pub read_bool-ready :
    (b : Bool) (rest : Bytes) → read_bool (ready (bool_byte b ∷ rest)) ≡ (b, ready rest)
unfolding read_bool from_le
read_bool-ready true rest = rw (read_fixed-ready Method.read_bool 1 (1 ∷ []) rest refl)
read_bool-ready false rest = rw (read_fixed-ready Method.read_bool 1 (0 ∷ []) rest refl)

-- Reading an `n`-byte word behind its signed pattern.
word_lem :
    (n half : ℕ) (z : ℤ)
    → half + half ≡ 256 ^ n
    → 0 < half
    → Fits half z
    → signed half (from_le (le_bytes n (pattern_of (half + half) z))) ≡ z
word_lem n half z e pos_half h =
    rw
      (from_le-le_bytes n (pattern_of (half + half) z)
        (omega (arith, pattern_of-lt (half + half) z (omega arith))))
      (signed-pattern_of half z h)

pub read_short-ready :
    (z : ℤ) (rest : Bytes)
    → Fits (2 ^ 15) z
    → read_short (ready (le_bytes 2 (pattern_of (2 ^ 16) z) ++ rest)) ≡ (z, ready rest)
unfolding read_short
read_short-ready z rest h =
    rw
      (read_fixed-ready Method.read_short 2 (le_bytes 2 (pattern_of (2 ^ 16) z)) rest
        (length-le_bytes 2 _))
      (ap (λ (k : ℤ). (k, ready rest)) (word_lem 2 (2 ^ 15) z refl (omega arith) h))

pub read_int-ready :
    (z : ℤ) (rest : Bytes)
    → Fits (2 ^ 31) z
    → read_int (ready (int_bytes z ++ rest)) ≡ (z, ready rest)
unfolding read_int
read_int-ready z rest h =
    rw (read_fixed-ready Method.read_int 4 (int_bytes z) rest (length-le_bytes 4 _))
      (ap (λ (k : ℤ). (k, ready rest)) (word_lem 4 (2 ^ 31) z refl (omega arith) h))

pub read_long-ready :
    (z : ℤ) (rest : Bytes)
    → Fits (2 ^ 63) z
    → read_long (ready (le_bytes 8 (pattern_of (2 ^ 64) z) ++ rest)) ≡ (z, ready rest)
unfolding read_long
read_long-ready z rest h =
    rw
      (read_fixed-ready Method.read_long 8 (le_bytes 8 (pattern_of (2 ^ 64) z)) rest
        (length-le_bytes 8 _))
      (ap (λ (k : ℤ). (k, ready rest)) (word_lem 8 (2 ^ 63) z refl (omega arith) h))

pub read_float-ready :
    (f : ℕ) (rest : Bytes)
    → f < 2 ^ 32
    → read_float (ready (le_bytes 4 f ++ rest)) ≡ (f, ready rest)
unfolding read_float
read_float-ready f rest h =
    rw (read_fixed-ready Method.read_float 4 (le_bytes 4 f) rest (length-le_bytes 4 f))
      (ap (λ (k : ℕ). (k, ready rest)) (from_le-le_bytes 4 f h))

read_text-ready :
    (s rest : Bytes)
    → length s ≤ max_string
    → read_text (pos (length s)) (ready (s ++ rest)) ≡ (s, ready rest)
unfolding read_text
read_text-ready [] rest h = refl
read_text-ready (c ∷ cs) rest h =
    rw
      (
        le→ltb_false (suc (length cs)) 10240 h,
        read_fixed-ready Method.read_string (suc (length cs)) (c ∷ cs) rest refl,
      )
      (ground arith)

pub read_string-ready :
    (s rest : Bytes)
    → length s ≤ max_string
    → read_string (ready (text_bytes s ++ rest)) ≡ (s, ready rest)
unfolding read_string
read_string-ready s rest h = rw (
  append_assoc (int_bytes (pos (length s))) s rest,
  read_int-ready (pos (length s)) (s ++ rest) (omega arith),
  read_text-ready s rest h,
)

pub ints_bytes : List ℤ → Bytes
ints_bytes [] = []
ints_bytes (v ∷ vs) = int_bytes v ++ ints_bytes vs

read_each_int_step :
    (n : ℕ) (acc : List ℤ) (p : Parser) {q : Parser} {v : ℤ}
    → read_int p ≡ (v, q)
    → read_each_int (suc n) acc p ≡ read_each_int n (acc ++ (v ∷ [])) q
unfolding read_each_int
read_each_int_step n acc p e = ap (λ (r : ℤ × Parser). read_each_int n (acc ++ (r.0 ∷ [])) r.1) e

read_each_int-ready :
    (vs acc : List ℤ) (rest : Bytes)
    → All (Fits (2 ^ 31)) vs
    → read_each_int (length vs) acc (ready (ints_bytes vs ++ rest)) ≡ (acc ++ vs, ready rest)
unfolding read_each_int ints_bytes
read_each_int-ready [] acc rest h = ap (λ (t : List ℤ). (t, ready rest)) (sym (append-nil acc))
read_each_int-ready (v ∷ vs) acc rest h = rw (
  append_assoc (int_bytes v) (ints_bytes vs) rest,
  read_each_int_step (length vs) acc _ (read_int-ready v (ints_bytes vs ++ rest) h.0),
  read_each_int-ready vs (acc ++ (v ∷ [])) rest h.1,
  append_assoc acc (v ∷ []) vs,
)

pub read_ints-ready :
    (vs : List ℤ) (rest : Bytes)
    → length vs < 2 ^ 31
    → All (Fits (2 ^ 31)) vs
    → read_ints (ready ((int_bytes (pos (length vs)) ++ ints_bytes vs) ++ rest))
      ≡ ret (vs, ready rest)
unfolding read_ints
read_ints-ready vs rest n h = rw (
  append_assoc (int_bytes (pos (length vs))) (ints_bytes vs) rest,
  ap read_ints_after (read_int-ready (pos (length vs)) (ints_bytes vs ++ rest) n),
  read_each_int-ready vs [] rest h,
)

write_each_int-holding :
    (vs : List ℤ) (bs : Bytes) → write_each_int vs (holding bs) ≡ holding (bs ++ ints_bytes vs)
unfolding write_each_int ints_bytes write_int
write_each_int-holding [] bs = ap holding (sym (append-nil bs))
write_each_int-holding (v ∷ vs) bs =
    write_each_int-holding vs (bs ++ int_bytes v)
    ∙ ap holding (append_assoc bs (int_bytes v) (ints_bytes vs))

pub write_ints-holding :
    (vs : List ℤ) (bs : Bytes)
    → write_ints vs (holding bs) ≡ holding (bs ++ (int_bytes (pos (length vs)) ++ ints_bytes vs))
unfolding write_ints write_int
write_ints-holding vs bs = rw (
  write_each_int-holding vs (bs ++ int_bytes (pos (length vs))),
  append_assoc bs (int_bytes (pos (length vs))) (ints_bytes vs),
)

pub write_string-holding :
    (s bs : Bytes) → write_string s (holding bs) ≡ holding (bs ++ text_bytes s)
unfolding write_string write_int
write_string-holding [] bs =
    ap (λ (t : Bytes). holding (bs ++ t)) (sym (append-nil (int_bytes (pos 0))))
write_string-holding (c ∷ cs) bs =
    ap holding (append_assoc bs (int_bytes (pos (suc (length cs)))) (c ∷ cs))
