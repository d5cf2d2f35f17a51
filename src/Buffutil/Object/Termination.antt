-- ===== src/Buffutil/Object/Termination.antt =====
-- `ReadObject` of utils/buffutil/parser.go ends on every input, and never adds to it.
use silvernode_go.Common.{
  ℕ, zero, suc, ◌+◌, ◌≤◌, ◌<◌, ◌≡◌, refl, inl, inr, Bool, true, false, Option, none, some, List, [],
  ◌∷◌, ◌++◌, arith, if◌then◌else◌, Bool-cases, ℤ, pos, negsuc, Run, ret, panic, stuck, ◌>>=◌,
  length, length-drop, ◌==◌, nat_eq, bytes_eq,
}
use silvernode_go.Stl.GoMap.{GoMap, lookup}
use silvernode_go.Buffutil.Sign
use silvernode_go.Buffutil.Value.{
  Value, int32, str, Items, Fields, Entries, append_item, assign_field, assign_entry, hashable,
  Method,
}
use silvernode_go.Buffutil.Parser.{
  Parser, failed, read_fixed, read_raw, read_byte, read_bool, read_short, read_int, read_long,
  read_float, read_text, read_string, read_each_int, read_ints_after, read_ints, read_items,
  read_fields, read_entries, read_array_after, read_array, read_map, read_hash, rounds, boxed,
  read_null, read_custom, dispatch, after_sign, read_object,
}

abbrev pub size : Parser → ℕ
size p = length p.content

-- The code returns or panics, and what it returns leaves at most `n` bytes to read.
abbrev pub Ends {ℓ} : {A : Type ℓ} → ℕ → Run (A × Parser) → Type 0
Ends n (ret (a, p)) = size p ≤ n
Ends n panic = Unit
Ends n stuck = ⊥

size-read_fixed : (m : Method) (k : ℕ) (p : Parser) → size (read_fixed m k p).1 ≤ size p
unfolding read_fixed
size-read_fixed m k p = ground (arith, length-drop k p.content)

size-read_raw : (m : Method) (k : ℕ) (p : Parser) → size (read_raw m k p).1 ≤ size p
unfolding read_raw
size-read_raw m k p = ground (arith, length-drop k p.content)

size-read_int : (p : Parser) → size (read_int p).1 ≤ size p
unfolding read_int
size-read_int p = size-read_raw Method.read_int 4 p

-- A byte that is read is one byte less to read.
size-read_byte : (p : Parser) → failed (read_byte p).1 ≡ false → size (read_byte p).1 + 1 ≡ size p
unfolding read_byte
size-read_byte p h = ground (arith, length-drop 1 p.content)

size-read_text : (n : ℤ) (p : Parser) → size (read_text n p).1 ≤ size p
unfolding read_text
size-read_text (negsuc n) p = omega arith
size-read_text (pos n) p = ground (arith, length-drop n p.content)

size-read_string : (p : Parser) → size (read_string p).1 ≤ size p
unfolding read_string
size-read_string p = ground (arith, size-read_int p, size-read_text (read_int p).0 (read_int p).1)

size-read_each_int : (n : ℕ) (acc : List ℤ) (p : Parser) → size (read_each_int n acc p).1 ≤ size p
unfolding read_each_int
size-read_each_int zero acc p = omega arith
size-read_each_int (suc n) acc p =
    omega
      (arith, size-read_int p, size-read_each_int n (acc ++ ((read_int p).0 ∷ [])) (read_int p).1)

read_ints-Ends : (p : Parser) → Ends (size p) (read_ints p)
unfolding read_ints
read_ints-Ends p = go (read_int p) (size-read_int p)
  where
    go : (r : ℤ × Parser) → size r.1 ≤ size p → Ends (size p) (read_ints_after r)
    go (pos k, q) h = omega (arith, size-read_each_int k [] q)
    go (negsuc k, q) h = tt

Ends-le {ℓ} : {A : Type ℓ} (r : Run (A × Parser)) (m n : ℕ) → Ends m r → m ≤ n → Ends n r
Ends-le (ret (a, p)) m n h le = omega arith
Ends-le panic m n h le = tt
Ends-le stuck m n h le = h

-- A step that ends, then one that ends from wherever the first may leave off.
Ends-bind {ℓ κ} :
    {A : Type ℓ} {B : Type κ} (r : Run (A × Parser)) (f : A × Parser → Run (B × Parser)) (n : ℕ)
    → Ends n r
    → ((a : A) (p : Parser) → size p ≤ n → Ends n (f (a, p)))
    → Ends n (r >>= f)
Ends-bind (ret (a, p)) f n h k = k a p h
Ends-bind panic f n h k = tt
Ends-bind stuck f n h k = h

Ends-if {ℓ} :
    {A : Type ℓ} (b : Bool) (r s : Run (A × Parser)) (n : ℕ)
    → Ends n r
    → Ends n s
    → Ends n (if b then r else s)
Ends-if true r s n h k = h
Ends-if false r s n h k = k

module _ (reader : Parser → Run (Value × Parser)) (n : ℕ)
    (ends : (p : Parser) → size p ≤ n → Ends n (reader p)) where
  items_end : (k : ℕ) (acc : Items) (p : Parser) → size p ≤ n → Ends n (read_items reader k acc p)
  unfolding read_items
  items_end zero acc p h = h
  items_end (suc k) acc p h =
      Ends-bind (reader p) _ n (ends p h) (λ v q le. items_end k (append_item acc v) q le)

  fields_end :
      (k : ℕ) (acc : Fields) (p : Parser) → size p ≤ n → Ends n (read_fields reader k acc p)
  unfolding read_fields
  fields_end zero acc p h = h
  fields_end (suc k) acc p h =
      Ends-bind (reader (read_string p).1) _ n (ends _ (omega (arith, size-read_string p)))
        (λ v q le. fields_end k (assign_field (read_string p).0 v acc) q le)

  entries_end :
      (k : ℕ) (acc : Entries) (p : Parser) → size p ≤ n → Ends n (read_entries reader k acc p)
  unfolding read_entries
  entries_end zero acc p h = h
  entries_end (suc k) acc p h = Ends-bind (reader p) _ n (ends p h) λ j q le.
      Ends-bind (reader q) _ n (ends q le)
        λ w q' le'. Ends-if (hashable j) _ panic n (entries_end k (assign_entry j w acc) q' le') tt

  array-Ends : (p : Parser) → size p ≤ n → Ends n (read_array reader p)
  unfolding read_array
  array-Ends p h = go (read_int p) (omega (arith, size-read_int p))
    where
      go : (r : ℤ × Parser) → size r.1 ≤ n → Ends n (read_array_after reader r)
      go (pos k, q) le =
          Ends-bind (read_items reader k Items.nil q) _ n (items_end k Items.nil q le) (λ a p' l. l)
      go (negsuc k, q) le = tt

  map-Ends : (p : Parser) → size p ≤ n → Ends n (read_map reader p)
  unfolding read_map
  map-Ends p h =
      Ends-bind (read_fields reader (rounds (read_int p).0) Fields.end (read_int p).1) _ n
        (fields_end _ Fields.end _ (omega (arith, size-read_int p))) (λ a p' l. l)

  hash-Ends : (p : Parser) → size p ≤ n → Ends n (read_hash reader p)
  unfolding read_hash
  hash-Ends p h =
      Ends-bind (read_entries reader (rounds (read_int p).0) Entries.done (read_int p).1) _ n
        (entries_end _ Entries.done _ (omega (arith, size-read_int p))) (λ a p' l. l)

Ends-boxed {ℓ} :
    {A : Type ℓ} (f : A → Value) (r : A × Parser) (n : ℕ) → size r.1 ≤ n → Ends n (boxed f r)
Ends-boxed f (a, p) n h = h

size-read_null : (p : Parser) → size (read_null p).1 ≤ size p
unfolding read_null read_byte
size-read_null p = ground (arith, size-read_raw Method.read_byte 1 p)

-- The user's functions for the registered signs return or panic and only consume.
abbrev pub Consumes : GoMap ℕ (Parser → Run (Value × Parser)) → Type 0
Consumes extends =
    (c : ℕ) (f : Parser → Run (Value × Parser))
    → lookup c extends ≡ some f
    → (p : Parser) → Ends (size p) (f p)

module _ (extends : GoMap ℕ (Parser → Run (Value × Parser))) (consumes : Consumes extends) where
  custom-Ends :
      (c : ℕ) (o : Option (Parser → Run (Value × Parser))) (p : Parser)
      → lookup c extends ≡ o
      → Ends (size p) (read_custom extends o p)
  unfolding read_custom
  custom-Ends c none p e = omega arith
  custom-Ends c (some f) p e = consumes c f e p

  module _ (reader : Parser → Run (Value × Parser)) (n : ℕ)
      (ends : (p : Parser) → size p ≤ n → Ends n (reader p)) where
    dispatch-Ends : (c : ℕ) (p : Parser) → size p ≤ n → Ends n (dispatch extends reader c p)
    unfolding dispatch read_bool read_short read_long read_float read_byte
    dispatch-Ends c p h =
        Ends-if (c == Sign.byte) _ _ n (omega (arith, size-read_raw Method.read_byte 1 p)) (
          Ends-if (c == Sign.bool) _ _ n (omega (arith, size-read_raw Method.read_bool 1 p)) (
            Ends-if (c == Sign.short) _ _ n (omega (arith, size-read_raw Method.read_short 2 p)) (
              Ends-if (c == Sign.int) _ _ n
                (Ends-boxed int32 (read_int p) n (omega (arith, size-read_int p)))
                (Ends-if (c == Sign.long) _ _ n (omega (arith, size-read_raw Method.read_long 8 p))
                  (Ends-if (c == Sign.str) _ _ n
                    (Ends-boxed str (read_string p) n (omega (arith, size-read_string p)))
                    (Ends-if (c == Sign.float) _ _ n
                      (omega (arith, size-read_raw Method.read_float 4 p))
                      (Ends-if (c == Sign.ints) _ _ n
                        (Ends-bind (read_ints p) _ n
                          (Ends-le (read_ints p) (size p) n (read_ints-Ends p) h) (λ a q l. l))
                        (Ends-if (c == Sign.array) _ _ n
                          (Ends-bind (read_array reader p) _ n (array-Ends reader n ends p h)
                            (λ a q l. l))
                          (Ends-if (c == Sign.dict) _ _ n
                            (Ends-bind (read_map reader p) _ n (map-Ends reader n ends p h)
                              (λ a q l. l))
                            (Ends-if (c == Sign.hash) _ _ n
                              (Ends-bind (read_hash reader p) _ n (hash-Ends reader n ends p h)
                                (λ a q l. l))
                              (Ends-if (c == Sign.null) _ _ n (omega (arith, size-read_null p)) (
                                Ends-le (read_custom extends (lookup c extends) p) (size p) n
                                  (custom-Ends c (lookup c extends) p refl) h))))))))))))

  after_sign-Ends :
      (fuel : ℕ) (p : Parser) (r : ℕ × Parser)
      → size p < suc fuel
      → (failed r.1 ≡ false → size r.1 + 1 ≡ size p)
      → size r.1 ≤ size p
      → ((q : Parser) → size q < fuel → Ends (size q) (read_object extends fuel q))
      → Ends (size p) (after_sign extends (read_object extends fuel) r)
  after_sign-Ends fuel p (c, q) lt shorter le ih = elim (Bool-cases (failed q)) [
    | inl bad ↦ rw bad le
    | inr good ↦ rw good (
        Ends-le (dispatch extends (read_object extends fuel) c q) (size q) (size p)
          (dispatch-Ends (read_object extends fuel) (size q)
            (λ p' h.
              Ends-le (read_object extends fuel p') (size p') (size q)
                (ih p' (omega (arith, shorter good))) h)
            c q (omega arith))
          le)
  ]

  object-Ends : (fuel : ℕ) (p : Parser) → size p < fuel → Ends (size p) (read_object extends fuel p)
  unfolding read_object
  object-Ends zero p h = absurd (omega arith)
  object-Ends (suc fuel) p h =
      after_sign-Ends fuel p (read_byte p) h (size-read_byte p)
        (unfold read_byte in size-read_raw Method.read_byte 1 p) (object-Ends fuel)

  -- Where the functions that users registered return or panic and never add to the input that is left:
  -- with fuel for one more than the bytes that are left, `ReadObject` returns or panics on every input;
  -- it never runs out of fuel, and what it returns leaves no more to read than there was. Without
  -- registered functions nothing is assumed.
  pub read_object_total : (p : Parser) → Ends (size p) (read_object extends (suc (size p)) p)
  read_object_total p = object-Ends (suc (size p)) p (omega arith)
