-- ===== src/Buffutil/Parser.antt =====
-- utils/buffutil/parser.go: `Parser`, which reads what a `Buffer` wrote, with a sticky error.
use silvernode_go.Common.{
  ℕ, zero, suc, ◌^◌, Bool, not, ◌||◌, Option, none, some, List, [], ◌∷◌, ◌++◌, ltb, leb,
  if◌then◌else◌, is_some, ℤ, pos, negsuc, Run, ret, panic, stuck, ◌>>=◌, length, take, drop, ◌==◌,
  Bytes, nat_eq, bytes_eq,
}
use silvernode_go.Stl.GoMap.{GoMap, lookup}
use silvernode_go.Buffutil.Words.{from_le, signed}
use silvernode_go.Buffutil.Value.{
  Value, null, byte, bool, short, int32, long, str, float, ints, array, dict, hash, Items, nil,
  Fields, end, Entries, done, append_item, assign_field, assign_entry, hashable, Method, Error,
  extend, eof, unexpected_eof, unknown_type, bad_length,
}
use silvernode_go.Buffutil.Sign

-- `content` is the unread portion of the bytes.Buffer.
pub record Parser : Type 0 where
  pub content : Bytes
  pub err : Option Error

-- `Grow(offset)` makes room and skips nothing; it panics on a negative number.
unfoldable pub new_parser : Bytes → ℤ → Run Parser
new_parser bs (pos offset) = ret (record { content = bs; err = none })
new_parser bs (negsuc offset) = panic

abbrev pub failed : Parser → Bool
failed p = is_some p.err

abbrev pub short_read : Bytes → Error
short_read [] = eof
short_read (b ∷ bs) = unexpected_eof

-- `binary.Read` of `n` bytes: a short input is used up.
unfoldable pub read_fixed : Method → ℕ → Parser → Option Bytes × Parser
read_fixed m n p =
    if leb n (length p.content)
    then (some (take n p.content), record p { content = drop n p.content })
    else (none, record { content = []; err = some (extend m (short_read p.content)) })

-- The same behind `if b.err != nil { return … }`.
unfoldable pub read_raw : Method → ℕ → Parser → Option Bytes × Parser
unfolding read_fixed
read_raw m n p = if failed p then (none, p) else read_fixed m n p

abbrev pub word : Option Bytes → ℕ
word none = 0
word (some bs) = from_le bs

unfoldable pub read_byte : Parser → ℕ × Parser
unfolding read_raw
read_byte p = let (o, p') = read_raw Method.read_byte 1 p in (word o, p')

unfoldable pub read_bool : Parser → Bool × Parser
unfolding read_raw
read_bool p = let (o, p') = read_raw Method.read_bool 1 p in (not (word o == 0), p')

unfoldable pub read_short : Parser → ℤ × Parser
unfolding read_raw
read_short p = let (o, p') = read_raw Method.read_short 2 p in (signed (2 ^ 15) (word o), p')

unfoldable pub read_int : Parser → ℤ × Parser
unfolding read_raw
read_int p = let (o, p') = read_raw Method.read_int 4 p in (signed (2 ^ 31) (word o), p')

unfoldable pub read_long : Parser → ℤ × Parser
unfolding read_raw
read_long p = let (o, p') = read_raw Method.read_long 8 p in (signed (2 ^ 63) (word o), p')

unfoldable pub read_float : Parser → ℕ × Parser
unfolding read_raw
read_float p = let (o, p') = read_raw Method.read_float 4 p in (word o, p')

unfoldable pub read_bytes : Parser → Bytes
read_bytes p = p.content

abbrev pub text : Option Bytes → Bytes
text none = []
text (some bs) = bs

abbrev pub max_string : ℕ
max_string = 10240

-- `ReadString` after the length.
unfoldable pub read_text : ℤ → Parser → Bytes × Parser
unfolding read_fixed
read_text (negsuc n) p =
    ([], record p { err = some (extend Method.read_string (bad_length (negsuc n))) })
read_text (pos n) p =
    if n == 0
    then ([], p)
    else if ltb max_string n
    then ([], record p { err = some (extend Method.read_string (bad_length (pos n))) })
    else let (o, p') = read_fixed Method.read_string n p in (text o, p')

unfoldable pub read_string : Parser → Bytes × Parser
unfolding read_text
read_string p = let (n, p') = read_int p in if failed p' then ([], p') else read_text n p'

unfoldable pub read_each_int : ℕ → List ℤ → Parser → List ℤ × Parser
read_each_int zero acc p = (acc, p)
read_each_int (suc n) acc p = let (v, p') = read_int p in read_each_int n (acc ++ (v ∷ [])) p'

abbrev pub extended : Method → Option Error → Option Error
extended m none = none
extended m (some e) = some (extend m e)

-- The end of the container methods: `nil` and a longer error where an error is set.
abbrev pub finish {ℓ} : {A : Type ℓ} → Method → A → A × Parser → A × Parser
finish m empty (a, p) = (if failed p then empty else a, record p { err = extended m p.err })

-- `ReadInts` after the length: `make([]int32, 0, length)` panics on a negative one.
unfoldable pub read_ints_after : ℤ × Parser → Run (List ℤ × Parser)
unfolding read_each_int
read_ints_after (pos k, p) = ret (finish Method.read_ints [] (read_each_int k [] p))
read_ints_after (negsuc k, p) = panic

unfoldable pub read_ints : Parser → Run (List ℤ × Parser)
unfolding read_ints_after
read_ints p = read_ints_after (read_int p)

-- A loop `for i = 0; i < length; i++` does nothing for a negative length.
abbrev pub rounds : ℤ → ℕ
rounds (pos n) = n
rounds (negsuc n) = 0

-- The loops of the container methods, over `ReadObject`.
module _ (reader : Parser → Run (Value × Parser)) where
  unfoldable pub read_items : ℕ → Items → Parser → Run (Items × Parser)
  read_items zero acc p = ret (acc, p)
  read_items (suc n) acc p = reader p >>= λ r. read_items n (append_item acc r.0) r.1

  unfoldable pub read_fields : ℕ → Fields → Parser → Run (Fields × Parser)
  read_fields zero acc p = ret (acc, p)
  read_fields (suc n) acc p =
      let (k, p') = read_string p in reader p' >>= λ r. read_fields n (assign_field k r.0 acc) r.1

  unfoldable pub read_entries : ℕ → Entries → Parser → Run (Entries × Parser)
  read_entries zero acc p = ret (acc, p)
  read_entries (suc n) acc p = reader p >>= λ k. reader k.1 >>= λ v.
      if hashable k.0 then read_entries n (assign_entry k.0 v.0 acc) v.1 else panic

  unfoldable pub read_array_after : ℤ × Parser → Run (Items × Parser)
  unfolding read_items
  read_array_after (pos k, p) = read_items k nil p >>= λ r. ret (finish Method.read_array nil r)
  read_array_after (negsuc k, p) = panic

  unfoldable pub read_array : Parser → Run (Items × Parser)
  unfolding read_array_after
  read_array p = read_array_after (read_int p)

  unfoldable pub read_map_after : ℤ × Parser → Run (Fields × Parser)
  unfolding read_fields
  read_map_after (n, p) = read_fields (rounds n) end p >>= λ r. ret (finish Method.read_map end r)

  unfoldable pub read_map : Parser → Run (Fields × Parser)
  unfolding read_map_after
  read_map p = read_map_after (read_int p)

  unfoldable pub read_hash_after : ℤ × Parser → Run (Entries × Parser)
  unfolding read_entries
  read_hash_after (n, p) =
      read_entries (rounds n) done p >>= λ r. ret (finish Method.read_hash done r)

  unfoldable pub read_hash : Parser → Run (Entries × Parser)
  unfolding read_hash_after
  read_hash p = read_hash_after (read_int p)

abbrev pub boxed {ℓ} : {A : Type ℓ} → (A → Value) → A × Parser → Run (Value × Parser)
boxed f (a, p) = ret (f a, p)

-- After the sign of null: one more byte, which must be 0.
unfoldable pub read_null : Parser → Value × Parser
read_null p =
    let (c, p') = read_byte p in
    if failed p'
    then (null, p')
    else if c == 0
    then (null, p')
    else (null, record p' { err = some unknown_type })

-- `_customParserExtends`: the user's functions, by sign; they may panic or not return.
module _ (extends : GoMap ℕ (Parser → Run (Value × Parser))) where
  unfoldable pub read_custom :
      Option (Parser → Run (Value × Parser)) → Parser → Run (Value × Parser)
  read_custom none p = ret (null, record p { err = some unknown_type })
  read_custom (some f) p = f p

  -- The switch of `ReadObject` on the sign that was read.
  unfoldable pub dispatch : (Parser → Run (Value × Parser)) → ℕ → Parser → Run (Value × Parser)
  dispatch reader c p =
      if c == Sign.byte
      then boxed byte (read_byte p)
      else if c == Sign.bool
      then boxed bool (read_bool p)
      else if c == Sign.short
      then boxed short (read_short p)
      else if c == Sign.int
      then boxed int32 (read_int p)
      else if c == Sign.long
      then boxed long (read_long p)
      else if c == Sign.str
      then boxed str (read_string p)
      else if c == Sign.float
      then boxed float (read_float p)
      else if c == Sign.ints
      then read_ints p >>= boxed ints
      else if c == Sign.array
      then read_array reader p >>= boxed array
      else if c == Sign.dict
      then read_map reader p >>= boxed dict
      else if c == Sign.hash
      then read_hash reader p >>= boxed hash
      else if c == Sign.null
      then ret (read_null p)
      else read_custom (lookup c extends) p

  abbrev pub after_sign : (Parser → Run (Value × Parser)) → ℕ × Parser → Run (Value × Parser)
  after_sign reader (c, p) = if failed p then ret (null, p) else dispatch reader c p

  -- `ReadObject` calls itself through the containers: the fuel bounds their nesting.
  unfoldable pub read_object : ℕ → Parser → Run (Value × Parser)
  read_object zero p = stuck
  read_object (suc fuel) p = after_sign (read_object fuel) (read_byte p)

unfoldable pub over_flow : Parser → Bool
over_flow p = leb (length p.content) 0 || failed p
