-- ===== src/Buffutil/Buffer.antt =====
-- utils/buffutil/buffer.go: `Buffer`, an append-only byte buffer with a sticky error.
use silvernode_go.Common.{
  ℕ, ◌^◌, Bool, true, false, Option, none, some, List, [], ◌∷◌, ◌++◌, if◌then◌else◌, is_some, ℤ,
  pos, negsuc, Run, ret, panic, ◌>>=◌, length, Bytes, nat_eq, bytes_eq,
}
use silvernode_go.Stl.GoMap.{GoMap, lookup, insert}
use silvernode_go.Buffutil.Words.{le_bytes, pattern_of}
use silvernode_go.Buffutil.Value.{
  Value, null, byte, bool, short, int, int32, long, str, float, ints, array, dict, hash, other,
  Items, nil, cons, Fields, end, field, Entries, done, entry, length_items, length_fields,
  length_entries, Method, write_ints as m_ints, write_array as m_array, write_map as m_map,
  write_hash as m_hash, unsupported as m_unsupported, Error, extend,
}
use silvernode_go.Buffutil.Sign

-- `content` is what `Bytes()` of the bytes.Buffer returns.
pub record Buffer : Type 0 where
  pub content : Bytes
  pub err : Option Error

-- The scratch slice of the given capacity is emptied by `Reset`; a negative capacity panics.
unfoldable pub new_buffer : ℤ → Run Buffer
new_buffer (pos n) = ret (record { content = []; err = none })
new_buffer (negsuc n) = panic

abbrev pub failed : Buffer → Bool
failed b = is_some b.err

-- `if b.err != nil { return b }`, then `binary.Write`: on a bytes.Buffer it appends and returns nil.
unfoldable pub write_raw : Bytes → Buffer → Buffer
write_raw bs b = if failed b then b else record b { content = b.content ++ bs }

unfoldable pub write_byte : ℕ → Buffer → Buffer
unfolding write_raw
write_byte v = write_raw (v ∷ [])

abbrev pub bool_byte : Bool → ℕ
bool_byte true = 1
bool_byte false = 0

unfoldable pub write_bool : Bool → Buffer → Buffer
unfolding write_raw
write_bool v = write_raw (bool_byte v ∷ [])

unfoldable pub write_bytes : Bytes → Buffer → Buffer
unfolding write_raw
write_bytes v = write_raw v

unfoldable pub write_short : ℤ → Buffer → Buffer
unfolding write_raw
write_short v = write_raw (le_bytes 2 (pattern_of (2 ^ 16) v))

unfoldable pub write_int : ℤ → Buffer → Buffer
unfolding write_raw
write_int v = write_raw (le_bytes 4 (pattern_of (2 ^ 32) v))

unfoldable pub write_long : ℤ → Buffer → Buffer
unfolding write_raw
write_long v = write_raw (le_bytes 8 (pattern_of (2 ^ 64) v))

-- The length is converted to int32, which `pattern_of` does.
unfoldable pub write_string : Bytes → Buffer → Buffer
unfolding write_raw write_int
write_string [] b = if failed b then b else write_int (pos 0) b
write_string (c ∷ cs) b =
    if failed b then b else write_raw (c ∷ cs) (write_int (pos (length (c ∷ cs))) b)

unfoldable pub write_float : ℕ → Buffer → Buffer
unfolding write_raw
write_float v = write_raw (le_bytes 4 v)

unfoldable pub write_each_int : List ℤ → Buffer → Buffer
write_each_int [] b = b
write_each_int (v ∷ vs) b = write_each_int vs (write_int v b)

abbrev pub extended : Method → Option Error → Option Error
extended m none = none
extended m (some e) = some (extend m e)

-- `if b.err != nil { b.err = errutil.Extend(…, b.err) }`
abbrev pub wrap : Method → Buffer → Buffer
wrap m b = record b { err = extended m b.err }

unfoldable pub write_ints : List ℤ → Buffer → Buffer
unfolding write_each_int
write_ints vs b =
    if failed b then b else wrap m_ints (write_each_int vs (write_int (pos (length vs)) b))

-- `CustomType`: the functions are the user's.
pub record CustomType : Type 0 where
  pub sign : ℕ
  pub serialize : Buffer → ℕ → Buffer

-- The three methods on containers differ in their loop: the length as an int32, then the loop.
unfoldable pub write_container : Method → ℕ → (Buffer → Run Buffer) → Buffer → Run Buffer
write_container m n loop b =
    if failed b then ret b else loop (write_int (pos n) b) >>= λ b'. ret (wrap m b')

-- The guard of `WriteObject` and its last test, around a branch of the switch.
unfoldable pub object : (Buffer → Run Buffer) → Buffer → Run Buffer
object branch b = if failed b then ret b else branch b >>= λ b'. ret (wrap m_hash b')

-- `errutil.Extend` calls `Error()` of the error that it is given, which panics where that is nil.
abbrev pub error_of : Option Error → Run Error
error_of none = panic
error_of (some e) = ret e

-- `ExtendCustomType`: the two maps of registered types, by the number of the type and by the sign
unfoldable pub extend_custom_type :
    {F : Type 0}
    → ℕ
    → ℕ
    → (Buffer → ℕ → Buffer)
    → F
    → GoMap ℕ CustomType × GoMap ℕ F
    → GoMap ℕ CustomType × GoMap ℕ F
extend_custom_type itype sign serialize deserialize (writers, readers) = (
  insert itype (record { sign = sign; serialize = serialize }) writers,
  insert sign deserialize readers,
)

-- `_customBufferExtends`, from the number of the type.
module _ (extends : GoMap ℕ CustomType) where
  -- The default branch, with `errutil.Extend(…, b.err)`.
  unfoldable pub write_other : ℕ → Option CustomType → Buffer → Run Buffer
  write_other value (some c) b = ret (c.serialize (write_byte c.sign b) value)
  write_other value none b =
      error_of b.err >>= λ e. ret (record b { err = some (extend m_unsupported e) })

  unfoldable mutual
    pub write_object : Value → Buffer → Run Buffer
    write_object null = λ b. if failed b then ret b else ret (write_byte 0 (write_byte Sign.null b))
    write_object (byte v) = object λ b. ret (write_byte v (write_byte Sign.byte b))
    write_object (bool v) = object λ b. ret (write_bool v (write_byte Sign.bool b))
    write_object (short v) = object λ b. ret (write_short v (write_byte Sign.short b))
    write_object (int v) = object λ b. ret (write_int v (write_byte Sign.int b))
    write_object (int32 v) = object λ b. ret (write_int v (write_byte Sign.int b))
    write_object (long v) = object λ b. ret (write_long v (write_byte Sign.long b))
    write_object (str v) = object λ b. ret (write_string v (write_byte Sign.str b))
    write_object (float v) = object λ b. ret (write_float v (write_byte Sign.float b))
    write_object (ints v) = object λ b. ret (write_ints v (write_byte Sign.ints b))
    write_object (array v) =
        object
          λ b. write_container m_array (length_items v) (write_items v) (write_byte Sign.array b)
    write_object (dict v) =
        object
          λ b. write_container m_map (length_fields v) (write_fields v) (write_byte Sign.dict b)
    write_object (hash v) =
        object
          λ b. write_container m_hash (length_entries v) (write_entries v) (write_byte Sign.hash b)
    write_object (other t v) = object (write_other v (lookup t extends))

    pub write_items : Items → Buffer → Run Buffer
    write_items nil b = ret b
    write_items (cons v vs) b = write_object v b >>= write_items vs

    pub write_fields : Fields → Buffer → Run Buffer
    write_fields end b = ret b
    write_fields (field k v fs) b = write_object v (write_string k b) >>= write_fields fs

    pub write_entries : Entries → Buffer → Run Buffer
    write_entries done b = ret b
    write_entries (entry k v es) b =
        write_object k b >>= λ b'. write_object v b' >>= write_entries es

  unfoldable pub write_array : Items → Buffer → Run Buffer
  write_array v = write_container m_array (length_items v) (write_items v)

  unfoldable pub write_map : Fields → Buffer → Run Buffer
  write_map v = write_container m_map (length_fields v) (write_fields v)

  unfoldable pub write_hash : Entries → Buffer → Run Buffer
  write_hash v = write_container m_hash (length_entries v) (write_entries v)

pub data Flushed : Type 0 where
  ok : Bytes → Flushed
  err : Error → Flushed

abbrev pub flushed : Bytes → Option Error → Flushed
flushed bs none = Flushed.ok bs
flushed bs (some e) = Flushed.err e

unfoldable pub flush : Buffer → Flushed
flush b = flushed b.content b.err
