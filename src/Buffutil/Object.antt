-- ===== src/Buffutil/Object.antt =====
-- The wire format of `WriteObject` and `ReadObject` (utils/buffutil), stated without a buffer.
pub mod Write
pub mod Read
pub mod Rounds
pub mod RoundTrip
pub mod Termination
use silvernode_go.Common.{
  ℕ, suc, ◌^◌, ◌≤◌, ◌<◌, ◌≡◌, Bool, true, not, ◌&&◌, [], ◌∷◌, ◌++◌, map, pos, length, All, ◌==◌,
  Bytes, nat_eq, bytes_eq,
}
use Prim.Native.Nat.{max}
use silvernode_go.Buffutil.Words.{le_bytes, pattern_of, Fits}
use silvernode_go.Buffutil.Value.{
  Value, null, byte, bool, short, int, int32, long, str, float, ints, array, dict, hash, other,
  Items, nil, cons, Fields, end, field, Entries, done, entry, length_items, length_fields,
  length_entries, append_item, key_beq, hashable,
}
use silvernode_go.Buffutil.Sign
use silvernode_go.Buffutil.Buffer.{bool_byte}
use silvernode_go.Buffutil.Parser.{max_string}
use silvernode_go.Buffutil.Primitives.{int_bytes, text_bytes, ints_bytes}

-- The bytes of a value: its sign, then its content; containers begin with their length.
unfoldable mutual
  pub encode : Value → Bytes
  encode null = Sign.null ∷ 0 ∷ []
  encode (byte v) = Sign.byte ∷ v ∷ []
  encode (bool v) = Sign.bool ∷ bool_byte v ∷ []
  encode (short v) = Sign.short ∷ le_bytes 2 (pattern_of (2 ^ 16) v)
  encode (int v) = Sign.int ∷ int_bytes v
  encode (int32 v) = Sign.int ∷ int_bytes v
  encode (long v) = Sign.long ∷ le_bytes 8 (pattern_of (2 ^ 64) v)
  encode (str v) = Sign.str ∷ text_bytes v
  encode (float v) = Sign.float ∷ le_bytes 4 v
  encode (ints v) = Sign.ints ∷ int_bytes (pos (length v)) ++ ints_bytes v
  encode (array v) = Sign.array ∷ int_bytes (pos (length_items v)) ++ encode_items v
  encode (dict v) = Sign.dict ∷ int_bytes (pos (length_fields v)) ++ encode_fields v
  encode (hash v) = Sign.hash ∷ int_bytes (pos (length_entries v)) ++ encode_entries v
  encode (other t v) = []

  pub encode_items : Items → Bytes
  encode_items nil = []
  encode_items (cons v vs) = encode v ++ encode_items vs

  pub encode_fields : Fields → Bytes
  encode_fields end = []
  encode_fields (field k v fs) = text_bytes k ++ (encode v ++ encode_fields fs)

  pub encode_entries : Entries → Bytes
  encode_entries done = []
  encode_entries (entry k v es) = encode k ++ (encode v ++ encode_entries es)

-- What is read back: an `int` comes back as an int32.
unfoldable mutual
  pub decoded : Value → Value
  decoded null = null
  decoded (byte v) = byte v
  decoded (bool v) = bool v
  decoded (short v) = short v
  decoded (int v) = int32 v
  decoded (int32 v) = int32 v
  decoded (long v) = long v
  decoded (str v) = str v
  decoded (float v) = float v
  decoded (ints v) = ints v
  decoded (array v) = array (decoded_items v)
  decoded (dict v) = dict (decoded_fields v)
  decoded (hash v) = hash (decoded_entries v)
  decoded (other t v) = other t v

  pub decoded_items : Items → Items
  decoded_items nil = nil
  decoded_items (cons v vs) = cons (decoded v) (decoded_items vs)

  pub decoded_fields : Fields → Fields
  decoded_fields end = end
  decoded_fields (field k v fs) = field k (decoded v) (decoded_fields fs)

  pub decoded_entries : Entries → Entries
  decoded_entries done = done
  decoded_entries (entry k v es) = entry (decoded k) (decoded v) (decoded_entries es)

-- How deep containers nest.
unfoldable mutual
  pub depth : Value → ℕ
  depth null = 1
  depth (array v) = suc (depth_items v)
  depth (dict v) = suc (depth_fields v)
  depth (hash v) = suc (depth_entries v)
  depth _ = 1

  pub depth_items : Items → ℕ
  depth_items nil = 0
  depth_items (cons v vs) = max (depth v) (depth_items vs)

  pub depth_fields : Fields → ℕ
  depth_fields end = 0
  depth_fields (field k v fs) = max (depth v) (depth_fields fs)

  pub depth_entries : Entries → ℕ
  depth_entries done = 0
  depth_entries (entry k v es) = max (max (depth k) (depth v)) (depth_entries es)

abbrev pub snoc_field : Fields → Bytes → Value → Fields
snoc_field end k v = field k v end
snoc_field (field j w fs) k v = field j w (snoc_field fs k v)

abbrev pub snoc_entry : Entries → Value → Value → Entries
snoc_entry done k v = entry k v done
snoc_entry (entry j w es) k v = entry j w (snoc_entry es k v)

abbrev pub absent_field : Bytes → Fields → Bool
absent_field k end = true
absent_field k (field j w fs) = not (j == k) && absent_field k fs

abbrev pub absent_entry : Value → Entries → Bool
absent_entry k done = true
absent_entry k (entry j w es) = not (key_beq j k) && absent_entry k es

-- The keys that follow are hashable, and each is unequal to every key before it.
abbrev pub NewFields : Fields → Fields → Type 0
NewFields before end = Unit
NewFields before (field k v fs) =
    (absent_field k before ≡ true) × NewFields (snoc_field before k v) fs

abbrev pub NewEntries : Entries → Entries → Type 0
NewEntries before done = Unit
NewEntries before (entry k v es) =
    (hashable k ≡ true) × (absent_entry k before ≡ true) × NewEntries (snoc_entry before k v) es

-- No value in it is of a type outside the switch.
abbrev mutual
  pub IsPlain : Value → Type 0
  IsPlain null = Unit
  IsPlain (other t v) = ⊥
  IsPlain (array v) = ArePlain v
  IsPlain (dict v) = ArePlainFields v
  IsPlain (hash v) = ArePlainEntries v
  IsPlain _ = Unit

  pub ArePlain : Items → Type 0
  ArePlain nil = Unit
  ArePlain (cons v vs) = IsPlain v × ArePlain vs

  pub ArePlainFields : Fields → Type 0
  ArePlainFields end = Unit
  ArePlainFields (field k v fs) = IsPlain v × ArePlainFields fs

  pub ArePlainEntries : Entries → Type 0
  ArePlainEntries done = Unit
  ArePlainEntries (entry k v es) = IsPlain k × IsPlain v × ArePlainEntries es

-- The values that survive the trip: numbers in the range of their width, strings of at most 10240
-- bytes, lengths that an int32 holds, and in a map keys that are still distinct when read back.
abbrev mutual
  pub IsPortable : Value → Type 0
  IsPortable null = Unit
  IsPortable (byte v) = v < 256
  IsPortable (bool v) = Unit
  IsPortable (short v) = Fits (2 ^ 15) v
  IsPortable (int v) = Fits (2 ^ 31) v
  IsPortable (int32 v) = Fits (2 ^ 31) v
  IsPortable (long v) = Fits (2 ^ 63) v
  IsPortable (str v) = length v ≤ max_string
  IsPortable (float v) = v < 2 ^ 32
  IsPortable (ints v) = (length v < 2 ^ 31) × All (Fits (2 ^ 31)) v
  IsPortable (array v) = (length_items v < 2 ^ 31) × ArePortable v
  IsPortable (dict v) =
      (length_fields v < 2 ^ 31) × NewFields end (decoded_fields v) × ArePortableFields v
  IsPortable (hash v) =
      (length_entries v < 2 ^ 31) × NewEntries done (decoded_entries v) × ArePortableEntries v
  IsPortable (other t v) = ⊥

  pub ArePortable : Items → Type 0
  ArePortable nil = Unit
  ArePortable (cons v vs) = IsPortable v × ArePortable vs

  pub ArePortableFields : Fields → Type 0
  ArePortableFields end = Unit
  ArePortableFields (field k v fs) = (length k ≤ max_string) × IsPortable v × ArePortableFields fs

  pub ArePortableEntries : Entries → Type 0
  ArePortableEntries done = Unit
  ArePortableEntries (entry k v es) = IsPortable k × IsPortable v × ArePortableEntries es
