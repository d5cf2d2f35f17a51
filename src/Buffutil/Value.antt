-- ===== src/Buffutil/Value.antt =====
-- The values that utils/buffutil writes and reads, its type signs (custom.go), and its errors.
use silvernode_go.Common.{
  ℕ, suc, ◌/◌, ◌%◌, ◌^◌, Bool, true, false, not, ◌&&◌, ◌||◌, List, if◌then◌else◌, ℤ, pos, negsuc,
  ◌==◌, Bytes, nat_eq, bytes_eq,
}

-- The dynamic types of the type switch in `WriteObject`. `int` is Go's 64-bit int. A string is its
-- bytes and a float32 its IEEE pattern. A map holds its entries in the order of the `range`.
-- `other` stands for a value of any other type, by the number of its type and of its content.
mutual
  pub data Value : Type 0 where
    null : Value
    byte : ℕ → Value
    bool : Bool → Value
    short : ℤ → Value
    int : ℤ → Value
    int32 : ℤ → Value
    long : ℤ → Value
    str : Bytes → Value
    float : ℕ → Value
    ints : List ℤ → Value
    array : Items → Value
    dict : Fields → Value
    hash : Entries → Value
    other : ℕ → ℕ → Value

  -- []interface{}
  pub data Items : Type 0 where
    nil : Items
    cons : Value → Items → Items

  -- map[string]interface{}
  pub data Fields : Type 0 where
    end : Fields
    field : Bytes → Value → Fields → Fields

  -- map[interface{}]interface{}
  pub data Entries : Type 0 where
    done : Entries
    entry : Value → Value → Entries → Entries

abbrev pub length_items : Items → ℕ
length_items nil = 0
length_items (cons v vs) = suc (length_items vs)

abbrev pub length_fields : Fields → ℕ
length_fields end = 0
length_fields (field k v fs) = suc (length_fields fs)

abbrev pub length_entries : Entries → ℕ
length_entries done = 0
length_entries (entry k v es) = suc (length_entries es)

-- `array = append(array, item)`
abbrev pub append_item : Items → Value → Items
append_item nil v = cons v nil
append_item (cons w vs) v = cons w (append_item vs v)

-- `Map[k] = v`
abbrev pub assign_field : Bytes → Value → Fields → Fields
assign_field k v end = field k v end
assign_field k v (field j w fs) =
    let rest = assign_field k v fs in if j == k then field j v fs else field j w rest

-- Go's == on float32, by the patterns: a NaN equals nothing, and the two zeros are equal.
abbrev pub is_nan : ℕ → Bool
is_nan f = f / 2 ^ 23 % 256 == 255 && not (f % 2 ^ 23 == 0)

unfoldable pub float_beq : ℕ → ℕ → Bool
float_beq f g = not (is_nan f) && not (is_nan g) && (f == g || f % 2 ^ 31 == 0 && g % 2 ^ 31 == 0)

abbrev pub int_beq : ℤ → ℤ → Bool
int_beq (pos m) (pos n) = m == n
int_beq (negsuc m) (negsuc n) = m == n
int_beq (pos m) (negsuc n) = false
int_beq (negsuc m) (pos n) = false

abbrev pub bool_beq : Bool → Bool → Bool
bool_beq true c = c
bool_beq false c = not c

-- Go's == on two interface values whose types are hashable.
unfoldable pub key_beq : Value → Value → Bool
unfolding float_beq
key_beq null null = true
key_beq (byte m) (byte n) = m == n
key_beq (bool b) (bool c) = bool_beq b c
key_beq (short m) (short n) = int_beq m n
key_beq (int m) (int n) = int_beq m n
key_beq (int32 m) (int32 n) = int_beq m n
key_beq (long m) (long n) = int_beq m n
key_beq (str s) (str t) = s == t
key_beq (float f) (float g) = float_beq f g
key_beq (other t m) (other u n) = t == u && m == n
key_beq _ _ = false

-- A slice or a map as a key of a map panics.
unfoldable pub hashable : Value → Bool
hashable (ints _) = false
hashable (array _) = false
hashable (dict _) = false
hashable (hash _) = false
hashable _ = true

-- `hash[k] = v` for a key of a hashable type
unfoldable pub assign_entry : Value → Value → Entries → Entries
assign_entry k v done = entry k v done
assign_entry k v (entry j w es) =
    let rest = assign_entry k v es in if key_beq j k then entry j v es else entry j w rest

-- The method whose name an error carries.
pub data Method : Type 0 where
  read_byte read_bool read_short read_int read_long read_string read_float : Method
  read_ints read_array read_map read_hash : Method
  write_ints write_array write_map write_hash write_object : Method
  unsupported : Method

-- `errutil.Extend(name, err)` and the errors at the bottom.
pub data Error : Type 0 where
  eof unexpected_eof unknown_type : Error
  bad_length : ℤ → Error
  extend : Method → Error → Error
