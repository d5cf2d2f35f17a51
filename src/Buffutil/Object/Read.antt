-- ===== src/Buffutil/Object/Read.antt =====
-- `ReadObject` of utils/buffutil/parser.go reads back what `WriteObject` wrote.
use silvernode_go.Common.{
  ℕ, zero, suc, ◌≤◌, ◌<◌, ◌≡◌, ap, List, ◌∷◌, ◌++◌, arith, ℤ, pos, Run, ret, ◌>>=◌, Bytes, nat_eq,
  bytes_eq,
}
use mathlib.Core.List.{append_assoc}
use silvernode_go.Stl.GoMap.{GoMap}
use silvernode_go.Buffutil.Sign
use silvernode_go.Buffutil.Value.{
  Value, null, byte, bool, short, int, int32, long, str, float, ints, array, dict, hash, other,
  Items, nil, cons, Fields, end, field, Entries, done, entry, length_items, length_fields,
  length_entries, append_item,
}
use silvernode_go.Buffutil.Buffer.{bool_byte}
use silvernode_go.Buffutil.Parser.{
  Parser, read_object, read_items, read_fields, read_entries, read_array, read_map, read_hash,
  read_array_after, read_map_after, read_hash_after, dispatch, after_sign, boxed, read_null,
}
use silvernode_go.Buffutil.Primitives.{
  ready, int_bytes, text_bytes, read_byte-ready, read_bool-ready, read_short-ready, read_int-ready,
  read_long-ready, read_float-ready, read_string-ready, read_ints-ready,
}
use silvernode_go.Buffutil.Object.{
  encode, encode_items, encode_fields, encode_entries, decoded, decoded_items, decoded_fields,
  decoded_entries, depth, depth_items, depth_fields, depth_entries, snoc_field, snoc_entry,
  NewFields, NewEntries, IsPortable, ArePortable, ArePortableFields, ArePortableEntries,
}
use silvernode_go.Buffutil.Object.Rounds.{
  then_items, then_fields, then_entries, then-append_item, then-snoc_field, then-snoc_entry,
  assign_new_field, assign_new_entry, items_end, fields_end, entries_end, items_step, fields_step,
  entries_step,
}

module _ (extends : GoMap ℕ (Parser → Run (Value × Parser))) where
  signed_step :
      (fuel c : ℕ) (bs : Bytes)
      → read_object extends (suc fuel) (ready (c ∷ bs))
        ≡ dispatch extends (read_object extends fuel) c (ready bs)
  unfolding read_object
  signed_step fuel c bs = ap (after_sign extends (read_object extends fuel)) (read_byte-ready c bs)

  depth_pos : (v : Value) → 0 < depth v
  unfolding depth
  depth_pos null = omega arith
  depth_pos _ = omega arith

  mutual
    unfolding encode decoded depth dispatch read_array read_map read_hash read_null

    pub read_lem :
        (v : Value) (fuel : ℕ) (rest : Bytes)
        → IsPortable v
        → depth v ≤ fuel
        → read_object extends fuel (ready (encode v ++ rest)) ≡ ret (decoded v, ready rest)
    read_lem v zero rest h d = absurd (omega (arith, depth_pos v))
    read_lem null (suc fuel) rest h d =
        rw (signed_step fuel Sign.null (0 ∷ rest), read_byte-ready 0 rest)
    read_lem (byte v) (suc fuel) rest h d =
        rw (signed_step fuel Sign.byte (v ∷ rest)) (ap (boxed byte) (read_byte-ready v rest))
    read_lem (bool v) (suc fuel) rest h d =
        rw (signed_step fuel Sign.bool (bool_byte v ∷ rest))
          (ap (boxed bool) (read_bool-ready v rest))
    read_lem (short v) (suc fuel) rest h d =
        rw (signed_step fuel Sign.short _) (ap (boxed short) (read_short-ready v rest h))
    read_lem (int v) (suc fuel) rest h d =
        rw (signed_step fuel Sign.int _) (ap (boxed int32) (read_int-ready v rest h))
    read_lem (int32 v) (suc fuel) rest h d =
        rw (signed_step fuel Sign.int _) (ap (boxed int32) (read_int-ready v rest h))
    read_lem (long v) (suc fuel) rest h d =
        rw (signed_step fuel Sign.long _) (ap (boxed long) (read_long-ready v rest h))
    read_lem (str v) (suc fuel) rest h d =
        rw (signed_step fuel Sign.str _) (ap (boxed str) (read_string-ready v rest h))
    read_lem (float v) (suc fuel) rest h d =
        rw (signed_step fuel Sign.float _) (ap (boxed float) (read_float-ready v rest h))
    read_lem (ints v) (suc fuel) rest h d =
        rw (signed_step fuel Sign.ints _)
          (ap (λ (r : Run (List ℤ × Parser)). r >>= boxed ints) (read_ints-ready v rest h.0 h.1))
    read_lem (array v) (suc fuel) rest h d = rw (
      signed_step fuel Sign.array _,
      append_assoc (int_bytes (pos (length_items v))) (encode_items v) rest,
      ap (read_array_after (read_object extends fuel))
          (read_int-ready (pos (length_items v)) (encode_items v ++ rest) h.0),
      items_lem v nil fuel rest h.1 (omega arith),
    )
    read_lem (dict v) (suc fuel) rest h d = rw (
      signed_step fuel Sign.dict _,
      append_assoc (int_bytes (pos (length_fields v))) (encode_fields v) rest,
      ap (read_map_after (read_object extends fuel))
          (read_int-ready (pos (length_fields v)) (encode_fields v ++ rest) h.0),
      fields_lem v end fuel rest h.1 h.2 (omega arith),
    )
    read_lem (hash v) (suc fuel) rest h d = rw (
      signed_step fuel Sign.hash _,
      append_assoc (int_bytes (pos (length_entries v))) (encode_entries v) rest,
      ap (read_hash_after (read_object extends fuel))
          (read_int-ready (pos (length_entries v)) (encode_entries v ++ rest) h.0),
      entries_lem v done fuel rest h.1 h.2 (omega arith),
    )
    read_lem (other t v) (suc fuel) rest h d = absurd h

    items_lem :
        (vs acc : Items) (fuel : ℕ) (rest : Bytes)
        → ArePortable vs
        → depth_items vs ≤ fuel
        → read_items
            (read_object extends fuel)
            (length_items vs)
            acc
            (ready (encode_items vs ++ rest))
          ≡ ret (then_items acc (decoded_items vs), ready rest)
    items_lem nil acc fuel rest h d = items_end (read_object extends fuel) acc (ready rest)
    items_lem (cons v vs) acc fuel rest h d = rw (
      append_assoc (encode v) (encode_items vs) rest,
      items_step (read_object extends fuel) (length_items vs) acc _
          (read_lem v fuel (encode_items vs ++ rest) h.0 (omega arith)),
      items_lem vs (append_item acc (decoded v)) fuel rest h.1 (omega arith),
      then-append_item acc (decoded v) (decoded_items vs),
    )

    fields_lem :
        (fs acc : Fields) (fuel : ℕ) (rest : Bytes)
        → NewFields acc (decoded_fields fs)
        → ArePortableFields fs
        → depth_fields fs ≤ fuel
        → read_fields
            (read_object extends fuel)
            (length_fields fs)
            acc
            (ready (encode_fields fs ++ rest))
          ≡ ret (then_fields acc (decoded_fields fs), ready rest)
    fields_lem end acc fuel rest n h d = fields_end (read_object extends fuel) acc (ready rest)
    fields_lem (field k v fs) acc fuel rest n h d = rw (
      append_assoc (text_bytes k) (encode v ++ encode_fields fs) rest,
      append_assoc (encode v) (encode_fields fs) rest,
      fields_step (read_object extends fuel) (length_fields fs) acc _ _
          (read_string-ready k (encode v ++ (encode_fields fs ++ rest)) h.0)
          (read_lem v fuel (encode_fields fs ++ rest) h.1 (omega arith)),
      assign_new_field k (decoded v) acc n.0,
      fields_lem fs (snoc_field acc k (decoded v)) fuel rest n.1 h.2 (omega arith),
      then-snoc_field acc k (decoded v) (decoded_fields fs),
    )

    entries_lem :
        (es acc : Entries) (fuel : ℕ) (rest : Bytes)
        → NewEntries acc (decoded_entries es)
        → ArePortableEntries es
        → depth_entries es ≤ fuel
        → read_entries
            (read_object extends fuel)
            (length_entries es)
            acc
            (ready (encode_entries es ++ rest))
          ≡ ret (then_entries acc (decoded_entries es), ready rest)
    entries_lem done acc fuel rest n h d = entries_end (read_object extends fuel) acc (ready rest)
    entries_lem (entry k v es) acc fuel rest n h d = rw (
      append_assoc (encode k) (encode v ++ encode_entries es) rest,
      append_assoc (encode v) (encode_entries es) rest,
      entries_step (read_object extends fuel) (length_entries es) acc _ _
          (read_lem k fuel (encode v ++ (encode_entries es ++ rest)) h.0 (omega arith))
          (read_lem v fuel (encode_entries es ++ rest) h.1 (omega arith)) n.0,
      assign_new_entry (decoded k) (decoded v) acc n.1,
      entries_lem es (snoc_entry acc (decoded k) (decoded v)) fuel rest n.2 h.2 (omega arith),
      then-snoc_entry acc (decoded k) (decoded v) (decoded_entries es),
    )
