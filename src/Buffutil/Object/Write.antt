-- ===== src/Buffutil/Object/Write.antt =====
-- `WriteObject` of utils/buffutil/buffer.go appends the wire format, or panics.
use silvernode_go.Common.{
  ℕ, ◌^◌, ◌≡◌, refl, sym, ap, inl, inr, none, [], ◌∷◌, ◌++◌, if◌then◌else◌, Option-cases, is_some,
  pos, Run, ret, panic, length, Bytes, nat_eq, bytes_eq,
}
use mathlib.Core.List.{append_assoc, append-nil}
use silvernode_go.Stl.GoMap.{GoMap, lookup}
use silvernode_go.Buffutil.Value.{
  Value, null, byte, bool, short, int, int32, long, str, float, ints, array, dict, hash, other,
  Items, nil, cons, Fields, end, field, Entries, done, entry, length_items, length_fields,
  length_entries, Method, write_array as m_array, write_map as m_map, write_hash as m_hash,
}
use silvernode_go.Buffutil.Buffer.{
  Buffer, CustomType, write_object, write_items, write_fields, write_entries, write_container,
  object, write_byte, write_bool, write_short, write_int, write_long, write_float, write_other,
  bool_byte,
}
use silvernode_go.Buffutil.Primitives.{
  holding, ints_bytes, int_bytes, text_bytes, write_ints-holding, write_string-holding,
}
use silvernode_go.Buffutil.Words.{le_bytes, pattern_of}
use silvernode_go.Buffutil.Sign
use silvernode_go.Buffutil.Object.{
  encode, encode_items, encode_fields, encode_entries, IsPlain, ArePlain, ArePlainFields,
  ArePlainEntries,
}

behind :
    (sign : ℕ) (bs out : Bytes)
    → ret (holding ((bs ++ (sign ∷ [])) ++ out)) ≡ ret (holding (bs ++ (sign ∷ out)))
behind sign bs out = ap (λ (t : Bytes). ret (holding t)) (append_assoc bs (sign ∷ []) out)

container_lem :
    (m : Method) (sign n : ℕ) (loop : Buffer → Run Buffer) (bs out : Bytes)
    → loop (holding ((bs ++ (sign ∷ [])) ++ int_bytes (pos n)))
      ≡ ret (holding (((bs ++ (sign ∷ [])) ++ int_bytes (pos n)) ++ out))
    → object (λ b. write_container m n loop (write_byte sign b)) (holding bs)
      ≡ ret (holding (bs ++ (sign ∷ int_bytes (pos n) ++ out)))
unfolding object write_container write_int write_byte
container_lem m sign n loop bs out e = rw (
  e,
  append_assoc (bs ++ (sign ∷ [])) (int_bytes (pos n)) out,
  append_assoc bs (sign ∷ []) (int_bytes (pos n) ++ out),
)

holding_eta : (b : Buffer) → b.err ≡ none → b ≡ holding b.content
holding_eta b e = cc

module _ (extends : GoMap ℕ CustomType) where
  mutual
    unfolding encode write_object object write_byte write_bool write_short write_int write_long
        write_float

    write_lem :
        (v : Value) (bs : Bytes)
        → IsPlain v
        → write_object extends v (holding bs) ≡ ret (holding (bs ++ encode v))
    write_lem null bs h = behind Sign.null bs (0 ∷ [])
    write_lem (byte v) bs h = behind Sign.byte bs (v ∷ [])
    write_lem (bool v) bs h = behind Sign.bool bs (bool_byte v ∷ [])
    write_lem (short v) bs h = behind Sign.short bs (le_bytes 2 (pattern_of (2 ^ 16) v))
    write_lem (int v) bs h = behind Sign.int bs (int_bytes v)
    write_lem (int32 v) bs h = behind Sign.int bs (int_bytes v)
    write_lem (long v) bs h = behind Sign.long bs (le_bytes 8 (pattern_of (2 ^ 64) v))
    write_lem (float v) bs h = behind Sign.float bs (le_bytes 4 v)
    write_lem (str v) bs h =
        rw (write_string-holding v (bs ++ (Sign.str ∷ []))) (behind Sign.str bs (text_bytes v))
    write_lem (ints v) bs h =
        rw (write_ints-holding v (bs ++ (Sign.ints ∷ [])))
          (behind Sign.ints bs (int_bytes (pos (length v)) ++ ints_bytes v))
    write_lem (array v) bs h =
        container_lem m_array Sign.array (length_items v) (write_items extends v) bs
          (encode_items v) (items_lem v _ h)
    write_lem (dict v) bs h =
        container_lem m_map Sign.dict (length_fields v) (write_fields extends v) bs
          (encode_fields v) (fields_lem v _ h)
    write_lem (hash v) bs h =
        container_lem m_hash Sign.hash (length_entries v) (write_entries extends v) bs
          (encode_entries v) (entries_lem v _ h)
    write_lem (other t v) bs h = absurd h

    items_lem :
        (vs : Items) (bs : Bytes)
        → ArePlain vs
        → write_items extends vs (holding bs) ≡ ret (holding (bs ++ encode_items vs))
    items_lem nil bs h = ap (λ (t : Bytes). ret (holding t)) (sym (append-nil bs))
    items_lem (cons v vs) bs h = rw (
      write_lem v bs h.0,
      items_lem vs (bs ++ encode v) h.1,
      append_assoc bs (encode v) (encode_items vs),
    )

    fields_lem :
        (fs : Fields) (bs : Bytes)
        → ArePlainFields fs
        → write_fields extends fs (holding bs) ≡ ret (holding (bs ++ encode_fields fs))
    fields_lem end bs h = ap (λ (t : Bytes). ret (holding t)) (sym (append-nil bs))
    fields_lem (field k v fs) bs h = rw (
      write_string-holding k bs,
      write_lem v (bs ++ text_bytes k) h.0,
      fields_lem fs ((bs ++ text_bytes k) ++ encode v) h.1,
      append_assoc (bs ++ text_bytes k) (encode v) (encode_fields fs),
      append_assoc bs (text_bytes k) (encode v ++ encode_fields fs),
    )

    entries_lem :
        (es : Entries) (bs : Bytes)
        → ArePlainEntries es
        → write_entries extends es (holding bs) ≡ ret (holding (bs ++ encode_entries es))
    entries_lem done bs h = ap (λ (t : Bytes). ret (holding t)) (sym (append-nil bs))
    entries_lem (entry k v es) bs h = rw (
      write_lem k bs h.0,
      write_lem v (bs ++ encode k) h.1,
      entries_lem es ((bs ++ encode k) ++ encode v) h.2,
      append_assoc (bs ++ encode k) (encode v) (encode_entries es),
      append_assoc bs (encode k) (encode v ++ encode_entries es),
    )

  -- On a buffer with no error, `WriteObject` of a value without a type outside the switch never
  -- panics: it appends the value's wire format and sets no error.
  pub write_object-encode :
      (v : Value) (b : Buffer)
      → IsPlain v
      → b.err ≡ none
      → write_object extends v b ≡ ret (record { content = b.content ++ encode v; err = none })
  write_object-encode v b h e = rw (holding_eta b e) (write_lem v b.content h)

  -- `WriteObject` of a value whose type nobody registered panics (it calls `Error()` on nil); on a
  -- buffer that has an error it changes nothing.
  pub write_object_unsupported :
      (t v : ℕ) (b : Buffer)
      → lookup t extends ≡ none
      → write_object extends (other t v) b ≡ (if is_some b.err then ret b else panic)
  unfolding write_object object write_other
  write_object_unsupported t v b h = elim (Option-cases b.err) [
    | inl n ↦ rw (h, n) refl
    | inr (e, s) ↦ rw (h, s) refl
  ]
