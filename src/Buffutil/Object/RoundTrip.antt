-- ===== src/Buffutil/Object/RoundTrip.antt =====
-- The round trip of utils/buffutil: `WriteObject` and then `ReadObject`.
use silvernode_go.Common.{ℕ, ◌≤◌, ◌≡◌, refl, [], ◌++◌, Run, ret, Bytes, nat_eq, bytes_eq}
use silvernode_go.Stl.GoMap.{GoMap}
use silvernode_go.Buffutil.Value.{
  Value, array, dict, hash, other, Items, nil, cons, Fields, end, field, Entries, done, entry,
}
use silvernode_go.Buffutil.Buffer.{Buffer, CustomType, write_object}
use silvernode_go.Buffutil.Parser.{Parser, read_object}
use silvernode_go.Buffutil.Primitives.{holding, ready}
use silvernode_go.Buffutil.Object.{
  encode, decoded, depth, IsPlain, ArePlain, ArePlainFields, ArePlainEntries, IsPortable,
  ArePortable, ArePortableFields, ArePortableEntries,
}
use silvernode_go.Buffutil.Object.Write.{write_object-encode}
use silvernode_go.Buffutil.Object.Read.{read_lem}

mutual
  portable-IsPlain : (v : Value) → IsPortable v → IsPlain v
  portable-IsPlain (other t v) h = h
  portable-IsPlain (array v) h = portable-ArePlain v h.1
  portable-IsPlain (dict v) h = portable-ArePlainFields v h.2
  portable-IsPlain (hash v) h = portable-ArePlainEntries v h.2
  portable-IsPlain _ h = tt

  portable-ArePlain : (vs : Items) → ArePortable vs → ArePlain vs
  portable-ArePlain nil h = tt
  portable-ArePlain (cons v vs) h = (portable-IsPlain v h.0, portable-ArePlain vs h.1)

  portable-ArePlainFields : (fs : Fields) → ArePortableFields fs → ArePlainFields fs
  portable-ArePlainFields end h = tt
  portable-ArePlainFields (field k v fs) h =
      (portable-IsPlain v h.1, portable-ArePlainFields fs h.2)

  portable-ArePlainEntries : (es : Entries) → ArePortableEntries es → ArePlainEntries es
  portable-ArePlainEntries done h = tt
  portable-ArePlainEntries (entry k v es) h =
      (portable-IsPlain k h.0, portable-IsPlain v h.1, portable-ArePlainEntries es h.2)

-- A portable value that is written to a fresh buffer comes back from a parser over the bytes and
-- whatever follows them, with fuel for its depth; an `int` comes back as the int32 of its value. The
-- parser is left, with no error, at what follows. The registered types play no part.
pub read_object-write_object :
    (writers : GoMap ℕ CustomType) (readers : GoMap ℕ (Parser → Run (Value × Parser))) (v : Value)
    (fuel : ℕ) (rest : Bytes)
    → IsPortable v
    → depth v ≤ fuel
    → (b : Buffer) × (write_object writers v (holding []) ≡ ret b)
      × (read_object readers fuel (ready (b.content ++ rest)) ≡ ret (decoded v, ready rest))
read_object-write_object writers readers v fuel rest h d = (
  holding (encode v),
  write_object-encode writers v (holding []) (portable-IsPlain v h) refl,
  read_lem readers v fuel rest h d,
)
