-- ===== src/Buffutil/Tests.antt =====
-- Runs of utils/buffutil at concrete inputs, and its theorems there.
use silvernode_go.Common.{
  ℕ, ◌≤◌, ◌≡◌, refl, inl, inr, true, none, some, [], ◌∷◌, ◌++◌, arith, Bool-cases, negsuc, Run, ret,
  panic, drop, length-drop, ◌==◌, nat_eq, bytes_eq,
}
use mathlib.Core.Path.{subst}
use silvernode_go.Stl.GoMap.{GoMap, lookup}
use silvernode_go.Buffutil.Value.{
  Value, null, byte, bool, int, str, array, dict, hash, other, nil, cons, end, field, done, entry,
  key_beq, hashable,
}
use silvernode_go.Buffutil.Buffer.{Buffer, CustomType, write_object}
use silvernode_go.Buffutil.Parser.{Parser, read_object, dispatch, read_array, read_int, read_byte}
use silvernode_go.Buffutil.Words.{from_le, signed}
use silvernode_go.Buffutil.Primitives.{holding, ready}
use silvernode_go.Buffutil.Object.{encode, decoded, depth, IsPortable, IsPlain}
use silvernode_go.Buffutil.Object.Write.{write_object-encode}
use silvernode_go.Buffutil.Object.RoundTrip.{read_object-write_object}
use silvernode_go.Buffutil.Object.Termination.{Ends, size, Consumes, read_object_total}

-- []interface{}{ int(-3), map[string]interface{}{ "a": nil, "b": true }, map of 1 to "x" }
abbrev mixed : Value
mixed = array (
    cons (int (negsuc 2)) (
      cons (dict (field (97 ∷ []) null (field (98 ∷ []) (bool true) end)))
        (cons (hash (entry (byte 1) (str (120 ∷ [])) done)) nil)))

-- A registered type with the sign 'z', whose value is one byte.
abbrev writers : GoMap ℕ CustomType
writers =
    (7, record { sign = b'z'; serialize = λ b v. record b { content = b.content ++ (v ∷ []) } })
    ∷ []

abbrev readers : GoMap ℕ (Parser → Run (Value × Parser))
readers = (b'z', λ p. ret (other 7 0, record p { content = drop 1 p.content })) ∷ []

mixed-IsPortable : IsPortable mixed
unfolding decoded key_beq hashable
mixed-IsPortable = (
  omega arith,
  (
    omega arith,
    (
      (omega arith, (refl, (refl, tt)), (omega arith, tt, (omega arith, tt, tt))),
      ((omega arith, (refl, refl, tt), (omega arith, omega arith, tt)), tt),
    ),
  ),
)

mixed-depth : depth mixed ≤ 3
mixed-depth = unfold depth in omega arith

read_object-write_object_example :
    (b : Buffer) × (write_object writers mixed (holding []) ≡ ret b)
    × (read_object readers 3 (ready (b.content ++ (9 ∷ []))) ≡ ret (decoded mixed, ready (9 ∷ [])))
read_object-write_object_example =
    read_object-write_object writers readers mixed 3 (9 ∷ []) mixed-IsPortable mixed-depth

mixed-IsPlain : IsPlain mixed
mixed-IsPlain = (tt, ((tt, (tt, tt)), ((tt, tt, tt), tt)))

write_object-encode_example :
    write_object writers mixed (holding (1 ∷ []))
    ≡ ret (record { content = (1 ∷ []) ++ encode mixed; err = none })
write_object-encode_example =
    write_object-encode writers mixed (holding (1 ∷ [])) mixed-IsPlain refl

some_inj {ℓ} : {A : Type ℓ} {a b : A} → some a ≡ some b → a ≡ b
some_inj = cc

readers-Consumes : Consumes readers
unfolding lookup
readers-Consumes c f e p = elim (Bool-cases (b'z' == c)) [
  | inl known ↦
      subst (λ (g : Parser → Run (Value × Parser)). Ends (size p) (g p)) (some_inj (rw known at e))
        (omega (arith, length-drop 1 p.content))
  | inr unknown ↦ absurd (ground (arith, e, unknown))
]

read_object_total_example : Ends 3 (read_object readers 4 (ready (b'A' ∷ 0 ∷ 0 ∷ [])))
read_object_total_example = read_object_total readers readers-Consumes (ready (b'A' ∷ 0 ∷ 0 ∷ []))

-- A length of -1 makes `ReadArray` panic, and a short input sets the error.
negative_length : read_object readers 1 (ready (b'A' ∷ 255 ∷ 255 ∷ 255 ∷ 255 ∷ [])) ≡ panic
unfolding read_object read_byte dispatch from_le read_array read_int signed
negative_length = refl
