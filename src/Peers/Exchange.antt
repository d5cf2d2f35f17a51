-- ===== src/Peers/Exchange.antt =====
-- peers/exchange.go: the header of a message and its round trip.
use silvernode_go.Common.{
  ℕ, ◌^◌, ◌≤◌, ◌≡◌, ap, ◌∙◌, Option, none, some, [], ◌∷◌, ◌++◌, if◌then◌else◌, ℤ, pos, Run, ret,
  ◌>>=◌, length, Bytes,
}
use mathlib.Core.List.{append_assoc}
use silvernode_go.Buffutil.Words.{le_bytes, pattern_of, Fits}
use silvernode_go.Buffutil.Buffer.{
  Buffer, new_buffer, write_string, write_long, write_byte, write_bytes, flush, Flushed, failed,
}
use silvernode_go.Buffutil.Parser.{
  Parser, new_parser, read_string, read_long, read_byte, max_string,
}
use silvernode_go.Buffutil.Parser
use silvernode_go.Buffutil.Primitives.{
  holding, ready, text_bytes, write_string-holding, read_string-ready, read_long-ready,
  read_byte-ready,
}

-- The fields that are sent; `to` and `func` are the peer and the method that are called.
pub record Exchange : Type 0 where
  pub from : Bytes
  pub to : Bytes
  pub func : Bytes
  pub seq : ℤ
  pub ret_mark : ℕ
  pub err : Bytes

pub data Marshalled : Type 0 where
  header_failed : Marshalled
  body_failed : Marshalled
  marshalled : Flushed → Marshalled

unfoldable pub write_header : Exchange → Buffer → Buffer
write_header e b = write_string e.err (
    write_byte e.ret_mark
      (write_long e.seq (write_string e.func (write_string e.to (write_string e.from b)))))

abbrev pub marshal_body : Option Bytes → Buffer → Marshalled
marshal_body none b = body_failed
marshal_body (some body) b = marshalled (flush (write_bytes body b))

-- `Marshal`; the parameter is what the codec of the node makes of the arguments, none for an error.
unfoldable pub marshal : Option Bytes → ℤ → Exchange → Run Marshalled
unfolding write_header
marshal body capacity e = new_buffer capacity >>= λ b.
    ret (if failed (write_header e b) then header_failed else marshal_body body (write_header e b))

-- The fields are read in order; each reading hands on the parser.
abbrev pub with_err : Bytes → Bytes → Bytes → ℤ → ℕ → Bytes × Parser → Exchange × Parser
with_err from to func seq mark (err, p) =
    (record { from = from; to = to; func = func; seq = seq; ret_mark = mark; err = err }, p)

abbrev pub with_mark : Bytes → Bytes → Bytes → ℤ → ℕ × Parser → Exchange × Parser
with_mark from to func seq (mark, p) = with_err from to func seq mark (read_string p)

abbrev pub with_seq : Bytes → Bytes → Bytes → ℤ × Parser → Exchange × Parser
with_seq from to func (seq, p) = with_mark from to func seq (read_byte p)

abbrev pub with_func : Bytes → Bytes → Bytes × Parser → Exchange × Parser
with_func from to (func, p) = with_seq from to func (read_long p)

abbrev pub with_to : Bytes → Bytes × Parser → Exchange × Parser
with_to from (to, p) = with_func from to (read_string p)

abbrev pub with_from : Bytes × Parser → Exchange × Parser
with_from (from, p) = with_to from (read_string p)

abbrev pub answered : Exchange × Parser → Option (Exchange × Parser)
answered (e, p) = if Parser.failed p then none else some (e, p)

-- `Unmarshal`: none for an error; otherwise the fields, and the parser that is kept for the body.
unfoldable pub unmarshal : Bytes → Run (Option (Exchange × Parser))
unmarshal bytes = new_parser bytes (pos 0) >>= λ p. ret (answered (with_from (read_string p)))

abbrev pub IsSendable : Exchange → Type 0
IsSendable e =
    (length e.from ≤ max_string)
    × (length e.to ≤ max_string)
    × (length e.func ≤ max_string)
    × (length e.err ≤ max_string)
    × Fits (2 ^ 63) e.seq

abbrev long_bytes : ℤ → Bytes
long_bytes z = le_bytes 8 (pattern_of (2 ^ 64) z)

-- The bytes of a header, written so that each field stands before the rest.
abbrev header_then : Exchange → Bytes → Bytes
header_then e rest =
    text_bytes e.from
    ++ (text_bytes e.to
        ++ (text_bytes e.func ++ (long_bytes e.seq ++ (e.ret_mark ∷ (text_bytes e.err ++ rest)))))

-- The bytes of a header in the order of writing.
abbrev header : Exchange → Bytes
header e =
    ((((text_bytes e.from ++ text_bytes e.to) ++ text_bytes e.func) ++ long_bytes e.seq)
      ++ (e.ret_mark ∷ []))
    ++ text_bytes e.err

write_header-holding : (e : Exchange) → write_header e (holding []) ≡ holding (header e)
unfolding write_header write_long write_byte
write_header-holding e =
    rw
      (
        write_string-holding e.from [],
        write_string-holding e.to (text_bytes e.from),
        write_string-holding e.func (text_bytes e.from ++ text_bytes e.to),
      )
      (write_string-holding e.err _)

flatten :
    (a b c d f : Bytes) (m : ℕ)
    → ((((a ++ b) ++ c) ++ d) ++ (m ∷ [])) ++ f ≡ a ++ (b ++ (c ++ (d ++ (m ∷ f))))
flatten a b c d f m =
    rw
      (
        append_assoc (((a ++ b) ++ c) ++ d) (m ∷ []) f,
        append_assoc ((a ++ b) ++ c) d (m ∷ f),
        append_assoc (a ++ b) c (d ++ (m ∷ f)),
      )
      (append_assoc a b (c ++ (d ++ (m ∷ f))))

header_lem : (e : Exchange) (rest : Bytes) → header e ++ rest ≡ header_then e rest
header_lem e rest =
    append_assoc _ (text_bytes e.err) rest
    ∙ flatten (text_bytes e.from) (text_bytes e.to) (text_bytes e.func) (long_bytes e.seq)
        (text_bytes e.err ++ rest) e.ret_mark

-- `Marshal` with a capacity that is not negative panics on nothing: it writes the header and then
-- what the codec made of the arguments, or answers that the codec failed.
marshal_lem :
    (e : Exchange) (body : Bytes) (n : ℕ)
    → marshal (some body) (pos n) e ≡ ret (marshalled (Flushed.ok (header_then e body)))
unfolding marshal new_buffer write_bytes flush
marshal_lem e body n =
    rw (write_header-holding e)
      (ap (λ (bs : Bytes). ret (marshalled (Flushed.ok bs))) (header_lem e body))

unmarshal-header :
    (e : Exchange) (rest : Bytes)
    → IsSendable e
    → unmarshal (header_then e rest) ≡ ret (some (e, ready rest))
unfolding unmarshal new_parser
unmarshal-header e rest s =
    ap (λ (r : Exchange × Parser). ret (answered r))
      (ap with_from (read_string-ready e.from _ s.0)
        ∙ (ap (with_to e.from) (read_string-ready e.to _ s.1)
            ∙ (ap (with_func e.from e.to) (read_string-ready e.func _ s.2)
                ∙ (ap (with_seq e.from e.to e.func) (read_long-ready e.seq _ s.4)
                    ∙ (ap (with_mark e.from e.to e.func e.seq) (read_byte-ready e.ret_mark _)
                        ∙ ap (with_err e.from e.to e.func e.seq e.ret_mark)
                            (read_string-ready e.err rest s.3))))))

-- A message whose strings have at most 10240 bytes each and whose arguments the codec encodes:
-- `Marshal` gives bytes without an error, and `Unmarshal` of them answers the message's fields and a
-- parser, without an error, at exactly the bytes of the arguments.
pub unmarshal-marshal :
    (e : Exchange) (body : Bytes) (n : ℕ)
    → IsSendable e
    → (bs : Bytes) × (marshal (some body) (pos n) e ≡ ret (marshalled (Flushed.ok bs)))
      × (unmarshal bs ≡ ret (some (e, ready body)))
unmarshal-marshal e body n s = (header_then e body, marshal_lem e body n, unmarshal-header e body s)
