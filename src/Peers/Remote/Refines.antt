-- ===== src/Peers/Remote/Refines.antt =====
-- peers/peer.go: what a call of another node's peer comes to.
use silvernode_go.Common.{
  ℕ, ◌≡◌, refl, Bool, true, false, ◌&&◌, Option, none, some, List, [], ◌∷◌, ◌++◌, if◌then◌else◌, ℤ,
  pos, ret, ◌==◌, Bytes, nat_eq, bytes_eq,
}
use silvernode_go.Stl.GoMap.{GoMap, has}
use silvernode_go.Buffutil.Buffer.{Flushed}
use silvernode_go.Buffutil.Primitives.{ready}
use silvernode_go.Peers.Exchange.{Exchange, IsSendable, marshal, marshalled, unmarshal-marshal}
use silvernode_go.Peers.Calls.{int_eq, deal_answer}
use silvernode_go.Peers.Serve.{got, Peer, deal_request}
use silvernode_go.Peers.Serve.Answers.{answers}
use silvernode_go.Peers.Remote.{Codec, Caller, transfer}

-- Every value is encoded and comes back.
abbrev pub IsLossless : {V : Type 0} → Codec V → Type 0
IsLossless {V = V} codec =
    (v : V) → (bs : Bytes) × (codec.encode (some v) ≡ some bs) × (codec.decode bs ≡ got v)

-- The transport brings the message of these fields, whatever its arguments are.
abbrev pub Brings : (Bytes → Bool) → Exchange → Type 0
Brings delivers e =
    (n : ℕ) (body bs : Bytes)
    → marshal (some body) (pos n) e ≡ ret (marshalled (Flushed.ok bs))
    → delivers bs ≡ true

-- A message arrives as it was sent.
pub transfer_lem :
    (delivers : Bytes → Bool) (body : Bytes) (n : ℕ) (e : Exchange)
    → IsSendable e
    → Brings delivers e
    → transfer delivers (some body) (pos n) e ≡ ret (some (e, ready body))
unfolding transfer
transfer_lem delivers body n e s d =
    let (bs, m, u) = unmarshal-marshal e body n s in rw (m, d n body bs m, u) refl

-- The specification: the peer serves the request with the arguments as they are; the value of its answer,
-- if that reports no error, is the reply of the call, if that is pending, and the call is settled at
-- once.
module _ {V : Type 0} where
  abbrev pub written : Bool → ℤ → Option V → List (ℤ × V) → List (ℤ × V)
  written false seq reply replies = replies
  written true seq none replies = replies
  written true seq (some v) replies = replies ++ ((seq, v) ∷ [])

  abbrev pub settle_all : List (Exchange × Option V) → Caller V → Caller V
  settle_all [] c = c
  settle_all ((e, reply) ∷ rest) c = settle_all rest (record c {
    table = deal_answer e.seq e.err true true c.table;
    replies = written (has e.seq c.table.callbacks && e.err == []) e.seq reply c.replies;
  })

  unfoldable pub direct_call :
      Peer V → (Bytes → Bytes → Bytes → Option Bytes) → Bytes → Exchange → V → Caller V → Caller V
  direct_call p pre_proc node e args c =
      settle_all (answers (deal_request p pre_proc node e (got args))) c

pub chosen : {A : Type 0} (b : Bool) (x y : A) → b ≡ true → (if b then x else y) ≡ x
chosen b x y e = rw e refl

module _ {V : Type 0} (codec : Codec V) (delivers : Bytes → Bool) where
  -- An answer with a value, for the caller, that the transport brings
  abbrev IsFit : Bytes → Exchange × Option V → Type 0
  IsFit nick (e, reply) =
      IsSendable e
      × ((v : V) × (reply ≡ some v))
      × (e.ret_mark ≡ 1)
      × (e.to ≡ nick)
      × Brings delivers e
