-- ===== src/Peers/Remote.antt =====
-- peers/peer.go, peers/exchange.go: a request that goes to another node and its answer that comes back.
use silvernode_go.Common.{
  Bool, true, false, not, ◌&&◌, Option, none, some, List, [], ◌∷◌, ◌++◌, if◌then◌else◌, ℤ, pos, Run,
  ret, ◌>>=◌, ◌==◌, Bytes, nat_eq, bytes_eq,
}
use silvernode_go.Stl.GoMap.{GoMap, lookup, has}
use silvernode_go.Buffutil.Buffer.{Flushed}
use silvernode_go.Buffutil.Parser.{Parser}
use silvernode_go.Peers.Exchange.{
  Exchange, Marshalled, header_failed, body_failed, marshalled, marshal, unmarshal,
}
use silvernode_go.Peers.Calls.{int_eq, Table, deal_answer}
use silvernode_go.Peers.Serve.{Fetched, got, bad, Peer, Deed, deal_request}
use silvernode_go.Peers.Registry.{Entry, get_peer}
use silvernode_go.Peers.Serve.Answers.{answers}
pub mod Refines
pub mod Lost

-- The codec of a node, at a value or at Go's nil, and its decoding into a value or an error.
pub record Codec (V : Type 0) : Type 0 where
  pub encode : Option V → Option Bytes
  pub decode : Bytes → Fetched V

-- "交互数据体反序列化出错:"
abbrev pub body_not_decoded : Bytes
body_not_decoded =
    228 ∷ 186 ∷ 164 ∷ 228 ∷ 186 ∷ 146 ∷ 230 ∷ 149 ∷ 176 ∷ 230 ∷ 141 ∷ 174 ∷ 228 ∷ 189 ∷ 147 ∷ 229
    ∷ 143 ∷ 141 ∷ 229 ∷ 186 ∷ 143 ∷ 229 ∷ 136 ∷ 151 ∷ 229 ∷ 140 ∷ 150 ∷ 229 ∷ 135 ∷ 186 ∷ 233 ∷ 148
    ∷ 153 ∷ 58 ∷ []

-- What arrives at a node in one message: the fields and the rest of the bytes, or nothing that counts.
abbrev pub Arrived : Type 0
Arrived = Run (Option (Exchange × Parser))

-- The peer that asks: its nickname, its table of calls, and the values that were written into the replies
-- of its calls, with their numbers.
pub record Caller (V : Type 0) : Type 0 where
  pub nick : Bytes
  pub table : Table
  pub replies : List (ℤ × V)

-- Whether the transport brings the message of these bytes.
module _ (delivers : Bytes → Bool) where
  abbrev pub deliver : Marshalled → Arrived
  deliver header_failed = ret none
  deliver body_failed = ret none
  deliver (marshalled (Flushed.err e)) = ret none
  deliver (marshalled (Flushed.ok bs)) = if delivers bs then unmarshal bs else ret none

  -- `Marshal` at one node, `Unmarshal` at the other.
  unfoldable pub transfer : Option Bytes → ℤ → Exchange → Arrived
  unfolding marshal unmarshal
  transfer body capacity e = marshal body capacity e >>= deliver

module _ {V : Type 0} (codec : Codec V) where
  abbrev pub extended : Fetched V → Fetched V
  extended (got v) = got v
  extended (bad err) = bad (body_not_decoded ++ err)

  -- `FetchArgs`: what is left of the message is decoded.
  unfoldable pub fetch_args : Parser → Fetched V
  fetch_args p = extended (codec.decode p.content)

  abbrev pub is_got : Fetched V → Bool
  is_got (got v) = true
  is_got (bad err) = false

  -- The value is written into the reply of a call that is pending.
  abbrev pub filled : Bool → ℤ → Fetched V → List (ℤ × V) → List (ℤ × V)
  filled false seq fetched replies = replies
  filled true seq (got v) replies = replies ++ ((seq, v) ∷ [])
  filled true seq (bad err) replies = replies

  -- An answer for the caller; one that reports an error is not decoded.
  abbrev pub take : Caller V → Exchange → Parser → Caller V
  take c e p = record c {
    table = deal_answer e.seq e.err false (is_got (fetch_args p)) c.table;
    replies = filled (has e.seq c.table.callbacks && e.err == []) e.seq (fetch_args p) c.replies;
  }

  -- What arrives at the node that asked: an answer to the caller, or something else
  abbrev pub settle : Caller V → Option (Exchange × Parser) → Caller V
  settle c none = c
  settle c (some (e, p)) =
      let taken = take c e p in if not (e.ret_mark == 0) && e.to == c.nick then taken else c

module _ {V : Type 0} (codec : Codec V) (delivers : Bytes → Bool) where
  -- The peer's answers are marshalled and sent in turn.
  unfoldable pub send_answers : List (Exchange × Option V) → Caller V → Run (Caller V)
  send_answers [] c = ret c
  send_answers ((e, reply) ∷ rest) c = transfer delivers (codec.encode reply) (pos 4096) e >>= λ a.
      send_answers rest (settle codec c a)

  module _ (peers : GoMap Bytes (Entry (Peer V))) (pre_proc : Bytes → Bytes → Bytes → Option Bytes)
      (node : Bytes) where
    abbrev pub serve_by : Option (Peer V) → Caller V → Exchange → Parser → Run (Caller V)
    serve_by none c e parser = ret c
    serve_by (some p) c e parser =
        send_answers (answers (deal_request p pre_proc node e (fetch_args codec parser))) c

    -- What arrives at the node of the peers: a request, for the peer that it names if that is there,
    -- or an answer for one of them, which is no matter of the caller.
    abbrev pub serve : Caller V → Option (Exchange × Parser) → Run (Caller V)
    serve c none = ret c
    serve c (some (e, parser)) =
        let served = serve_by (get_peer e.to peers) c e parser in
        if e.ret_mark == 0 then served else ret c

    -- A request of `node` to a peer of another node, and what it makes of the peer that asks.
    unfoldable pub remote_call : Exchange → V → Caller V → Run (Caller V)
    unfolding transfer
    remote_call e args c = transfer delivers (codec.encode (some args)) (pos 1024) e >>= serve c
