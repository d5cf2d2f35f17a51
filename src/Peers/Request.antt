-- ===== src/Peers/Request.antt =====
-- peers/peer.go, peers/codecs.go: how a request is made. What silvernode.Send answers (an error, or
-- none), what the codec makes of the arguments and the next sequence number are arguments.
use silvernode_go.Common.{
  ℕ, Bool, true, false, Option, none, some, List, [], ◌∷◌, ◌++◌, if◌then◌else◌, ℤ, pos, Run, ret,
  panic, stuck, ◌>>=◌, ◌==◌, Bytes, nat_eq, bytes_eq,
}
use silvernode_go.Strings.{split}
use silvernode_go.Buffutil.Buffer.{Flushed}
use silvernode_go.Node.{is_guest}
use silvernode_go.Peers.Exchange.{
  Exchange, Marshalled, header_failed, body_failed, marshalled, marshal,
}
use silvernode_go.Peers.Calls.{Outcome, not_requested, Table, build_call}
pub mod Twice

-- `getCodec`: the codec for a node, none where there is none and gob is used.
unfoldable pub get_codec {ℓ} : {C : Type ℓ} → Option C → Option C → Bytes → Option C
get_codec outer inner node = if is_guest node then outer else inner

-- A request goes to a peer of this node, or as bytes to another node, or ends with an error.
pub data Requested : Type 0 where
  malformed : Requested
  not_marshalled : Requested
  not_sent : Bytes → Requested
  exchanged : Exchange → Requested
  sent : Bytes → Requested

-- The call is built where a reply is wanted; its number is 0 otherwise.
abbrev pub built : Option ℕ → ℤ → Bytes → ℕ → ℕ → Table → Table
built none seq method now timeout t = t
built (some reply) seq method now timeout t = build_call seq method reply now timeout t

abbrev pub seq_of : Option ℕ → ℤ → ℤ
seq_of none seq = pos 0
seq_of (some reply) seq = seq

abbrev pub after_send : Bytes → Option Bytes → Requested
after_send data_sent none = sent data_sent
after_send data_sent (some err) = not_sent err

module _ (self : Bytes) (send : Bytes → Bytes → Option Bytes) (body : Option Bytes) where
  abbrev pub send_marshalled : Bytes → Marshalled → Requested
  send_marshalled node header_failed = not_marshalled
  send_marshalled node body_failed = not_marshalled
  send_marshalled node (marshalled (Flushed.err e)) = not_marshalled
  send_marshalled node (marshalled (Flushed.ok bs)) = after_send bs (send node bs)

  -- The exchange is made for this node or for another.
  unfoldable pub hand_over : Bytes → Exchange → Run Requested
  unfolding marshal
  hand_over node e =
      if node == self
      then ret (exchanged e)
      else marshal body (pos 1024) e >>= λ m. ret (send_marshalled node m)

  -- The parts of the method's name: the peer and its function.
  abbrev pub with_parts : Bytes → Bytes → ℤ → List Bytes → Run Requested
  with_parts nick node seq [] = ret malformed
  with_parts nick node seq (to ∷ []) = ret malformed
  with_parts nick node seq (to ∷ (func ∷ [])) =
      hand_over node
        (record { from = nick; to = to; func = func; seq = seq; ret_mark = 0; err = [] })
  with_parts nick node seq (to ∷ (func ∷ (more ∷ rest))) = ret malformed

  -- `request` of the peer `nick`, with the table it leaves.
  unfoldable pub request :
      Bytes → Bytes → Bytes → Option ℕ → ℤ → ℕ → ℕ → Table → Run Requested × Table
  unfolding hand_over
  request nick node method reply seq now timeout t = (
    with_parts nick node (seq_of reply seq) (split 46 method),
    built reply seq method now timeout t,
  )

-- Whether a request ends with an error.
abbrev pub is_error : Requested → Bool
is_error malformed = true
is_error not_marshalled = true
is_error (not_sent err) = true
is_error (exchanged e) = false
is_error (sent bs) = false

-- `Call` hands an error of the request to the caller itself.
abbrev pub report : ℤ → Bool → Table → Table
report seq false t = t
report seq true t = record t { notified = t.notified ++ ((seq, not_requested) ∷ []) }

abbrev pub after_request : ℤ → Run Requested × Table → Run Table
after_request seq (ret r, t) = ret (report seq (is_error r) t)
after_request seq (panic, t) = panic
after_request seq (stuck, t) = stuck

unfoldable pub call :
    Bytes
    → (Bytes → Bytes → Option Bytes)
    → Option Bytes
    → Bytes
    → Bytes
    → Bytes
    → ℕ
    → ℤ
    → ℕ
    → ℕ
    → Table
    → Run Table
unfolding request
call self send body nick node method reply seq now timeout t =
    after_request seq (request self send body nick node method (some reply) seq now timeout t)

-- `SendEvent`: no reply, so no call.
unfoldable pub send_event :
    Bytes
    → (Bytes → Bytes → Option Bytes)
    → Option Bytes
    → Bytes
    → Bytes
    → Bytes
    → ℤ
    → ℕ
    → ℕ
    → Table
    → Run Requested × Table
unfolding request
send_event self send body nick node method seq now timeout t =
    request self send body nick node method none seq now timeout t

-- `Invoke` ends with the error of its request or waits on the channel of its call.
pub data Invoked : Type 0 where
  not_invoked : Requested → Invoked
  waits_for : ℤ → Invoked

-- Without a reply there is no call, and reading `call.Chan` of a nil pointer panics.
abbrev pub wait_for : Option ℕ → ℤ → Run Invoked
wait_for none seq = panic
wait_for (some reply) seq = ret (waits_for seq)

abbrev pub unless_error : Option ℕ → ℤ → Requested → Run Invoked
unless_error reply seq r = if is_error r then ret (not_invoked r) else wait_for reply seq

abbrev pub after_wait : Option ℕ → ℤ → Run Requested × Table → Run Invoked × Table
after_wait reply seq (r, t) = (r >>= unless_error reply seq, t)

unfoldable pub invoke :
    Bytes
    → (Bytes → Bytes → Option Bytes)
    → Option Bytes
    → Bytes
    → Bytes
    → Bytes
    → Option ℕ
    → ℤ
    → ℕ
    → ℕ
    → Table
    → Run Invoked × Table
unfolding request
invoke self send body nick node method reply seq now timeout t =
    after_wait reply seq (request self send body nick node method reply seq now timeout t)

-- `Do` invokes a method of the program's own node.
unfoldable pub do_local :
    Bytes
    → (Bytes → Bytes → Option Bytes)
    → Option Bytes
    → Bytes
    → Bytes
    → Option ℕ
    → ℤ
    → ℕ
    → ℕ
    → Table
    → Run Invoked × Table
unfolding invoke
do_local self send body nick method reply seq now timeout t =
    invoke self send body nick self method reply seq now timeout t
