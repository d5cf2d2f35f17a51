-- ===== src/Peers/Request/Twice.antt =====
-- peers/peer.go: a call that fails before it is sent, and requests that are sent.
use silvernode_go.Common.{
  ℕ, ◌+◌, ◌<◌, ◌≡◌, refl, ap, ◌∙◌, true, Option, some, [], ◌∷◌, ◌++◌, arith, if◌then◌else◌, lt→ltb,
  ℤ, ret, ◌==◌, Bytes, ==_refl, nat_eq, bytes_eq,
}
use silvernode_go.Strings.{split, Free, split-Free, split-append}
use silvernode_go.Buffutil.Primitives.{ready}
use silvernode_go.Stl.GoMap.{Distinct, lookup-insert, insert-Distinct}
use silvernode_go.Peers.Exchange.{Exchange, unmarshal, IsSendable, unmarshal-marshal}
use silvernode_go.Peers.Calls.{int_eq, not_requested, Table, build_call, get_call, check_time_out}
use silvernode_go.Peers.Calls.Once.{times, times-append, is_dirty, check_time_out_lem}
use silvernode_go.Peers.Request.{
  malformed, exchanged, seq_of, after_send, hand_over, with_parts, request, report, call,
}

-- The request that is made for a peer, a function and a number.
abbrev pub request_of : Bytes → Bytes → Bytes → ℤ → Exchange
request_of nick to func seq = record {
  from = nick;
  to = to;
  func = func;
  seq = seq;
  ret_mark = 0;
  err = [];
}

-- "peer.func" has the two parts, if neither has a dot.
split_method :
    (to func : Bytes) → Free 46 to → Free 46 func → split 46 (to ++ 46 ∷ func) ≡ to ∷ (func ∷ [])
split_method to func f g =
    split-append 46 to func f ∙ ap (λ parts. to ∷ parts) (split-Free 46 func g)

module _ (self : Bytes) (send : Bytes → Bytes → Option Bytes) where
  -- A request named "peer.func", neither with a dot, whose strings have at most 10240 bytes each and
  -- whose arguments the codec encodes: for this node it is handed to the peer as it is; for another
  -- node one message is sent, from which `Unmarshal` there reads the same request with the arguments'
  -- bytes left, and only an error of the sending is an error of the request.
  pub request_lem :
      (body nick node to func : Bytes) (reply : Option ℕ) (seq : ℤ) (now timeout : ℕ) (t : Table)
      → Free 46 to
      → Free 46 func
      → IsSendable (request_of nick to func (seq_of reply seq))
      → (bs : Bytes) × ((request self send
            (some body)
            nick
            node
            (to ++ 46 ∷ func)
            reply
            seq
            now
            timeout
            t).0
          ≡ ret (
              if node == self
              then exchanged (request_of nick to func (seq_of reply seq))
              else after_send bs (send node bs)))
        × (unmarshal bs ≡ ret (some (request_of nick to func (seq_of reply seq), ready body)))
  unfolding request hand_over
  request_lem body nick node to func reply seq now timeout t f g s =
      let (bs, m, u) = unmarshal-marshal (request_of nick to func (seq_of reply seq)) body 1024 s in
      (bs, rw (split_method to func f g, m) (ground arith), u)

  -- A method's name of another form: the call is built all the same, the caller is told the error at
  -- once and the call stays in the table; the check for expired calls, at a time before the call's
  -- expiry, tells the caller once more.
  pub malformed_call_twice :
      (body : Option Bytes) (nick node method : Bytes) (reply : ℕ) (seq : ℤ) (now later timeout : ℕ)
      (t : Table)
      → with_parts self send body nick node seq (split 46 method) ≡ ret malformed
      → Distinct t.callbacks
      → times seq t.notified ≡ 0
      → later < now + timeout
      → (t' : Table) × (call self send body nick node method reply seq now timeout t ≡ ret t')
        × (times seq t'.notified ≡ 1)
        × (times seq (check_time_out later t').notified ≡ 2)
  unfolding call request
  malformed_call_twice body nick node method reply seq now later timeout t bad d fresh before = (
    told,
    rw bad refl,
    one,
    (check_time_out_lem later told seq distinct).1 ∙ rw (one, dirty) refl,
  )
    where
      told : Table
      told = report seq true (build_call seq method reply now timeout t)

      one : times seq told.notified ≡ 1
      one =
          unfold build_call in
          rw (times-append seq t.notified ((seq, not_requested) ∷ []), fresh, ==_refl seq) refl

      distinct : Distinct told.callbacks
      distinct =
          unfold build_call in
          insert-Distinct seq (record { method = method; reply = reply; time_out = now + timeout })
            t.callbacks d

      dirty : is_dirty later (get_call seq told) ≡ true
      dirty =
          unfold build_call get_call in
          rw
            (
              lookup-insert seq seq
                  (record { method = method; reply = reply; time_out = now + timeout }) t.callbacks,
              ==_refl seq,
            )
            (lt→ltb later (now + timeout) before)
