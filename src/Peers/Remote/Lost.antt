-- ===== src/Peers/Remote/Lost.antt =====
-- peers/peer.go: the answers that are never sent.
use silvernode_go.Common.{
  ℕ, ◌≡◌, refl, ap, ◌∙◌, inl, inr, Bool, Option, none, some, [], ◌∷◌, Bool-cases, pos, ret, ◌==◌,
  Bytes, nat_eq, bytes_eq,
}
use silvernode_go.Stl.GoMap.{GoMap}
use silvernode_go.Buffutil.Primitives.{ready}
use silvernode_go.Peers.Registry.{Entry, get_peer}
use silvernode_go.Buffutil.Buffer.{new_buffer, failed}
use silvernode_go.Peers.Exchange.{Exchange, marshal, write_header, IsSendable}
use silvernode_go.Peers.Serve.{got, Peer, deal_request}
use silvernode_go.Peers.Serve.Answers.{answers}
use silvernode_go.Peers.Remote.{
  Codec, Caller, transfer, fetch_args, send_answers, serve_by, remote_call,
}
use silvernode_go.Peers.Remote.Refines.{Brings, transfer_lem, chosen}

transfer_nil :
    (delivers : Bytes → Bool) (n : ℕ) (e : Exchange) → transfer delivers none (pos n) e ≡ ret none
unfolding transfer marshal new_buffer
transfer_nil delivers n e =
    elim (Bool-cases (failed (write_header e (record { content = []; err = none })))) [
      | inl h ↦ rw h refl
      | inr h ↦ rw h refl
    ]

module _ {V : Type 0} (codec : Codec V) (delivers : Bytes → Bool) where
  -- The codec cannot encode Go's nil, as gob cannot, but encodes and decodes the arguments. Then a
  -- request whose one answer has no reply, as every answer to a refused request, that the transport
  -- brings to the peer, leaves the asking peer as it is: the answer is not sent, the caller is notified
  -- of nothing and gets no reply.
  pub nil_answer_lost :
      (peers : GoMap Bytes (Entry (Peer V))) (pre_proc : Bytes → Bytes → Bytes → Option Bytes)
      (node : Bytes) (p : Peer V) (e : Exchange) (args : V) (bs : Bytes) (a : Exchange)
      (c : Caller V)
      → codec.encode none ≡ none
      → codec.encode (some args) ≡ some bs
      → codec.decode bs ≡ got args
      → get_peer e.to peers ≡ some p
      → e.ret_mark ≡ 0
      → IsSendable e
      → Brings delivers e
      → answers (deal_request p pre_proc node e (got args)) ≡ (a, none) ∷ []
      → remote_call codec delivers peers pre_proc node e args c ≡ ret c
  unfolding remote_call send_answers
  nil_answer_lost peers pre_proc node p e args bs a c nil enc dec here m s b one =
      rw (enc, transfer_lem delivers bs 1024 e s b)
        (chosen (e.ret_mark == 0) _ (ret c) (rw m refl)
          ∙ ap (λ o. serve_by codec delivers peers pre_proc node o c e (ready bs)) here
          ∙ (unfold fetch_args in rw (dec, one, nil, transfer_nil delivers 4096 a) refl))
