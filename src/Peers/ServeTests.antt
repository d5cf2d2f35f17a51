-- ===== src/Peers/ServeTests.antt =====
-- peers: requests, answers and the table of peers at concrete inputs.
use silvernode_go.Common.{
  ℕ, suc, ◌≡◌, refl, ◌⊎◌, Bool, true, false, Option, none, some, [], ◌∷◌, ◌++◌, arith,
  if◌then◌else◌, pos, ret, ◌==◌, Bytes, nat_eq, bytes_eq,
}
use silvernode_go.Strings.{split, has_prefix}
use silvernode_go.Node.{is_guest}
use silvernode_go.Stl.GoMap.{GoMap, lookup, insert}
use silvernode_go.Buffutil.Primitives.{ready}
use silvernode_go.Peers.Exchange.{Exchange, unmarshal}
use silvernode_go.Peers.Calls.{int_eq, Table, build_call, check_time_out}
use silvernode_go.Peers.Calls.Once.{times}
use silvernode_go.Peers.Serve.{
  Fetched, got, Peer, answer_to, deal_request, response, no_method, without_method,
}
use silvernode_go.Peers.Serve.Answers.{answers, calls, IsAnswered, deal_request-IsAnswered}
use silvernode_go.Peers.Serve.Guards.{IsAllowed, deal_request-IsAllowed}
use silvernode_go.Peers.Remote.{Codec, Caller, remote_call}
use silvernode_go.Peers.Remote.Refines.{direct_call}
use silvernode_go.Peers.Remote.Lost.{nil_answer_lost}
use silvernode_go.Peers.Request.{malformed, exchanged, after_send, with_parts, request, call}
use silvernode_go.Peers.Request.Twice.{request_of, request_lem, malformed_call_twice}
use silvernode_go.Peers.Registry.{Entry, register_with_nick, dispose, get_peer}

-- "Hi"
abbrev hi : Bytes
hi = b'H' ∷ b'i' ∷ []

-- A peer with one method, which answers the number after its argument.
abbrev counter : Peer ℕ
counter = record {
  nick = b'b' ∷ [];
  inner = true;
  methods = (hi, λ (n : ℕ). ret (suc n, none)) ∷ [];
  meta = none;
}

-- A number is one byte.
abbrev decode_byte : Bytes → Fetched ℕ
decode_byte [] = got 0
decode_byte (b ∷ bs) = got b

-- Nil cannot be encoded.
abbrev encode_value : Option ℕ → Option Bytes
encode_value none = none
encode_value (some n) = some (n ∷ [])

abbrev gob_codec : Codec ℕ
gob_codec = record { encode = encode_value; decode = decode_byte }

abbrev allowed : Bytes → Bytes → Bytes → Option Bytes
allowed node to func = none

-- The node "n".
abbrev node_n : Bytes
node_n = b'n' ∷ []

abbrev asking : Exchange
asking = request_of (b'a' ∷ []) (b'b' ∷ []) hi (pos 5)

-- It asks for a method that there is not.
abbrev asking_in_vain : Exchange
asking_in_vain = request_of (b'a' ∷ []) (b'b' ∷ []) (b'H' ∷ []) (pos 5)

abbrev one_call : Table
one_call = build_call (pos 5) [] 0 100 10 (record { callbacks = []; notified = [] })

deal_request-IsAnswered_example :
    IsAnswered counter asking (got 3) (deal_request counter allowed node_n asking (got 3))
deal_request-IsAnswered_example = deal_request-IsAnswered counter allowed node_n asking (got 3)

deal_request-IsAllowed_example :
    (calls (deal_request counter allowed node_n asking (got 3)) ≡ [])
    ⊎ ((args : ℕ) × IsAllowed counter allowed node_n asking (got 3) args
        × (calls (deal_request counter allowed node_n asking (got 3)) ≡ (hi, args) ∷ []))
deal_request-IsAllowed_example = deal_request-IsAllowed counter allowed node_n asking (got 3)

abbrev brings_all : Bytes → Bool
brings_all bs = true

-- The node's peers and the peer that asks
abbrev one_peer : GoMap Bytes (Entry (Peer ℕ))
one_peer = (b'b' ∷ [], record { peer = counter; disposing = false }) ∷ []

abbrev caller : Caller ℕ
caller = record { nick = b'a' ∷ []; table = one_call; replies = [] }

finds_counter : get_peer (b'b' ∷ []) one_peer ≡ some counter
unfolding get_peer lookup
finds_counter = refl

-- The caller gets the reply 4.
gets_four : (direct_call counter allowed node_n asking 3 caller).replies ≡ (pos 5, 4) ∷ []
unfolding direct_call deal_request response lookup is_guest has_prefix without_method build_call
    insert
gets_four = refl

answered_in_vain :
    answers (deal_request counter allowed node_n asking_in_vain (got 3))
    ≡ (answer_to asking_in_vain (some (no_method ++ (b'H' ∷ []))), none) ∷ []
unfolding deal_request response lookup is_guest has_prefix without_method
answered_in_vain = refl

nil_answer_lost_example :
    remote_call gob_codec brings_all one_peer allowed node_n asking_in_vain 3 caller ≡ ret caller
nil_answer_lost_example =
    nil_answer_lost gob_codec brings_all one_peer allowed node_n counter asking_in_vain 3 (3 ∷ [])
      (answer_to asking_in_vain (some (no_method ++ (b'H' ∷ [])))) caller refl refl refl
      finds_counter refl (omega arith) (λ n body bs e. refl) answered_in_vain

abbrev never_fails : Bytes → Bytes → Option Bytes
never_fails node bs = none

request_lem_example :
    (bs : Bytes) × ((request
        (b's' ∷ [])
        never_fails
        (some (3 ∷ []))
        (b'a' ∷ [])
        node_n
        ((b'b' ∷ []) ++ 46 ∷ hi)
        (some 0)
        (pos 5)
        100
        10
        one_call).0
      ≡ ret (
          if node_n == (b's' ∷ [])
          then exchanged (request_of (b'a' ∷ []) (b'b' ∷ []) hi (pos 5))
          else after_send bs none))
    × (unmarshal bs ≡ ret (some (request_of (b'a' ∷ []) (b'b' ∷ []) hi (pos 5), ready (3 ∷ []))))
request_lem_example =
    request_lem (b's' ∷ []) never_fails (3 ∷ []) (b'a' ∷ []) node_n (b'b' ∷ []) hi (some 0) (pos 5)
      100 10 one_call (ground arith) (ground arith) (omega arith)

no_dot :
    with_parts (b's' ∷ []) never_fails none (b'a' ∷ []) node_n (pos 5) (split 46 hi) ≡ ret malformed
unfolding split
no_dot = refl

abbrev empty_table : Table
empty_table = record { callbacks = []; notified = [] }

malformed_call_twice_example :
    (t' : Table) × (call
        (b's' ∷ [])
        never_fails
        none
        (b'a' ∷ [])
        node_n
        hi
        0
        (pos 5)
        100
        10
        empty_table
      ≡ ret t')
    × (times (pos 5) t'.notified ≡ 1)
    × (times (pos 5) (check_time_out 105 t').notified ≡ 2)
malformed_call_twice_example =
    malformed_call_twice (b's' ∷ []) never_fails none (b'a' ∷ []) node_n hi 0 (pos 5) 100 105 10
      empty_table no_dot tt refl (omega arith)

-- The peer 7 under "b", and then disposed of, and the peer 8 registered under another name.
abbrev two_peers : GoMap Bytes (Entry ℕ)
two_peers = (b'b' ∷ [], record { peer = 7; disposing = false }) ∷ []

abbrev was_disposed : GoMap Bytes (Entry ℕ)
was_disposed = (dispose (b'b' ∷ []) true two_peers).1

abbrev and_after : GoMap Bytes (Entry ℕ)
and_after = (register_with_nick true hi [] 8 was_disposed).1

abbrev never_runs : ℕ → Option Bool
never_runs p = none
