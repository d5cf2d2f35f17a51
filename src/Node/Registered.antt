-- ===== src/Node/Registered.antt =====
-- silvernode.go: onCheckNode as the listener's check of the workers, and who is registered with it.
use silvernode_go.Common.{
  ℕ, ◌≡◌, refl, ◌≢◌, ◌⊎◌, inl, inr, Bool, true, false, Option, none, some, [], Bool-cases,
  Option-cases, Bytes, Attempt,
}
use silvernode_go.Nets.Connect.{ConnectInfo, ConnectManager}
use silvernode_go.Nets.Connect.View.{find, find-made}
use silvernode_go.Nets.Origin.{OriginInfo, missing, illegal, origin_info, parse_origin_info}
use silvernode_go.Nets.Session.{World}
use silvernode_go.Nets.Handshake.{HandError, local_url}
use silvernode_go.Nets.Handshake.Admitted.{IsQuiet}
use silvernode_go.Nets.Handshake.Reached.{Reachable, sessions-AllAdmitted}
use silvernode_go.Node.{
  Verdict, refused, admitted, as_guest, after_sig, after_origin, on_check_node,
}
use silvernode_go.Node.Admission.{Unknown, on_check_node-Verified}

-- The answer that a worker gets.
abbrev pub answer_of : Verdict × ConnectManager → Option Bytes × ConnectManager
answer_of (refused, m) = (none, m)
answer_of (admitted node_id, m) = (some node_id, m)

-- Whether the node is public; the registry's check of a signature and the next number of snowflake at
-- each call; the URL package's search for the host.
module _ (is_pub : Bool) (check_node_sig : ℕ → Bytes → Bytes → Option Bool)
    (parse_host : Bytes → Option Bytes) (generated : ℕ → Bytes) where
  abbrev pub check_at : ℕ → Bytes → ConnectManager → Option Bytes × ConnectManager
  check_at k origin m =
      answer_of (on_check_node is_pub (check_node_sig k) parse_host (generated k) origin m)

  abbrev SameAs : ConnectManager → Verdict × ConnectManager → Type 0
  SameAs m v = (j : Bytes) → find j (answer_of v).1 ≡ find j m

  guest-SameAs :
      (k : ℕ) (i : Bytes) (m : ConnectManager)
      → SameAs m (as_guest is_pub (check_node_sig k) parse_host (generated k) i m)
  guest-SameAs k i m j = elim (Bool-cases is_pub) [ inl h ↦ rw h refl | inr h ↦ rw h refl ]

  sig-SameAs :
      (k : ℕ) (i : Bytes) (s : Option Bool) (m : ConnectManager)
      → SameAs m (after_sig is_pub (check_node_sig k) parse_host (generated k) i s m)
  sig-SameAs k i none m j = refl
  sig-SameAs k i (some false) m j = guest-SameAs k i m j
  sig-SameAs k i (some true) m j = elim (Option-cases (find i m)) [
    | inl h ↦ rw h (find-made j i m)
    | inr (info, h) ↦ rw h (find-made j i m)
  ]

  check_at-IsQuiet : IsQuiet check_at
  unfolding on_check_node
  check_at-IsQuiet k origin j m = parsed (parse_origin_info parse_host origin)
    where
      parsed :
          (o : OriginInfo)
          → find j
              (answer_of (after_origin is_pub (check_node_sig k) parse_host (generated k) o m)).1
            ≡ find j m
      parsed missing = guest-SameAs k [] m j
      parsed illegal = guest-SameAs k [] m j
      parsed (origin_info i host sig) = sig-SameAs k i (check_node_sig k i sig) m j

  admitted_of :
      (v : Verdict × ConnectManager) (i : Bytes) (n : ConnectManager)
      → answer_of v ≡ (some i, n)
      → v ≡ (admitted i, n)
  admitted_of (refused, m) i n e = absurd (no_answer e)
    where
      no_answer : ◌≢◌ {A = Option Bytes × ConnectManager} (none, m) (some i, n)
      no_answer e = cc
  admitted_of (admitted l, m) i n e = cc

  -- Whatever happens on the three transports, with OnCheckNode as the check of every node that connects
  -- from outside: such a node is registered under a guest's name, under the empty name, or under a name
  -- that the registry confirmed, at some call, with a signature.
  pub accepted_nodes :
      (parse : Bytes → Attempt (Option Bytes)) (text : HandError → Bytes) (w : World)
      (node_id : Bytes) (info : ConnectInfo)
      → Reachable check_at parse text w
      → find node_id w.manager ≡ some info
      → info.url ≡ local_url
      → Unknown node_id ⊎ ((k : ℕ) × (sig : Bytes) × (check_node_sig k node_id sig ≡ some true))
  accepted_nodes parse text w node_id info r here url =
      let (k, origin, m, n, e) =
        sessions-AllAdmitted check_at parse text check_at-IsQuiet w r node_id info here url in
      elim (on_check_node-Verified is_pub (check_node_sig k) parse_host (generated k) origin node_id
        m n (admitted_of _ node_id n e)) [
          | inl u ↦ inl u
          | inr (host, sig, parsed, confirmed, free) ↦ inr (k, sig, confirmed)
        ]
