-- ===== src/Nets/Handshake/Handling.antt =====
-- nets: what a message or a websocket that asks to be let in does to the nodes.
use silvernode_go.Common.{
  ℕ, ◌≡◌, refl, inl, inr, Option, none, some, [], ◌∷◌, Bool-cases, ret, ◌==◌, Bytes, nat_eq,
  bytes_eq, Attempt, went, broke,
}
use mathlib.Core.Path.{subst}
use silvernode_go.Nets.Connect.{ConnectManager, get_node_id_by_conn}
use silvernode_go.Nets.Session.{SessionError, other, World}
use silvernode_go.Nets.Address.{Transport, ws}
use silvernode_go.Nets.Handshake.{
  HandError, after_check_node, after_parse, deal_hand_shake, accepted, settle_hand_shake,
  with_owner, on_packet, after_remote, h_web_socket, ws_owner, ws_received, ws_ping,
}
use silvernode_go.Nets.Handshake.Fewer.{loud_failed-Fewer, failed_on-Fewer, received-Fewer}
use silvernode_go.Nets.Handshake.Admitted.{
  AllAdmitted, OnRet, OnRet-bind, Kept, accepted-AllAdmitted, Fewer-AllAdmitted, same-AllAdmitted,
  IsQuiet,
}

module _ (check : ℕ → Bytes → ConnectManager → Option Bytes × ConnectManager)
    (parse : Bytes → Attempt (Option Bytes)) (text : HandError → Bytes) where
  after_check_node-Kept :
      (k : ℕ) (t : Transport) (conn worker net_worker : ℕ) (written : Option Bytes) (origin : Bytes)
      (m : ConnectManager) (w : World) (o : Option Bytes) (n : ConnectManager)
      → check k origin m ≡ (o, n)
      → AllAdmitted check n
      → OnRet check
          (Kept check)
          (after_check_node (check k) parse (accepted t conn worker net_worker) written w (o, n))
  after_check_node-Kept k t conn worker net_worker written origin m w none n e a = a
  after_check_node-Kept k t conn worker net_worker (some err) origin m w (some i) n e a = tt
  after_check_node-Kept k t conn worker net_worker none origin m w (some i) n e a =
      accepted-AllAdmitted check t conn worker net_worker i (record w { manager = n })
        (k, origin, m, n, e) a

  deal-Kept :
      IsQuiet check
      → (k : ℕ) (t : Transport) (conn worker net_worker : ℕ) (written : Option Bytes) (msg : Bytes)
        (w : World)
      → AllAdmitted check w.manager
      → OnRet check
          (Kept check)
          (deal_hand_shake (check k) parse (accepted t conn worker net_worker) written msg w)
  unfolding deal_hand_shake
  deal-Kept q k t conn worker net_worker written msg w a = parsed (parse msg)
    where
      parsed :
          (r : Attempt (Option Bytes))
          → OnRet check
              (Kept check)
              (after_parse (check k) parse (accepted t conn worker net_worker) written w r)
      parsed (broke err) = a
      parsed (went none) = a
      parsed (went (some origin)) =
          after_check_node-Kept k t conn worker net_worker written origin w.manager w
            (check k origin w.manager).0 (check k origin w.manager).1 refl
            (same-AllAdmitted check (check k origin w.manager).1 w.manager
              (λ j. q k origin j w.manager) a)

  settled-Kept :
      (k : ℕ) (t : Transport) (conn : ℕ) (r : Option HandError × World)
      → Kept check r
      → AllAdmitted check (settle_hand_shake (check k) parse text t conn r).manager
  settled-Kept k t conn (none, w) a = a
  settled-Kept k t conn (some err, w) a =
      Fewer-AllAdmitted check _ w.manager (failed_on-Fewer t (some conn) (other (text err)) w) a

  pub packet-AllAdmitted :
      IsQuiet check
      → (k : ℕ) (t : Transport) (now conn worker net_worker : ℕ) (written : Option Bytes)
        (msg : Bytes) (w w' : World)
      → on_packet (check k) parse text t now conn worker net_worker written msg w ≡ ret w'
      → AllAdmitted check w.manager
      → AllAdmitted check w'.manager
  unfolding on_packet
  packet-AllAdmitted q k t now conn worker net_worker written msg w w' e a =
      owned (get_node_id_by_conn conn w.manager) e
    where
      owned :
          (o : Option Bytes)
          → with_owner (check k) parse text t now conn worker net_worker written msg w o ≡ ret w'
          → AllAdmitted check w'.manager
      owned (some i) e =
          Fewer-AllAdmitted check w'.manager w.manager (received-Fewer now i msg w w' e) a
      owned none e = subst (OnRet check (λ (v : World). AllAdmitted check v.manager)) e (
          OnRet-bind check (Kept check) (λ (v : World). AllAdmitted check v.manager) _
            (settle_hand_shake (check k) parse text t conn)
            (deal-Kept q k t conn worker net_worker written msg w a) (settled-Kept k t conn))

  pub remote-AllAdmitted :
      IsQuiet check
      → (k : ℕ) (err : SessionError) (conn worker net_worker : ℕ) (remote : Bytes) (w : World)
      → AllAdmitted check w.manager
      → AllAdmitted check (h_web_socket (check k) err conn worker net_worker remote w).manager
  unfolding h_web_socket
  remote-AllAdmitted q k err conn worker net_worker remote w a =
      answered (check k remote w.manager).0 (check k remote w.manager).1 refl (
        same-AllAdmitted check (check k remote w.manager).1 w.manager (λ j. q k remote j w.manager)
          a)
    where
      answered :
          (o : Option Bytes) (n : ConnectManager)
          → check k remote w.manager ≡ (o, n)
          → AllAdmitted check n
          → AllAdmitted check (after_remote err conn worker net_worker w (o, n)).manager
      answered none n e a =
          Fewer-AllAdmitted check _ n (loud_failed-Fewer (some conn) err (record w { manager = n }))
            a
      answered (some i) n e a =
          accepted-AllAdmitted check ws conn worker net_worker i (record w { manager = n })
            (k, remote, w.manager, n, e) a

  pub ws_received-AllAdmitted :
      (conn : ℕ) (msg : Bytes) (w w' : World)
      → ws_received conn msg w ≡ ret w'
      → AllAdmitted check w.manager
      → AllAdmitted check w'.manager
  unfolding ws_received
  ws_received-AllAdmitted conn msg w w' e a =
      subst (OnRet check (λ (v : World). AllAdmitted check v.manager)) e
        (owned (get_node_id_by_conn conn w.manager) msg)
    where
      owned :
          (o : Option Bytes) (msg : Bytes)
          → OnRet check (λ (v : World). AllAdmitted check v.manager) (ws_owner o msg w)
      owned none msg = a
      owned (some i) [] = tt
      owned (some i) (c ∷ cs) = elim (Bool-cases ((c ∷ cs) == ws_ping)) [
        | inl h ↦ rw h a
        | inr h ↦ rw h a
      ]
