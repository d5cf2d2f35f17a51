-- ===== src/Nets/Handshake/Reached.antt =====
-- nets: the sessions of the three transports as a step relation.
use silvernode_go.Common.{ℕ, ◌≡◌, sym, ◌∙◌, ◌≢◌, Option, none, some, ℤ, ret, Bytes, Attempt}
use silvernode_go.Nets.Connect.{ConnectInfo, ConnectManager, new_connect_manager}
use silvernode_go.Nets.Connect.View.{find-new}
use silvernode_go.Nets.Session.{SessionError, World, new_world, closed}
use silvernode_go.Nets.Address.{Transport}
use silvernode_go.Nets.Handshake.{
  HandError, Line, local_url, failed_on, on_packet, h_web_socket, ws_received, connect,
}
use silvernode_go.Nets.Handshake.Fewer.{closed-Fewer, failed_on-Fewer}
use silvernode_go.Nets.Handshake.Admitted.{AllAdmitted, Fewer-AllAdmitted, IsQuiet}
use silvernode_go.Nets.Handshake.Handling.{
  packet-AllAdmitted, remote-AllAdmitted, ws_received-AllAdmitted,
}
use silvernode_go.Nets.Handshake.Dialling.{dial-AllAdmitted}

module _ (check : ℕ → Bytes → ConnectManager → Option Bytes × ConnectManager)
    (parse : Bytes → Attempt (Option Bytes)) (text : HandError → Bytes) where
  -- What happens to the connections: a message of one, a websocket that asks to be let in or has a
  -- message, an error, a closing, and a connection that the node makes itself to a URL that is not
  -- "local://".
  pub data Step : World → World → Type 0 where
    packet :
        (k : ℕ) (t : Transport) (now conn worker net_worker : ℕ) (written : Option Bytes)
        (msg : Bytes) (w w' : World)
        → on_packet (check k) parse text t now conn worker net_worker written msg w ≡ ret w'
        → Step w w'
    web_socket :
        (k : ℕ) (err : SessionError) (conn worker net_worker : ℕ) (remote : Bytes) (w : World)
        → Step w (h_web_socket (check k) err conn worker net_worker remote w)
    web_message :
        (conn : ℕ) (msg : Bytes) (w w' : World) → ws_received conn msg w ≡ ret w' → Step w w'
    fail :
        (t : Transport) (conn : Option ℕ) (err : SessionError) (w : World)
        → Step w (failed_on t conn err w)
    close :
        (node_id : Bytes) (conn : ℕ) (err : SessionError) (w : World)
        → Step w (closed node_id conn err w)
    dial :
        (t : Transport) (answer : Bytes → Attempt ℕ) (line : Line) (pid : ℤ) (worker net_worker : ℕ)
        (node_id url : Bytes) (w w' : World) (err : Option HandError)
        → url ≢ local_url
        → connect t answer line pid worker net_worker node_id url w ≡ ret (err, w')
        → Step w w'

  pub data Reachable : World → Type 0 where
    begin : Reachable new_world
    next : (w w' : World) → Reachable w → Step w w' → Reachable w'

  Step-AllAdmitted :
      IsQuiet check
      → (w w' : World) → Step w w'
      → AllAdmitted check w.manager
      → AllAdmitted check w'.manager
  Step-AllAdmitted q _ _ (packet k t now conn worker net_worker written msg w w' e) a =
      packet-AllAdmitted check parse text q k t now conn worker net_worker written msg w w' e a
  Step-AllAdmitted q _ _ (web_socket k err conn worker net_worker remote w) a =
      remote-AllAdmitted check parse text q k err conn worker net_worker remote w a
  Step-AllAdmitted q _ _ (web_message conn msg w w' e) a =
      ws_received-AllAdmitted check parse text conn msg w w' e a
  Step-AllAdmitted q _ _ (fail t conn err w) a =
      Fewer-AllAdmitted check _ w.manager (failed_on-Fewer t conn err w) a
  Step-AllAdmitted q _ _ (close node_id conn err w) a =
      Fewer-AllAdmitted check _ w.manager (closed-Fewer node_id conn err w) a
  Step-AllAdmitted q _ _ (dial t answer line pid worker net_worker node_id url w w' err u e) a =
      dial-AllAdmitted check t answer line pid worker net_worker node_id url w w' err u e a

  -- Whatever messages, websockets, errors, closings and connections follow each other on the three
  -- transports: a node that is registered as one that connected from outside (with the URL
  -- "local://") was let in under its name by OnCheckNode, if OnCheckNode itself registers and removes
  -- no node.
  pub sessions-AllAdmitted : IsQuiet check → (w : World) → Reachable w → AllAdmitted check w.manager
  sessions-AllAdmitted q _ begin = unfold new_world in none_yet
    where
      no_node : (i : Bytes) (info : ConnectInfo) → none ≢ some info
      no_node i info e = cc

      none_yet : AllAdmitted check new_connect_manager
      none_yet i info h = absurd (no_node i info (sym (find-new i) ∙ h))
  sessions-AllAdmitted q _ (next w w' r s) = Step-AllAdmitted q w w' s (sessions-AllAdmitted q w r)
