-- ===== src/Nets/Session.antt =====
-- nets/tcp.go: the handlers onConn, onMsg, onClose, onError and Close of a worker, over the connect
-- manager. nets/kcp.go has the same but for its onError, which is in Handshake. What a handler calls on
-- the listener and on a connection is recorded in order.
use silvernode_go.Common.{
  ℕ, Bool, true, false, Option, none, some, List, [], ◌∷◌, ◌++◌, if◌then◌else◌, Run, ret, ◌>>=◌,
  Bytes,
}
use silvernode_go.Nets.Connect.{
  ConnectInfo, ConnectManager, new_connect_manager, add_connect_info, remove_connect_info,
  get_connect_info, get_node_id_by_conn, check_ping_pong,
}
pub mod Steps
pub mod Closing
pub mod Sound

pub data SessionError : Type 0 where
  eof : SessionError
  duplicate : Bytes → SessionError
  other : Bytes → SessionError

-- Calls of OnConnect, OnMessage, OnClose and OnError, of `conn.Close`, and of `Send("#pong")`.
pub data Effect : Type 0 where
  on_connect : Bytes → Effect
  on_message : Bytes → Bytes → Effect
  on_close : Bytes → SessionError → Effect
  on_error : SessionError → Effect
  close_conn : ℕ → Effect
  send_pong : Bytes → Effect

pub record World : Type 0 where
  pub manager : ConnectManager
  pub effects : List Effect

unfoldable pub new_world : World
new_world = record { manager = new_connect_manager; effects = [] }

abbrev pub emit : List Effect → World → World
emit es w = record w { effects = w.effects ++ es }

unfoldable pub is_eof : SessionError → Bool
is_eof eof = true
is_eof (duplicate i) = false
is_eof (other text) = false

unfoldable pub closed : Bytes → ℕ → SessionError → World → World
closed node_id conn reason w = record {
  manager = remove_connect_info node_id conn w.manager;
  effects = w.effects ++ (on_close node_id reason ∷ close_conn conn ∷ []);
}

abbrev pub error_of : Option Bytes → ℕ → SessionError → World → World
error_of (some node_id) conn err w = closed node_id conn err w
error_of none conn err w =
    if is_eof err
    then emit (close_conn conn ∷ []) w
    else emit (close_conn conn ∷ on_error err ∷ []) w

-- `onError`; a `conn` that is nil is `none`.
unfoldable pub failed : Option ℕ → SessionError → World → World
unfolding closed is_eof
failed none err w = emit (on_error err ∷ []) w
failed (some conn) err w = error_of (get_node_id_by_conn conn w.manager) conn err w

abbrev pub after_add : ConnectInfo → Option ConnectInfo → World → World
after_add info none w = failed (some info.conn) (duplicate info.node_id) w
after_add info (some i) w = emit (on_connect info.node_id ∷ []) w

-- `onConn`, with the info that `AddConnectInfo` builds.
unfoldable pub connected : ConnectInfo → World → World
unfolding failed
connected info w =
    let (added, manager) = add_connect_info info w.manager in
    after_add info added (record w { manager = manager })

abbrev pub after_check : Bytes → Bytes → World → Bool × Bool × ConnectManager → World
after_check node_id msg w (handled, pong, manager) =
    if handled
    then if pong
      then emit (send_pong node_id ∷ []) (record w { manager = manager })
      else record w { manager = manager }
    else emit (on_message node_id msg ∷ []) (record w { manager = manager })

-- `onMsg` at the time `now`.
unfoldable pub received : ℕ → Bytes → Bytes → World → Run World
received now node_id msg w =
    check_ping_pong now node_id msg w.manager >>= λ r. ret (after_check node_id msg w r)
