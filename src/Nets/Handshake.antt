-- ===== src/Nets/Handshake.antt =====
-- nets/tcp.go, nets/kcp.go, nets/ws.go: how a connection gets its node, on both sides, and what a worker
-- does with a message or an error of a connection. What a line and the libraries answer is an argument.
use silvernode_go.Common.{
  ℕ, Bool, true, false, not, Option, none, some, [], ◌∷◌, ◌++◌, if◌then◌else◌, ℤ, Run, ret, panic,
  stuck, ◌>>=◌, take, ◌==◌, Bytes, nat_eq, bytes_eq, Attempt, went, broke,
}
use silvernode_go.Nets.Connect.{ConnectInfo, ConnectManager, new_connect_info, get_node_id_by_conn}
use silvernode_go.Nets.Session.{
  SessionError, other, on_message, on_error, close_conn, send_pong, World, emit, closed, failed,
  connected, received,
}
use silvernode_go.Nets.Address.{Transport, tcp, udp, ws, name_of, dialled}
use silvernode_go.Process.Service.{Service, coservice, terminate}
pub mod Fewer
pub mod Admitted
pub mod Handling
pub mod Dialling
pub mod Reached

-- The errors of a handshake; `text` of the sections below gives their texts.
pub data HandError : Type 0 where
  line_broke : Bytes → HandError
  illegal_answer : HandError
  origin_missing : HandError
  illegal_node : HandError

-- "local://"
abbrev pub local_url : Bytes
local_url = b'l' ∷ b'o' ∷ b'c' ∷ b'a' ∷ b'l' ∷ 58 ∷ 47 ∷ 47 ∷ []

-- "#hsuc"
abbrev pub success : Bytes
success = 35 ∷ b'h' ∷ b's' ∷ b'u' ∷ b'c' ∷ []

-- What the steps of `doHandShake` on one connection give: the JSON text and then its sending, the two
-- deadlines, and the bytes that are read into the buffer of five.
pub record Line : Type 0 where
  pub marshal : Attempt Bytes
  pub write : Option Bytes
  pub set_deadline : Option Bytes
  pub read : Attempt Bytes
  pub clear_deadline : Option Bytes

-- The buffer after a read into it, which was filled with zeros.
abbrev pub buffer : Bytes → Bytes
buffer bs = take 5 (bs ++ (0 ∷ 0 ∷ 0 ∷ 0 ∷ 0 ∷ []))

module _ (info : ConnectInfo) (w : World) where
  abbrev pub after_answer : Bytes → Option HandError × World
  after_answer bs =
      if buffer bs == success then (none, connected info w) else (some illegal_answer, w)

  abbrev pub after_clear : Bytes → Option Bytes → Option HandError × World
  after_clear bs none = after_answer bs
  after_clear bs (some err) = (some (line_broke err), w)

  abbrev pub after_read : Option Bytes → Attempt Bytes → Option HandError × World
  after_read cleared (went bs) = after_clear bs cleared
  after_read cleared (broke err) = (some (line_broke err), w)

  abbrev pub after_deadline : Line → Option Bytes → Option HandError × World
  after_deadline l none = after_read l.clear_deadline l.read
  after_deadline l (some err) = (some (line_broke err), w)

  abbrev pub after_write : Line → Option Bytes → Option HandError × World
  after_write l none = after_deadline l l.set_deadline
  after_write l (some err) = (some (line_broke err), w)

  abbrev pub after_marshal : Line → Attempt Bytes → Option HandError × World
  after_marshal l (went bs) = after_write l l.write
  after_marshal l (broke err) = (some (line_broke err), w)

  -- `doHandShake`, with the info that `onConn` registers.
  unfoldable pub do_hand_shake : Line → Option HandError × World
  unfolding connected
  do_hand_shake l = after_marshal l l.marshal

-- OnCheckNode of the listener (none for its error), and how the text of a handshake is parsed: an
-- error, or the origin if the object has one.
module _ (check : Bytes → ConnectManager → Option Bytes × ConnectManager)
    (parse : Bytes → Attempt (Option Bytes)) where
  -- The answer is written; `errutil.Extend` of the error of OnCheckNode, which is nil here, panics.
  abbrev pub after_success : ConnectInfo → World → Option Bytes → Run (Option HandError × World)
  after_success info w none = ret (none, connected info w)
  after_success info w (some err) = panic

  abbrev pub after_check_node :
      (Bytes → ConnectInfo)
      → Option Bytes
      → World
      → Option Bytes × ConnectManager
      → Run (Option HandError × World)
  after_check_node info_of written w (none, m) = ret (some illegal_node, record w { manager = m })
  after_check_node info_of written w (some node_id, m) =
      after_success (info_of node_id) (record w { manager = m }) written

  abbrev pub after_parse :
      (Bytes → ConnectInfo)
      → Option Bytes
      → World
      → Attempt (Option Bytes)
      → Run (Option HandError × World)
  after_parse info_of written w (broke err) = ret (some (line_broke err), w)
  after_parse info_of written w (went none) = ret (some origin_missing, w)
  after_parse info_of written w (went (some origin)) =
      after_check_node info_of written w (check origin w.manager)

  -- `dealHandShake`: `info_of` is the info that `onConn` registers for a node, `written` the error of
  -- writing the answer, if any.
  unfoldable pub deal_hand_shake :
      (Bytes → ConnectInfo) → Option Bytes → Bytes → World → Run (Option HandError × World)
  unfolding connected
  deal_hand_shake info_of written msg w = after_parse info_of written w (parse msg)

-- `onError` of the UDP and the websocket worker, which report an end of file too.
abbrev pub loud_error_of : Option Bytes → ℕ → SessionError → World → World
loud_error_of (some node_id) conn err w = closed node_id conn err w
loud_error_of none conn err w = emit (close_conn conn ∷ on_error err ∷ []) w

unfoldable pub loud_failed : Option ℕ → SessionError → World → World
unfolding closed
loud_failed none err w = emit (on_error err ∷ []) w
loud_failed (some conn) err w = loud_error_of (get_node_id_by_conn conn w.manager) conn err w

abbrev pub failed_on : Transport → Option ℕ → SessionError → World → World
failed_on tcp conn err w = failed conn err w
failed_on udp conn err w = loud_failed conn err w
failed_on ws conn err w = loud_failed conn err w

-- The info of a connection that was accepted, with the numbers of its worker and its net worker.
abbrev pub accepted : Transport → ℕ → ℕ → ℕ → Bytes → ConnectInfo
accepted t conn worker net_worker node_id =
    new_connect_info node_id local_url (name_of t) conn worker net_worker

module _ (check : Bytes → ConnectManager → Option Bytes × ConnectManager)
    (parse : Bytes → Attempt (Option Bytes)) (text : HandError → Bytes) (t : Transport) where
  abbrev pub settle_hand_shake : ℕ → Option HandError × World → World
  settle_hand_shake conn (none, w) = w
  settle_hand_shake conn (some err, w) = failed_on t (some conn) (other (text err)) w

  abbrev pub with_owner : ℕ → ℕ → ℕ → ℕ → Option Bytes → Bytes → World → Option Bytes → Run World
  with_owner now conn worker net_worker written msg w (some node_id) = received now node_id msg w
  with_owner now conn worker net_worker written msg w none =
      deal_hand_shake check parse (accepted t conn worker net_worker) written msg w >>= λ r.
      ret (settle_hand_shake conn r)

  -- A message of a connection in the loop of `h_tcpSocket` or `h_kcpSocket`: one of a node is handled,
  -- the first one is a handshake.
  unfoldable pub on_packet : ℕ → ℕ → ℕ → ℕ → Option Bytes → Bytes → World → Run World
  unfolding deal_hand_shake received
  on_packet now conn worker net_worker written msg w =
      with_owner now conn worker net_worker written msg w (get_node_id_by_conn conn w.manager)

-- `h_webSocket` asks for the node before anything is read; the worker is started where the node is let
-- in.
abbrev pub after_remote : SessionError → ℕ → ℕ → ℕ → World → Option Bytes × ConnectManager → World
after_remote err conn worker net_worker w (none, m) =
    loud_failed (some conn) err (record w { manager = m })
after_remote err conn worker net_worker w (some node_id, m) =
    connected (accepted ws conn worker net_worker node_id) (record w { manager = m })

unfoldable pub h_web_socket :
    (Bytes → ConnectManager → Option Bytes × ConnectManager)
    → SessionError
    → ℕ
    → ℕ
    → ℕ
    → Bytes
    → World
    → World
unfolding connected loud_failed
h_web_socket check err conn worker net_worker remote w =
    after_remote err conn worker net_worker w (check remote w.manager)

-- "#ping"
abbrev pub ws_ping : Bytes
ws_ping = 35 ∷ b'p' ∷ b'i' ∷ b'n' ∷ b'g' ∷ []

-- `onMsg` of the websocket worker, which answers a ping itself and hands on all else, a pong too.
abbrev pub ws_message : Bytes → Bytes → World → Run World
ws_message node_id [] w = panic
ws_message node_id (c ∷ cs) w =
    if (c ∷ cs) == ws_ping
    then ret (emit (send_pong node_id ∷ []) w)
    else ret (emit (on_message node_id (c ∷ cs) ∷ []) w)

abbrev pub ws_owner : Option Bytes → Bytes → World → Run World
ws_owner none msg w = ret w
ws_owner (some node_id) msg w = ws_message node_id msg w

unfoldable pub ws_received : ℕ → Bytes → World → Run World
ws_received conn msg w = ws_owner (get_node_id_by_conn conn w.manager) msg w

-- The state after an attempt to connect to a node, and the error that is returned, if any.
abbrev pub Dialled : Type 0
Dialled = Run (Option HandError × World)

-- A call of Terminate that does not return is waited for.
abbrev pub after_terminate : Option HandError × World → Bool × Service → Dialled
after_terminate r (true, s) = ret r
after_terminate r (false, s) = stuck

-- After a failed handshake the UDP worker terminates the service, which was never started.
abbrev pub after_hand_shake : Transport → ℤ → Option HandError × World → Dialled
after_hand_shake tcp pid r = ret r
after_hand_shake udp pid (none, w) = ret (none, w)
after_hand_shake udp pid (some err, w) = after_terminate (some err, w) (terminate (coservice pid))
after_hand_shake ws pid r = ret r

abbrev pub after_dial : Transport → ℤ → Line → (ℕ → ConnectInfo) → World → Attempt ℕ → Dialled
after_dial t pid l info_of w (broke err) = ret (some (line_broke err), w)
after_dial tcp pid l info_of w (went conn) =
    after_hand_shake tcp pid (do_hand_shake (info_of conn) w l)
after_dial udp pid l info_of w (went conn) =
    after_hand_shake udp pid (do_hand_shake (info_of conn) w l)
after_dial ws pid l info_of w (went conn) = ret (none, connected (info_of conn) w)

-- `Connect` of a worker: `dial` is the resolution and dialling of the address (with the origin, for a
-- websocket), `pid` the number of the service that is made for the connection.
unfoldable pub connect :
    Transport → (Bytes → Attempt ℕ) → Line → ℤ → ℕ → ℕ → Bytes → Bytes → World → Dialled
unfolding do_hand_shake terminate connected
connect t dial line pid worker net_worker node_id url w =
    after_dial t pid line (λ conn. new_connect_info node_id url (name_of t) conn worker net_worker)
      w (dial (dialled t url))
