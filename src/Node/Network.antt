-- ===== src/Node/Network.antt =====
-- silvernode.go: how the node connects to others, sends to them and closes connections. The pipeline's
-- handlers, the lines of the workers and the numbers of what is new are arguments.
use silvernode_go.Common.{
  ◌⊎◌, inl, inr, Bool, true, false, not, ◌&&◌, ◌||◌, Option, none, some, List, [], ◌∷◌, ◌++◌,
  if◌then◌else◌, Run, ret, panic, ◌>>=◌, ◌==◌, Bytes, nat_eq, bytes_eq,
}
use silvernode_go.Strings.{split_str}
use silvernode_go.Strings.Decimal.{sprint}
use silvernode_go.Stl.GoMap.{GoMap, lookup, insert}
use silvernode_go.Netutil.{
  UrlInfo, illegal_url, illegal_address, illegal_port, url_info, parse_url_info, scheme_end,
}
use silvernode_go.Nets.Connect.{
  ConnectInfo, ConnectManager, get_connect_info, node_name, first_part,
}
use silvernode_go.Nets.Session.{SessionError, eof, World, closed}
use silvernode_go.Nets.Address.{Transport, create_net_worker}
use silvernode_go.Nets.Handshake.{HandError}
pub mod Scanning

-- The connections, and the workers by the URL that they were made for.
pub record NodeState : Type 0 where
  pub world : World
  pub net_workers : GoMap Bytes Transport

-- What `Connect` answers: the node's name, or an error of the URL, of its protocol or of the handshake.
pub data Connected : Type 0 where
  named : Bytes → Connected
  bad_url : Connected
  bad_proto : Connected
  not_connected : Bytes → HandError → Connected

abbrev pub with_worker : Bytes → NodeState → Option Transport → Option Transport × NodeState
with_worker url s none = (none, s)
with_worker url s (some t) = (some t, record s { net_workers = insert url t s.net_workers })

abbrev pub find_worker : Bytes → NodeState → Option Transport → Option Transport × NodeState
find_worker url s (some t) = (some t, s)
find_worker url s none =
    with_worker url s (create_net_worker (first_part (split_str scheme_end url)))

-- `getNetWorker`, none for its error
unfoldable pub get_net_worker : Bytes → NodeState → Option Transport × NodeState
unfolding create_net_worker split_str
get_net_worker url s = find_worker url s (lookup url s.net_workers)

-- The name under which `Connect` connects, given the info of that node, if it is connected: `done` if
-- there is nothing to do.
pub data Target : Type 0 where
  settled : Target
  illegal : Target
  under : Bytes → Target

abbrev pub second_name : Bytes → UrlInfo → Target
second_name node_id illegal_url = illegal
second_name node_id illegal_address = illegal
second_name node_id illegal_port = illegal
second_name node_id (url_info proto ip port) = under (node_id ++ (64 ∷ (proto ++ sprint port)))

unfoldable pub target : Bytes → Bytes → Option ConnectInfo → Target
unfolding parse_url_info sprint
target node_id url none = under node_id
target node_id url (some info) =
    if info.url == url then settled else second_name node_id (parse_url_info url)

-- `Connect` of the worker of a transport, for a node and a URL.
module _ (worker_connect : Transport → Bytes → Bytes → World → Run (Option HandError × World)) where
  abbrev pub after_worker : Bytes → NodeState → Option HandError × World → Connected × NodeState
  after_worker node_id s (none, w) = (named node_id, record s { world = w })
  after_worker node_id s (some err, w) = (not_connected node_id err, record s { world = w })

  abbrev pub by_worker : Bytes → Bytes → Option Transport × NodeState → Run (Connected × NodeState)
  by_worker node_id url (none, s) = ret (bad_proto, s)
  by_worker node_id url (some t, s) =
      worker_connect t node_id url s.world >>= λ r. ret (after_worker node_id s r)

  abbrev pub to_target : Bytes → Bytes → NodeState → Target → Run (Connected × NodeState)
  to_target node_id url s settled = ret (named node_id, s)
  to_target node_id url s illegal = ret (bad_url, s)
  to_target node_id url s (under name) = by_worker name url (get_net_worker url s)

  abbrev pub looked_up : NodeState → ConnectManager → NodeState
  looked_up s m = record s { world = record s.world { manager = m } }

  -- `Connect`
  unfoldable pub connect : Bytes → Bytes → NodeState → Run (Connected × NodeState)
  unfolding get_net_worker target
  connect node_id url s =
      let (found, m) = get_connect_info node_id s.world.manager in
      to_target node_id url (looked_up s m) (target node_id url found)

-- What the pipeline's OnOutBound gives: the bytes, an end of file, or another error.
pub data OutBound : Type 0 where
  bytes : Bytes → OutBound
  nothing : OutBound
  out_failed : Bytes → OutBound

-- What `Send` does.
pub data Sent : Type 0 where
  dropped : Sent
  not_bound : Bytes → Sent
  no_connection : Sent
  handed : ConnectInfo → Bytes → Sent

abbrev pub to_connection : Bytes → Option ConnectInfo × ConnectManager → Sent × ConnectManager
to_connection data_out (none, m) = (no_connection, m)
to_connection data_out (some info, m) = (handed info data_out, m)

-- `Send` of what OnOutBound made of a message, up to the worker's Send
unfoldable pub send : OutBound → Bytes → ConnectManager → Sent × ConnectManager
send (bytes data_out) node_id m = to_connection data_out (get_connect_info node_id m)
send nothing node_id m = (dropped, m)
send (out_failed err) node_id m = (not_bound err, m)

abbrev pub close_found : Bytes → World → Option ConnectInfo → Bool × World
close_found node_id w none = (false, w)
close_found node_id w (some info) = (true, closed info.node_id info.conn eof w)

-- `Close`, false for its error; the info closes itself with an end of file.
unfoldable pub close : Bytes → World → Bool × World
unfolding closed
close node_id w =
    let (found, m) = get_connect_info node_id w.manager in
    close_found node_id (record w { manager = m }) found

-- `isBackEnd` of a node with this identifier and these back ends
unfoldable pub is_back_end : Bytes → List Bytes → Bytes → Bool
is_back_end self [] i = false
is_back_end self (back ∷ backs) i =
    let rest = is_back_end self backs i in back == node_name i && not (self == i) || rest

-- Another node that the registry knows.
pub record Other : Type 0 where
  pub node_id : Bytes
  pub end_points : List Bytes

-- What happens during a scan, on a state of the type `S`: `connected` looks whether a node is connected
-- and `connect` connects to one; the answers are what `onScanning` hands to OnError.
module _ {S : Type 0} (self : Bytes) (back_ends : List Bytes) (connected : Bytes → S → Bool × S)
    (connect_to : Bytes → Bytes → S → Run S) where
  -- `otherInfo.EndPoints[0]` panics where there is none.
  abbrev pub connect_first : Other → List Bytes → S → Run S
  connect_first o [] s = panic
  connect_first o (url ∷ urls) s = connect_to o.node_id url s

  abbrev pub scan_one : Other → Bool × S → Run S
  scan_one o (true, s) = ret s
  scan_one o (false, s) =
      if is_back_end self back_ends o.node_id then connect_first o o.end_points s else ret s

  -- The loop of `onScanning`
  unfoldable pub on_scanning : List Other → S → Run S
  unfolding is_back_end
  on_scanning [] s = ret s
  on_scanning (o ∷ os) s = scan_one o (connected o.node_id s) >>= on_scanning os

-- "节点尚未初始化完毕!"
abbrev pub not_inited : Bytes
not_inited =
    232 ∷ 138 ∷ 130 ∷ 231 ∷ 130 ∷ 185 ∷ 229 ∷ 176 ∷ 154 ∷ 230 ∷ 156 ∷ 170 ∷ 229 ∷ 136 ∷ 157 ∷ 229
    ∷ 167 ∷ 139 ∷ 229 ∷ 140 ∷ 150 ∷ 229 ∷ 174 ∷ 140 ∷ 230 ∷ 175 ∷ 149 ∷ 33 ∷ []

abbrev pub handled_by : {M : Type 0} → (Bytes → M → Option Bytes) → Bytes → M ⊎ Bytes → Option Bytes
handled_by handle node_id (inl m) = handle node_id m
handled_by handle node_id (inr err) = some err

-- OnMessage of the listener: the error that OnError gets, if any.
unfoldable pub on_message :
    {M : Type 0}
    → Bool
    → (Bytes → Bytes → M ⊎ Bytes)
    → (Bytes → M → Option Bytes)
    → Bytes
    → Bytes
    → Option Bytes
on_message inited in_bound handle node_id msg =
    if inited then handled_by handle node_id (in_bound node_id msg) else some not_inited
