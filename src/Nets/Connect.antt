-- ===== src/Nets/Connect.antt =====
-- nets/connect.go: the connect manager. A `net.Conn` is the number of the connection; workers and
-- net workers are numbers too, as the manager only keeps them. The map holds the info itself, so
-- what a method changes in an info is stored back.
use silvernode_go.Common.{
  ℕ, Bool, true, false, ◌&&◌, ◌||◌, Option, none, some, List, [], ◌∷◌, map, if◌then◌else◌, is_some,
  Run, ret, panic, ◌>>=◌, length, ◌==◌, Bytes, nat_eq, bytes_eq,
}
use silvernode_go.Strings.{split}
use silvernode_go.Stl.GoMap.{GoMap, lookup, insert, delete, has}
pub mod View
pub mod Edits
pub mod Pings

pub record ConnectInfo : Type 0 where
  pub node_id : Bytes
  pub url : Bytes
  pub proto : Bytes
  pub conn : ℕ
  pub worker : ℕ
  pub net_worker : ℕ
  pub ping : Bool
  pub ts : ℕ

unfoldable pub new_connect_info : Bytes → Bytes → Bytes → ℕ → ℕ → ℕ → ConnectInfo
new_connect_info node_id url proto conn worker net_worker = record {
  node_id = node_id;
  url = url;
  proto = proto;
  conn = conn;
  worker = worker;
  net_worker = net_worker;
  ping = false;
  ts = 0;
}

-- What `CheckPingPong` does: its answer, whether it sends "#pong", and the info.
pub record Checked : Type 0 where
  pub handled : Bool
  pub pong : Bool
  pub info : ConnectInfo

-- "#ping" and "#pong"
abbrev pub ping_text : Bytes
ping_text = 35 ∷ b'p' ∷ b'i' ∷ b'n' ∷ b'g' ∷ []

abbrev pub pong_text : Bytes
pong_text = 35 ∷ b'p' ∷ b'o' ∷ b'n' ∷ b'g' ∷ []

-- `msg[0]` panics on an empty message.
unfoldable pub check_message : ℕ → Bytes → ConnectInfo → Run Checked
check_message now [] i = panic
check_message now (c ∷ cs) i =
    if c == 35 && length (c ∷ cs) == 5
    then if (c ∷ cs) == pong_text
      then ret (record { handled = true; pong = false; info = record i { ping = false; ts = now } })
      else if (c ∷ cs) == ping_text
      then ret (record { handled = true; pong = true; info = record i { ping = true; ts = now } })
      else ret
          (record { handled = false; pong = false; info = record i { ping = false; ts = now } })
    else ret (record { handled = false; pong = false; info = record i { ping = false; ts = now } })

pub record ConnectManager : Type 0 where
  pub kv : GoMap Bytes (GoMap Bytes ConnectInfo)
  pub vk : GoMap ℕ Bytes

unfoldable pub new_connect_manager : ConnectManager
new_connect_manager = record { kv = []; vk = [] }

abbrev pub first_part : List Bytes → Bytes
first_part [] = []
first_part (part ∷ parts) = part

-- `ctx.GetNodeNameFromId`: what stands before the first '#'.
unfoldable pub node_name : Bytes → Bytes
node_name node_id = first_part (split 35 node_id)

abbrev pub or_empty : Option (GoMap Bytes ConnectInfo) → GoMap Bytes ConnectInfo
or_empty none = []
or_empty (some m) = m

-- `KV`, which makes the inner map where it is missing.
unfoldable pub kv_of : Bytes → ConnectManager → GoMap Bytes ConnectInfo × ConnectManager
kv_of name c =
    let made = (if has name c.kv then c else record c { kv = insert name [] c.kv }) in
    (or_empty (lookup name made.kv), made)

-- `c.KV(name)[nodeId] = info` and `delete(c.KV(name), nodeId)`
unfoldable pub put_info : Bytes → Bytes → ConnectInfo → ConnectManager → ConnectManager
unfolding kv_of
put_info name node_id info c =
    let (infos, made) = kv_of name c in
    record made { kv = insert name (insert node_id info infos) made.kv }

unfoldable pub drop_info : Bytes → Bytes → ConnectManager → ConnectManager
unfolding kv_of
drop_info name node_id c =
    let (infos, made) = kv_of name c in
    record made { kv = insert name (delete node_id infos) made.kv }

unfoldable pub get_connect_info : Bytes → ConnectManager → Option ConnectInfo × ConnectManager
unfolding kv_of
get_connect_info node_id c =
    let (infos, made) = kv_of (node_name node_id) c in (lookup node_id infos, made)

unfoldable pub get_node_id_by_conn : ℕ → ConnectManager → Option Bytes
get_node_id_by_conn conn c = lookup conn c.vk

unfoldable pub add_connect_info : ConnectInfo → ConnectManager → Option ConnectInfo × ConnectManager
unfolding put_info get_connect_info
add_connect_info info c =
    let (found, made) = get_connect_info info.node_id c in
    if is_some found || has info.conn made.vk
    then (none, made)
    else let stored = put_info (node_name info.node_id) info.node_id info made in
      (some info, record stored { vk = insert info.conn info.node_id stored.vk })

abbrev pub drop_conn : ℕ → ConnectManager → ConnectManager
drop_conn conn c = if has conn c.vk then record c { vk = delete conn c.vk } else c

unfoldable pub remove_connect_info : Bytes → ℕ → ConnectManager → ConnectManager
unfolding drop_info get_connect_info
remove_connect_info node_id conn c =
    let (found, made) = get_connect_info node_id c in
    drop_conn conn (if is_some found then drop_info (node_name node_id) node_id made else made)

abbrev pub store_checked : Bytes → ConnectManager → Checked → Bool × Bool × ConnectManager
store_checked node_id c r = (r.handled, r.pong, put_info (node_name node_id) node_id r.info c)

-- The answer, whether "#pong" is sent, and the manager.
unfoldable pub check_ping_pong :
    ℕ → Bytes → Bytes → ConnectManager → Run (Bool × Bool × ConnectManager)
unfolding put_info get_connect_info
check_ping_pong now node_id msg c =
    let (found, made) = get_connect_info node_id c in check_found found made
  where
    check_found : Option ConnectInfo → ConnectManager → Run (Bool × Bool × ConnectManager)
    check_found none made = ret (false, false, made)
    check_found (some info) made =
        check_message now msg info >>= λ r. ret (store_checked node_id made r)

abbrev keys_of : GoMap Bytes ConnectInfo → List Bytes
keys_of [] = []
keys_of ((node_id, info) ∷ infos) = node_id ∷ keys_of infos

unfoldable pub get_nodes : Bytes → ConnectManager → List Bytes
get_nodes name c = keys_of (or_empty (lookup name c.kv))
