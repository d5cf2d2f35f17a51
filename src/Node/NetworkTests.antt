-- ===== src/Node/NetworkTests.antt =====
-- silvernode.go, ctx and utils: connecting, scanning and starting at concrete inputs.
use silvernode_go.Common.{
  ℕ, ◌+◌, ◌≡◌, refl, ◌⊎◌, inr, Bool, true, false, Option, none, some, List, [], ◌∷◌, ◌++◌, arith,
  if◌then◌else◌, pos, Run, ret, ret-injective, All, Bytes, nat_eq, bytes_eq, Attempt, went, broke,
}
use silvernode_go.Strings.{split, has_prefix}
use mathlib.Core.Path.{subst}
use silvernode_go.Stl.GoMap.{lookup, insert, Distinct}
use silvernode_go.Nets.Connect.{
  ConnectInfo, new_connect_manager, new_connect_info, get_connect_info, kv_of, node_name,
  get_node_id_by_conn, add_connect_info, put_info,
}
use silvernode_go.Nets.Connect.View.{find}
use silvernode_go.Nets.Session.{World, new_world, connected}
use silvernode_go.Nets.Address.{
  tcp, udp, tcp_cutset, dialled, address_of, address_of_lem, udp_dials_scheme,
}
use silvernode_go.Nets.Handshake.{HandError, local_url, accepted, on_packet, deal_hand_shake}
use silvernode_go.Nets.Handshake.Reached.{Reachable, begin, next, packet}
use silvernode_go.Ctx.NodeInfo.{NodeInfo, suitable_eps, node_signature}
use silvernode_go.Ctx.NodeInfo.Names.{node_signature-name}
use silvernode_go.Pools.{Pool, check_and_dispose}
use silvernode_go.Pools.Due.{count, is_due, check_and_dispose_lem}
use silvernode_go.Stl.Slices.{one_if}
use silvernode_go.Node.Admission.{Unknown}
use silvernode_go.Node.Registered.{check_at, accepted_nodes}
use silvernode_go.Node.Network.{Other, on_scanning, is_back_end}
use silvernode_go.Node.Network.Scanning.{IsAmong, on_scanning-keeps}
use silvernode_go.Node.Startup.{SetupParam, Environment, serve}
use silvernode_go.Node.Startup.Ready.{Ends, IsComplete, serve-IsComplete}
use silvernode_go.Node.Tests.{always_h, registry, chat, known, known_admitted}

abbrev at_all_times : ℕ → Bytes → Bytes → Option Bool
at_all_times k = registry

abbrev no_number : ℕ → Bytes
no_number k = []

-- The handshake's text is the origin itself.
abbrev as_origin : Bytes → Attempt (Option Bytes)
as_origin text = went (some text)

abbrev no_text : HandError → Bytes
no_text err = []

abbrev chat_info : ConnectInfo
chat_info = accepted tcp 7 0 0 chat

-- The world after the handshake of the node "c#1" on the connection 7
abbrev shaken : World
shaken =
    connected chat_info
      (record new_world { manager = (get_connect_info chat new_connect_manager).1 })

shaken_packet :
    on_packet
      (check_at false at_all_times always_h no_number 0)
      as_origin
      no_text
      tcp
      0
      7
      0
      0
      none
      known
      new_world
    ≡ ret shaken
unfolding on_packet deal_hand_shake get_node_id_by_conn new_world new_connect_manager lookup
shaken_packet = rw known_admitted refl

shaken-Reachable :
    Reachable (check_at false at_all_times always_h no_number) as_origin no_text shaken
shaken-Reachable =
    next new_world shaken begin (packet 0 tcp 0 7 0 0 none known new_world shaken shaken_packet)

chat_found : find chat shaken.manager ≡ some chat_info
unfolding connected add_connect_info get_connect_info kv_of put_info node_name split lookup insert
    new_world new_connect_manager new_connect_info
chat_found = refl

chat_local : chat_info.url ≡ local_url
unfolding new_connect_info
chat_local = refl

accepted_nodes_example :
    Unknown chat ⊎ ((k : ℕ) × (sig : Bytes) × (at_all_times k chat sig ≡ some true))
accepted_nodes_example =
    accepted_nodes false at_all_times always_h no_number as_origin no_text shaken chat chat_info
      shaken-Reachable chat_found chat_local

-- "c", whose end point is "ws://h:80"
abbrev end_point : Bytes
end_point = b'w' ∷ b's' ∷ 58 ∷ 47 ∷ 47 ∷ b'h' ∷ 58 ∷ b'8' ∷ b'0' ∷ []

abbrev chat_node : NodeInfo ℕ
chat_node = record {
  node_id = chat;
  name = b'c' ∷ [];
  end_points = end_point ∷ [];
  is_pub = false;
  back_ends = [];
  log_level = pos 0;
  main_port = 80;
  metrics = true;
  sig = [];
  usr_datas = [];
}

abbrev plain_environment : Environment ℕ
plain_environment = record {
  load_file = λ path. went [];
  load_app_yaml = λ text. none;
  has_cluster = false;
  cluster_type = broke [];
  create_registry = λ type_name. none;
  install_plugins = none;
  has_node = true;
  node_conf = went chat_node;
  get_config = λ key. broke [];
  available_port = broke [];
  sign = λ n. ret (n, n.node_id);
  join_cluster = λ n. none;
}

abbrev no_param : SetupParam
no_param = record { app_conf = []; cluster_node = []; specified_id = [] }

serve-IsComplete_example :
    Ends plain_environment no_param
      (IsComplete plain_environment no_param)
      (serve plain_environment no_param)
serve-IsComplete_example = serve-IsComplete plain_environment no_param

-- "a#1", and the names of those that it connects to
abbrev a_node : Bytes
a_node = b'a' ∷ 35 ∷ b'1' ∷ []

abbrev not_yet : Bytes → List Bytes → Bool × List Bytes
not_yet i s = (false, s)

abbrev remember : Bytes → Bytes → List Bytes → Run (List Bytes)
remember i url s = ret (i ∷ s)

abbrev Remembered : List Bytes → Type 0
Remembered s = All (λ (i : Bytes). IsAmong (node_name i) ((b'c' ∷ []) ∷ [])) s

abbrev seen_nodes : List Other
seen_nodes =
    record { node_id = chat; end_points = end_point ∷ [] }
    ∷ (record { node_id = a_node; end_points = [] } ∷ [])

scanned : on_scanning a_node ((b'c' ∷ []) ∷ []) not_yet remember seen_nodes [] ≡ ret (chat ∷ [])
unfolding on_scanning is_back_end node_name split
scanned = refl

on_scanning-keeps_example : Remembered (chat ∷ [])
on_scanning-keeps_example =
    on_scanning-keeps a_node ((b'c' ∷ []) ∷ []) not_yet remember Remembered (λ i s p. p)
      (λ i url s s' among other e p. subst Remembered (ret-injective e) (among, p)) seen_nodes []
      (chat ∷ []) scanned tt

-- "1" of the name "c"
abbrev unsigned_node : NodeInfo ℕ
unsigned_node = record chat_node { node_id = b'1' ∷ []; end_points = [] }

abbrev signed_node : NodeInfo ℕ
signed_node = record unsigned_node { node_id = chat; sig = b'm' ∷ [] }

abbrev no_port : ℕ → Option ℕ
no_port i = none

abbrev short_md5 : Bytes → Bytes
short_md5 text = b'm' ∷ []

now_signed :
    node_signature none no_port [] [] short_md5 [] [] unsigned_node [] ≡ ret (signed_node, chat)
unfolding node_signature suitable_eps has_prefix
now_signed = refl

node_signature-name_example :
    (chat ≡ signed_node.node_id)
    × (node_name signed_node.node_id ≡ signed_node.name)
    × (node_signature none no_port [] [] short_md5 [] [] signed_node chat ≡ ret (signed_node, chat))
node_signature-name_example =
    node_signature-name none no_port [] [] short_md5 [] [] unsigned_node signed_node chat
      (ground arith) now_signed

-- "tcp://h:80/x"
address_of_lem_example :
    address_of tcp_cutset (
      (b't' ∷ b'c' ∷ b'p' ∷ 58 ∷ 47 ∷ 47 ∷ [])
      ++ (b'h' ∷ ((58 ∷ b'8' ∷ []) ++ b'0' ∷ (47 ∷ b'x' ∷ []))))
    ≡ b'h' ∷ ((58 ∷ b'8' ∷ []) ++ b'0' ∷ [])
address_of_lem_example =
    address_of_lem tcp_cutset (b't' ∷ b'c' ∷ b'p' ∷ 58 ∷ 47 ∷ 47 ∷ []) b'h' (58 ∷ b'8' ∷ []) b'0'
      (47 ∷ b'x' ∷ []) (refl, (refl, (refl, (refl, (refl, (refl, tt)))))) refl refl (ground arith)
      (inr (b'x' ∷ [], refl))

udp_dials_scheme_example :
    dialled udp (b'u' ∷ b'd' ∷ b'p' ∷ 58 ∷ 47 ∷ 47 ∷ ((b'h' ∷ 58 ∷ []) ++ b'8' ∷ []))
    ≡ b'u' ∷ b'd' ∷ b'p' ∷ 58 ∷ []
udp_dials_scheme_example = udp_dials_scheme (b'h' ∷ 58 ∷ []) b'8' refl

abbrev one_object : Pool
one_object = record { objs = (1, 10) ∷ []; disposed = [] }

one_object-Distinct : Distinct one_object.objs
unfolding lookup
one_object-Distinct = (refl, tt)

check_and_dispose_lem_example :
    (count 1 (check_and_dispose 20 one_object).disposed
      ≡ count 1 one_object.disposed + one_if (is_due 20 (lookup 1 one_object.objs)))
    × (lookup 1 (check_and_dispose 20 one_object).objs
        ≡ (if is_due 20 (lookup 1 one_object.objs) then none else lookup 1 one_object.objs))
check_and_dispose_lem_example = check_and_dispose_lem 20 one_object 1 one_object-Distinct
