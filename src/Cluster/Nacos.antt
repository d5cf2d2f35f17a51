-- ===== src/Cluster/Nacos.antt =====
-- cluster/nacos.go: the registry over the two clients of nacos. The clients and YAML are parameters.
-- `errutil.Extend` of a nil error panics.
use silvernode_go.Common.{
  ℕ, Bool, true, false, ◌&&◌, Option, none, some, List, [], ◌∷◌, if◌then◌else◌, Run, ret, panic,
  ◌>>=◌, ◌==◌, Bytes, nat_eq, bytes_eq, Attempt, went, broke,
}
use silvernode_go.Stl.GoMap.{GoMap, lookup}
use silvernode_go.Netutil.{
  UrlInfo, illegal_url, illegal_address, illegal_port, url_info, parse_url_info,
}
use silvernode_go.Nets.Connect.{node_name}
use silvernode_go.Ctx.NodeInfo.{NodeInfo}
use silvernode_go.Cluster.{Registry, Yaml, same_sig, read_on}

-- An instance of a service
pub record Instance : Type 0 where
  pub ip : Bytes
  pub port : ℕ
  pub service_name : Bytes
  pub group_name : Bytes
  pub healthy : Bool
  pub metadata : GoMap Bytes Bytes

-- `register_instance` gives whether it worked, or an error; `select_instances` of a service and a group
-- gives the healthy ones; the last three are of the client of configurations, with a key and a group.
pub record Client (S : Type 0) : Type 0 where
  pub register_instance : Instance → S → Attempt Bool × S
  pub select_instances : Bytes → Bytes → S → Attempt (List Instance)
  pub publish_config : Bytes → Bytes → Bytes → S → Option Bytes × S
  pub read_config : Bytes → Bytes → S → Attempt Bytes
  pub delete_config : Bytes → Bytes → S → Option Bytes × S

-- "nodeid" and "info"
abbrev pub node_id_key : Bytes
node_id_key = b'n' ∷ b'o' ∷ b'd' ∷ b'e' ∷ b'i' ∷ b'd' ∷ []

abbrev pub info_key : Bytes
info_key = b'i' ∷ b'n' ∷ b'f' ∷ b'o' ∷ []

-- "DEFAULT_GROUP"
abbrev pub default_group : Bytes
default_group =
    b'D' ∷ b'E' ∷ b'F' ∷ b'A' ∷ b'U' ∷ b'L' ∷ b'T' ∷ 95 ∷ b'G' ∷ b'R' ∷ b'O' ∷ b'U' ∷ b'P' ∷ []

module _ {S : Type 0} (client : Client S) (space : Bytes) where
  module _ {U : Type 0} (yaml : Yaml (NodeInfo U)) where
    abbrev pub instance_of : NodeInfo U → Bytes → Bytes → Instance
    instance_of n ip text = record {
      ip = ip;
      port = n.main_port;
      service_name = n.name;
      group_name = space;
      healthy = true;
      metadata = (node_id_key, n.node_id) ∷ ((info_key, text) ∷ []);
    }

    abbrev pub after_register : Attempt Bool × S → Option Bytes × S
    after_register (broke err, s) = (some err, s)
    after_register (went true, s) = (none, s)
    after_register (went false, s) = (some [], s)

    abbrev pub reg_text : NodeInfo U → Bytes → S → Attempt Bytes → Option Bytes × S
    reg_text n ip s (broke err) = (some err, s)
    reg_text n ip s (went text) =
        after_register (client.register_instance (instance_of n ip text) s)

    abbrev pub reg_url : NodeInfo U → S → UrlInfo → Option Bytes × S
    reg_url n s illegal_url = (some [], s)
    reg_url n s illegal_address = (some [], s)
    reg_url n s illegal_port = (some [], s)
    reg_url n s (url_info proto ip port) = reg_text n ip s (yaml.marshal n)

    abbrev pub reg_first : NodeInfo U → S → List Bytes → Run (Option Bytes × S)
    reg_first n s [] = panic
    reg_first n s (ep ∷ eps) = ret (reg_url n s (parse_url_info ep))

    -- `RegNodeInfo`
    unfoldable pub reg_node_info : NodeInfo U → S → Run (Option Bytes × S)
    unfolding parse_url_info
    reg_node_info n s = reg_first n s n.end_points

    abbrev pub read_info : Option Bytes → Run (Attempt (NodeInfo U))
    read_info none = panic
    read_info (some text) = ret (yaml.unmarshal text)

    -- One instance in the loop of `GetNodeById`, with what the rest of the loop gives
    abbrev pub read_instance :
        Bytes → Instance → Option Bytes → Run (Attempt (NodeInfo U)) → Run (Attempt (NodeInfo U))
    read_instance node_id i none rest = panic
    read_instance node_id i (some found) rest =
        if node_id == found && i.healthy then read_info (lookup info_key i.metadata) else rest

    unfoldable pub find_instance : Bytes → List Instance → Run (Attempt (NodeInfo U))
    unfolding lookup
    find_instance node_id [] = ret (broke [])
    find_instance node_id (i ∷ is) =
        let rest = find_instance node_id is in
        read_instance node_id i (lookup node_id_key i.metadata) rest

    abbrev pub find_found : Bytes → Attempt (List Instance) → Run (Attempt (NodeInfo U))
    find_found node_id (broke err) = ret (broke err)
    find_found node_id (went is) = find_instance node_id is

    -- `GetNodeById`
    unfoldable pub get_node_by_id : Bytes → S → Run (Attempt (NodeInfo U))
    unfolding find_instance
    get_node_by_id node_id s =
        find_found node_id (client.select_instances (node_name node_id) space s)

    -- The loop of `SelectNodesByName`
    unfoldable pub read_all : List Instance → Run (Attempt (List (NodeInfo U)))
    unfolding lookup
    read_all [] = ret (went [])
    read_all (i ∷ is) =
        let rest = read_all is in read_info (lookup info_key i.metadata) >>= λ r. read_on r rest

    abbrev pub read_found : Attempt (List Instance) → Run (Attempt (List (NodeInfo U)))
    read_found (broke err) = ret (broke err)
    read_found (went is) = read_all is

    unfoldable pub select_nodes_by_name : Bytes → S → Run (Attempt (List (NodeInfo U)))
    unfolding read_all
    select_nodes_by_name name s = read_found (client.select_instances name space s)

    -- `CheckNodeSig`
    unfoldable pub check_node_sig : Bytes → Bytes → S → Run (Attempt Bool)
    unfolding get_node_by_id
    check_node_sig node_id sig s = get_node_by_id node_id s >>= λ r. ret (same_sig sig r)

    -- The registry that nacos is
    abbrev pub nacos_registry : Registry U S
    nacos_registry = record {
      reg_node_info = reg_node_info;
      get_node_by_id = get_node_by_id;
      select_nodes_by_name = select_nodes_by_name;
      check_node_sig = check_node_sig;
    }

  module _ {A : Type 0} (yaml : Yaml A) where
    abbrev pub publish_text : Bytes → S → Attempt Bytes → Option Bytes × S
    publish_text key s (broke err) = (some err, s)
    publish_text key s (went text) = client.publish_config key default_group text s

    -- `SetConfig` and `GetConfig`, with the default group, and `DelConfig`, without one
    unfoldable pub set_config : Bytes → A → S → Option Bytes × S
    set_config key val s = publish_text key s (yaml.marshal val)

    abbrev pub read_config_text : Attempt Bytes → Attempt A
    read_config_text (broke err) = broke err
    read_config_text (went text) = yaml.unmarshal text

    unfoldable pub get_config : Bytes → S → Attempt A
    get_config key s = read_config_text (client.read_config key default_group s)

  unfoldable pub del_config : Bytes → S → Option Bytes × S
  del_config key s = client.delete_config key [] s
