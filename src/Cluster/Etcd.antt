-- ===== src/Cluster/Etcd.antt =====
-- cluster/etcd.go: the registry over a client of etcd. The client, its leases and YAML are parameters;
-- the texts of errors are left out but for the client's.
use silvernode_go.Common.{
  Bool, Option, none, some, List, [], ◌∷◌, ◌++◌, if◌then◌else◌, ret, ◌==◌, Bytes, nat_eq, bytes_eq,
  Attempt, went, broke,
}
use silvernode_go.Nets.Connect.{node_name}
use silvernode_go.Ctx.NodeInfo.{NodeInfo}
use silvernode_go.Cluster.{Registry, Yaml, one_more, same_sig}
pub mod Registered

-- What the program uses of the client, over its state: `put` of a key, with the error if any, the pairs
-- of a key and of the keys with a prefix, and `delete`.
pub record Client (S : Type 0) : Type 0 where
  pub put : Bytes → Bytes → S → Option Bytes × S
  pub get : Bytes → S → Attempt (List (Bytes × Bytes))
  pub get_prefix : Bytes → S → Attempt (List (Bytes × Bytes))
  pub delete : Bytes → S → Option Bytes × S

-- "/Services/" and "/KeyValues/"
abbrev pub services : Bytes
services = 47 ∷ b'S' ∷ b'e' ∷ b'r' ∷ b'v' ∷ b'i' ∷ b'c' ∷ b'e' ∷ b's' ∷ 47 ∷ []

abbrev pub key_values : Bytes
key_values = 47 ∷ b'K' ∷ b'e' ∷ b'y' ∷ b'V' ∷ b'a' ∷ b'l' ∷ b'u' ∷ b'e' ∷ b's' ∷ 47 ∷ []

abbrev pub svc_path : Bytes → Bytes
svc_path space = space ++ services

abbrev pub kvs_path : Bytes → Bytes
kvs_path space = space ++ key_values

-- The path of a node of a name
abbrev pub node_path : Bytes → Bytes → Bytes → Bytes
node_path space name node_id = svc_path space ++ (name ++ (47 ∷ node_id))

-- The first value under exactly this key
unfoldable pub value_at : Bytes → List (Bytes × Bytes) → Option Bytes
value_at path [] = none
value_at path ((key, value) ∷ kvs) =
    let rest = value_at path kvs in if key == path then some value else rest

module _ {S : Type 0} (client : Client S) (space : Bytes) where
  module _ {A : Type 0} (yaml : Yaml A) where
    abbrev pub read_value : Option Bytes → Attempt A
    read_value none = broke []
    read_value (some text) = yaml.unmarshal text

    abbrev pub read_kvs : Bytes → Attempt (List (Bytes × Bytes)) → Attempt A
    read_kvs path (broke err) = broke err
    read_kvs path (went kvs) = read_value (value_at path kvs)

    abbrev pub put_text : Bytes → S → Attempt Bytes → Option Bytes × S
    put_text path s (broke err) = (some err, s)
    put_text path s (went text) = client.put path text s

    -- `SetConfig`, `GetConfig`, `DelConfig`
    unfoldable pub set_config : Bytes → A → S → Option Bytes × S
    set_config key val s = put_text (kvs_path space ++ key) s (yaml.marshal val)

    unfoldable pub get_config : Bytes → S → Attempt A
    unfolding value_at
    get_config key s = read_kvs (kvs_path space ++ key) (client.get (kvs_path space ++ key) s)

  unfoldable pub del_config : Bytes → S → Option Bytes × S
  del_config key s = client.delete (kvs_path space ++ key) s

  module _ {U : Type 0} (yaml : Yaml (NodeInfo U)) where
    -- The errors of the lease and of keeping it alive, if any, in turn
    abbrev pub with_lease : NodeInfo U → S → Option Bytes → Option Bytes → Bytes → Option Bytes × S
    with_lease n s (some err) kept text = (some err, s)
    with_lease n s none (some err) text = (some err, s)
    with_lease n s none none text = client.put (node_path space n.name n.node_id) text s

    abbrev pub reg_text :
        NodeInfo U → S → Option Bytes → Option Bytes → Attempt Bytes → Option Bytes × S
    reg_text n s granted kept (broke err) = (some err, s)
    reg_text n s granted kept (went text) = with_lease n s granted kept text

    -- `RegNodeInfo`
    unfoldable pub reg_node_info : Option Bytes → Option Bytes → NodeInfo U → S → Option Bytes × S
    reg_node_info granted kept n s = reg_text n s granted kept (yaml.marshal n)

    -- `GetNodeById`
    unfoldable pub get_node_by_id : Bytes → S → Attempt (NodeInfo U)
    unfolding value_at
    get_node_by_id node_id s =
        read_kvs yaml (node_path space (node_name node_id) node_id)
          (client.get (node_path space (node_name node_id) node_id) s)

    unfoldable pub read_all : List (Bytes × Bytes) → Attempt (List (NodeInfo U))
    read_all [] = went []
    read_all ((key, value) ∷ kvs) = one_more (yaml.unmarshal value) (read_all kvs)

    abbrev pub read_found : Attempt (List (Bytes × Bytes)) → Attempt (List (NodeInfo U))
    read_found (broke err) = broke err
    read_found (went kvs) = read_all kvs

    -- `SelectNodesByName`
    unfoldable pub select_nodes_by_name : Bytes → S → Attempt (List (NodeInfo U))
    unfolding read_all
    select_nodes_by_name name s =
        read_found (client.get_prefix (svc_path space ++ (name ++ (47 ∷ []))) s)

    -- `CheckNodeSig`
    unfoldable pub check_node_sig : Bytes → Bytes → S → Attempt Bool
    unfolding get_node_by_id
    check_node_sig node_id sig s = same_sig sig (get_node_by_id node_id s)

    -- The registry that etcd is, with the answers of its leases
    abbrev pub etcd_registry : Option Bytes → Option Bytes → Registry U S
    etcd_registry granted kept = record {
      reg_node_info = λ n s. ret (reg_node_info granted kept n s);
      get_node_by_id = λ node_id s. ret (get_node_by_id node_id s);
      select_nodes_by_name = λ name s. ret (select_nodes_by_name name s);
      check_node_sig = λ node_id sig s. ret (check_node_sig node_id sig s);
    }
