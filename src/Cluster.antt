-- ===== src/Cluster.antt =====
-- cluster/cluster.go: the registry that the node is given to, and the scan for the back ends.
use silvernode_go.Common.{
  Bool, Option, none, some, List, [], ◌∷◌, ltb, if◌then◌else◌, Run, ret, panic, ◌>>=◌, length, ◌==◌,
  Bytes, nat_eq, bytes_eq, Attempt, went, broke,
}
use silvernode_go.Ctx.NodeInfo.{NodeInfo}
pub mod Etcd
pub mod Consul
pub mod Nacos
pub mod Tests

-- `IRegistry`, over a state of the type `S` that the registry keeps: each operation may panic, and
-- gives its error as a text.
pub record Registry (U S : Type 0) : Type 0 where
  pub reg_node_info : NodeInfo U → S → Run (Option Bytes × S)
  pub get_node_by_id : Bytes → S → Run (Attempt (NodeInfo U))
  pub select_nodes_by_name : Bytes → S → Run (Attempt (List (NodeInfo U)))
  pub check_node_sig : Bytes → Bytes → S → Run (Attempt Bool)

-- YAML's texts of a type
pub record Yaml (A : Type 0) : Type 0 where
  pub marshal : A → Attempt Bytes
  pub unmarshal : Bytes → Attempt A

module _ {U : Type 0} where
  abbrev pub one_more :
      Attempt (NodeInfo U) → Attempt (List (NodeInfo U)) → Attempt (List (NodeInfo U))
  one_more (broke err) rest = broke err
  one_more (went n) (broke err) = broke err
  one_more (went n) (went ns) = went (n ∷ ns)

  abbrev pub same_sig : Bytes → Attempt (NodeInfo U) → Attempt Bool
  same_sig sig (broke err) = broke err
  same_sig sig (went n) = went (n.sig == sig)

-- The rest of a list is read where a node was.
abbrev pub read_on :
    {U : Type 0}
    → Attempt (NodeInfo U)
    → Run (Attempt (List (NodeInfo U)))
    → Run (Attempt (List (NodeInfo U)))
read_on (broke err) rest = ret (broke err)
read_on (went n) rest = rest >>= λ ns. ret (one_more (went n) ns)

-- The kinds of registry
pub data Kind : Type 0 where
  consul : Kind
  etcd : Kind
  nacos : Kind

-- "consul", "etcd" and "nacos"
abbrev pub consul_name : Bytes
consul_name = b'c' ∷ b'o' ∷ b'n' ∷ b's' ∷ b'u' ∷ b'l' ∷ []

abbrev pub etcd_name : Bytes
etcd_name = b'e' ∷ b't' ∷ b'c' ∷ b'd' ∷ []

abbrev pub nacos_name : Bytes
nacos_name = b'n' ∷ b'a' ∷ b'c' ∷ b'o' ∷ b's' ∷ []

-- `CreateRegistry`, given the error of each kind's Install, if any; none for an unknown type.
unfoldable pub create_registry : (Kind → Option Bytes) → Bytes → Option (Kind × Option Bytes)
create_registry install text =
    if text == consul_name
    then some (consul, install consul)
    else if text == etcd_name
    then some (etcd, install etcd)
    else if text == nacos_name
    then some (nacos, install nacos)
    else none

module _ {U S : Type 0} (registry : Registry U S) where
  -- `Serve`: the error of the registration, and otherwise whether the scanning starts
  abbrev pub after_reg : NodeInfo U → Option Bytes × S → Attempt Bool × S
  after_reg n (some err, s) = (broke err, s)
  after_reg n (none, s) = (went (ltb 0 (length n.back_ends)), s)

  unfoldable pub serve : NodeInfo U → S → Run (Attempt Bool × S)
  serve n s = registry.reg_node_info n s >>= λ r. ret (after_reg n r)

  -- A round of `nodeScanning`: what OnScanning is handed for each back end in turn.
  unfoldable pub node_scanning : List Bytes → S → Run (List (Attempt (List (NodeInfo U))))
  node_scanning [] s = ret []
  node_scanning (back ∷ backs) s =
      let rest = node_scanning backs s in
      registry.select_nodes_by_name back s >>= λ found. (rest >>= λ more. ret (found ∷ more))
