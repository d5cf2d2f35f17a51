-- ===== src/Cluster/Tests.antt =====
-- cluster at concrete inputs: a store that is a list of pairs, and one node that YAML writes as "y".
use silvernode_go.Common.{
  ℕ, ◌≡◌, refl, ap, ◌≢◌, inl, inr, true, false, Option, none, some, List, [], ◌∷◌, Bool-cases, pos,
  ◌==◌, Bytes, ==_refl, nat_eq, bytes_eq, bytes_beq_iff, went,
}
use mathlib.Core.Path.{subst}
use silvernode_go.Strings.{split}
use silvernode_go.Stl.GoMap.{GoMap, lookup, insert, lookup-insert}
use silvernode_go.Nets.Connect.{node_name}
use silvernode_go.Ctx.NodeInfo.{NodeInfo}
use silvernode_go.Cluster.{Yaml}
use silvernode_go.Cluster.Etcd.{Client, node_path, reg_node_info, get_node_by_id, check_node_sig}
use silvernode_go.Cluster.Etcd.Registered.{IsStore, registered_is_found}

abbrev chat_node : NodeInfo ℕ
chat_node = record {
  node_id = b'c' ∷ 35 ∷ b'1' ∷ [];
  name = b'c' ∷ [];
  end_points = [];
  is_pub = false;
  back_ends = [];
  log_level = pos 0;
  main_port = 80;
  metrics = true;
  sig = b's' ∷ [];
  usr_datas = [];
}

abbrev node_yaml : Yaml (NodeInfo ℕ)
node_yaml = record { marshal = λ n. went (b'y' ∷ []); unmarshal = λ text. went chat_node }

abbrev pairs_of : Bytes → Option Bytes → List (Bytes × Bytes)
pairs_of key none = []
pairs_of key (some value) = (key, value) ∷ []

abbrev a_store : Client (GoMap Bytes Bytes)
a_store = record {
  put = λ key value s. (none, insert key value s);
  get = λ key s. went (pairs_of key (lookup key s));
  get_prefix = λ prefix s. went [];
  delete = λ key s. (none, s);
}

stored :
    (s t s' : GoMap Bytes Bytes)
    → ◌≡◌ {A = Option Bytes × GoMap Bytes Bytes} (none, t) (none, s')
    → t ≡ s'
stored s t s' e = ap (λ x. x.1) e

other_key : (key other : Bytes) → key ≢ other → (key == other) ≡ false
other_key key other differs = elim (Bool-cases (key == other)) [
  | inl h ↦ absurd (differs ((bytes_beq_iff key other).0 h))
  | inr h ↦ h
]

a_store-IsStore : IsStore a_store
a_store-IsStore = record {
  get_put = λ key value s s' e.
      subst
        (λ (t : GoMap Bytes Bytes). went (pairs_of key (lookup key t)) ≡ went ((key, value) ∷ []))
        (stored s (insert key value s) s' e) (rw (lookup-insert key key value s, ==_refl key) refl);
  get_other = λ key other value s s' e differs.
      subst
        (λ (t : GoMap Bytes Bytes).
          went (pairs_of other (lookup other t)) ≡ went (pairs_of other (lookup other s)))
        (stored s (insert key value s) s' e)
        (rw (lookup-insert key other value s, other_key key other differs) refl);
}

abbrev path : Bytes
path = node_path [] (b'c' ∷ []) (b'c' ∷ 35 ∷ b'1' ∷ [])

-- The store with the node
abbrev with_node : GoMap Bytes Bytes
with_node = insert path (b'y' ∷ []) []

chat-name : node_name chat_node.node_id ≡ chat_node.name
unfolding node_name split
chat-name = refl

chat-registered : reg_node_info a_store [] node_yaml none none chat_node [] ≡ (none, with_node)
unfolding reg_node_info
chat-registered = refl

registered_is_found_example :
    (get_node_by_id a_store [] node_yaml chat_node.node_id with_node ≡ went chat_node)
    × ((sig : Bytes)
        → check_node_sig a_store [] node_yaml chat_node.node_id sig with_node
          ≡ went (chat_node.sig == sig))
    × ((key value : Bytes) (s'' : GoMap Bytes Bytes)
        → a_store.put key value with_node ≡ (none, s'')
        → key ≢ node_path [] chat_node.name chat_node.node_id
        → (get_node_by_id a_store [] node_yaml chat_node.node_id s'' ≡ went chat_node)
          × ((sig : Bytes)
              → check_node_sig a_store [] node_yaml chat_node.node_id sig s''
                ≡ went (chat_node.sig == sig)))
registered_is_found_example =
    registered_is_found a_store [] a_store-IsStore node_yaml none none chat_node [] with_node
      (λ text e. refl) chat-name chat-registered
