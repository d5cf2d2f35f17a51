-- ===== src/Nets/Connect/View.antt =====
-- nets/connect.go: the manager as two lookups, and what each method does to them.
use silvernode_go.Common.{
  ℕ, ◌≡◌, sym, ap, ◌∙◌, Option, none, some, [], arith, if◌then◌else◌, ◌==◌, Bytes, nat_eq, bytes_eq,
  bytes_beq_iff,
}
use silvernode_go.Stl.GoMap.{GoMap, lookup, insert, delete, lookup-insert, lookup-delete}
use silvernode_go.Nets.Connect.{
  ConnectInfo, ConnectManager, new_connect_manager, or_empty, node_name, kv_of, put_info, drop_info,
  get_connect_info,
}

abbrev infos_of : Bytes → ConnectManager → GoMap Bytes ConnectInfo
infos_of name c = or_empty (lookup name c.kv)

kv_of-infos : (name : Bytes) (c : ConnectManager) → (kv_of name c).0 ≡ infos_of name c
unfolding kv_of
kv_of-infos name c = ground (arith, lookup-insert name name [] c.kv, bytes_beq_iff name name)

infos_of-kv_of :
    (name other : Bytes) (c : ConnectManager) → infos_of other (kv_of name c).1 ≡ infos_of other c
unfolding kv_of
infos_of-kv_of name other c =
    ground (arith, lookup-insert name other [] c.kv, bytes_beq_iff name other)

vk-kv_of : (name : Bytes) (c : ConnectManager) → (kv_of name c).1.vk ≡ c.vk
unfolding kv_of
vk-kv_of name c = ground arith

-- `GetConnectInfo`'s answer.
abbrev pub find : Bytes → ConnectManager → Option ConnectInfo
find node_id c = (get_connect_info node_id c).0

-- The connection of a node.
abbrev pub conn_of_info : Option ConnectInfo → Option ℕ
conn_of_info none = none
conn_of_info (some info) = some info.conn

abbrev pub conn_of : Bytes → ConnectManager → Option ℕ
conn_of node_id c = conn_of_info (find node_id c)

pub find_lem : (j : Bytes) (c : ConnectManager) → find j c ≡ lookup j (infos_of (node_name j) c)
unfolding get_connect_info
find_lem j c = ap (lookup j) (kv_of-infos (node_name j) c)

pub same_find : (i j : Bytes) (c : ConnectManager) → i ≡ j → find i c ≡ find j c
same_find i j c e = ap (λ n. find n c) e

pub find-new : (j : Bytes) → find j new_connect_manager ≡ none
unfolding new_connect_manager lookup
find-new j = find_lem j new_connect_manager

pub find-made : (j i : Bytes) (c : ConnectManager) → find j (get_connect_info i c).1 ≡ find j c
unfolding get_connect_info
find-made j i c =
    find_lem j (kv_of (node_name i) c).1
    ∙ (ap (lookup j) (infos_of-kv_of (node_name i) (node_name j) c) ∙ sym (find_lem j c))

infos_of-put_info :
    (name other i : Bytes) (info : ConnectInfo) (c : ConnectManager)
    → infos_of other (put_info name i info c)
      ≡ (if name == other then insert i info (infos_of name c) else infos_of other c)
unfolding put_info
infos_of-put_info name other i info c = ground (
  arith,
  lookup-insert name other (insert i info (kv_of name c).0) (kv_of name c).1.kv,
  kv_of-infos name c,
  infos_of-kv_of name other c,
)

infos_of-drop_info :
    (name other i : Bytes) (c : ConnectManager)
    → infos_of other (drop_info name i c)
      ≡ (if name == other then delete i (infos_of name c) else infos_of other c)
unfolding drop_info
infos_of-drop_info name other i c = ground (
  arith,
  lookup-insert name other (delete i (kv_of name c).0) (kv_of name c).1.kv,
  kv_of-infos name c,
  infos_of-kv_of name other c,
)

same_name : (i j : Bytes) → i ≡ j → node_name i ≡ node_name j
same_name i j e = ap node_name e

pub find-put_info :
    (j i : Bytes) (info : ConnectInfo) (c : ConnectManager)
    → find j (put_info (node_name i) i info c) ≡ (if i == j then some info else find j c)
find-put_info j i info c =
    rw
      (
        find_lem j (put_info (node_name i) i info c),
        find_lem j c,
        infos_of-put_info (node_name i) (node_name j) i info c,
      )
      (ground (
        arith,
        bytes_beq_iff i j,
        bytes_beq_iff (node_name i) (node_name j),
        same_name i j,
        lookup-insert i j info (infos_of (node_name i) c),
      ))

pub find-drop_info :
    (j i : Bytes) (c : ConnectManager)
    → find j (drop_info (node_name i) i c) ≡ (if i == j then none else find j c)
find-drop_info j i c =
    rw
      (
        find_lem j (drop_info (node_name i) i c),
        find_lem j c,
        infos_of-drop_info (node_name i) (node_name j) i c,
      )
      (ground (
        arith,
        bytes_beq_iff i j,
        bytes_beq_iff (node_name i) (node_name j),
        same_name i j,
        lookup-delete i j (infos_of (node_name i) c),
      ))

pub vk-get_connect_info : (i : Bytes) (c : ConnectManager) → (get_connect_info i c).1.vk ≡ c.vk
unfolding get_connect_info
vk-get_connect_info i c = vk-kv_of (node_name i) c

pub vk-put_info :
    (name i : Bytes) (info : ConnectInfo) (c : ConnectManager) → (put_info name i info c).vk ≡ c.vk
unfolding put_info
vk-put_info name i info c = vk-kv_of name c

pub vk-drop_info : (name i : Bytes) (c : ConnectManager) → (drop_info name i c).vk ≡ c.vk
unfolding drop_info
vk-drop_info name i c = vk-kv_of name c
