-- ===== src/Nets/Connect/Edits.antt =====
-- nets/connect.go: what adding and removing change for the lookups.
use silvernode_go.Common.{
  ℕ, ◌≡◌, refl, sym, ap, ◌∙◌, inl, inr, Bool, true, false, not, ◌&&◌, ◌||◌, none, some, arith,
  if◌then◌else◌, Bool-cases, Option-cases, is_some, ◌==◌, Bytes, nat_eq, bytes_eq, bytes_beq_iff,
}
use silvernode_go.Stl.GoMap.{GoMap, lookup, insert, delete, has, lookup-insert, lookup-delete}
use silvernode_go.Nets.Connect.{
  ConnectInfo, ConnectManager, node_name, put_info, drop_info, get_connect_info, add_connect_info,
  remove_connect_info, drop_conn, get_node_id_by_conn,
}
use silvernode_go.Nets.Connect.View.{
  find, find_lem, same_find, find-made, find-put_info, find-drop_info, vk-get_connect_info,
  vk-put_info, vk-drop_info,
}

-- `AddConnectInfo` refuses.
abbrev pub taken : ConnectInfo → ConnectManager → Bool
taken info c = is_some (find info.node_id c) || has info.conn c.vk

find-vk :
    (j : Bytes) (v : GoMap ℕ Bytes) (c : ConnectManager) → find j (record c { vk = v }) ≡ find j c
find-vk j v c = find_lem j (record c { vk = v }) ∙ sym (find_lem j c)

add_taken :
    (info : ConnectInfo) (c : ConnectManager)
    → taken info c ≡ true
    → add_connect_info info c ≡ (none, (get_connect_info info.node_id c).1)
unfolding add_connect_info
add_taken info c h = rw (vk-get_connect_info info.node_id c, h)

abbrev registered : ConnectInfo → ConnectManager → ConnectManager
registered info c =
    put_info (node_name info.node_id) info.node_id info (get_connect_info info.node_id c).1

add_free :
    (info : ConnectInfo) (c : ConnectManager)
    → taken info c ≡ false
    → add_connect_info info c ≡ (
      some info,
      record (registered info c) { vk = insert info.conn info.node_id (registered info c).vk },
    )
unfolding add_connect_info
add_free info c h = rw (vk-get_connect_info info.node_id c, h)

find-registered :
    (info : ConnectInfo) (c : ConnectManager) (j : Bytes)
    → find j (registered info c) ≡ (if info.node_id == j then some info else find j c)
find-registered info c j =
    find-put_info j info.node_id info (get_connect_info info.node_id c).1
    ∙ rw (find-made j info.node_id c)

vk-registered : (info : ConnectInfo) (c : ConnectManager) → (registered info c).vk ≡ c.vk
vk-registered info c =
    vk-put_info (node_name info.node_id) info.node_id info (get_connect_info info.node_id c).1
    ∙ vk-get_connect_info info.node_id c

-- `AddConnectInfo` answers with an error exactly when the node or the connection is registered
-- already, and then changes nothing that the manager answers; otherwise it registers the node and
-- the connection, and nothing else changes.
pub add_connect_info_lem :
    (info : ConnectInfo) (c : ConnectManager)
    → ((add_connect_info info c).0 ≡ (if taken info c then none else some info))
      × ((j : Bytes)
          → find j (add_connect_info info c).1
            ≡ (if not (taken info c) && (info.node_id == j) then some info else find j c))
      × ((k : ℕ)
          → get_node_id_by_conn k (add_connect_info info c).1 ≡ (
              if not (taken info c) && (info.conn == k)
              then some info.node_id
              else get_node_id_by_conn k c))
unfolding get_node_id_by_conn
add_connect_info_lem info c = elim (Bool-cases (taken info c)) [
  | inl h ↦
      rw (add_taken info c h, h)
        (
          refl,
          λ j. find-made j info.node_id c,
          λ k. ap (lookup k) (vk-get_connect_info info.node_id c),
        )
  | inr h ↦
      rw (add_free info c h, h)
        (
          refl,
          λ j. find-vk j _ (registered info c) ∙ find-registered info c j,
          λ k.
              lookup-insert info.conn k info.node_id (registered info c).vk
              ∙ rw (vk-registered info c),
        )
]

find-drop_conn : (j : Bytes) (conn : ℕ) (c : ConnectManager) → find j (drop_conn conn c) ≡ find j c
find-drop_conn j conn c = elim (Bool-cases (has conn c.vk)) [
  | inl h ↦ rw h (find-vk j (delete conn c.vk) c)
  | inr h ↦ rw h refl
]

lookup-drop_conn :
    (k conn : ℕ) (c : ConnectManager)
    → lookup k (drop_conn conn c).vk ≡ (if conn == k then none else lookup k c.vk)
lookup-drop_conn k conn c = ground (arith, lookup-delete conn k c.vk)

abbrev without : Bytes → ConnectManager → ConnectManager
without i c =
    if is_some (find i c)
    then drop_info (node_name i) i (get_connect_info i c).1
    else (get_connect_info i c).1

find-without :
    (j i : Bytes) (c : ConnectManager) → find j (without i c) ≡ (if i == j then none else find j c)
find-without j i c = elim (Option-cases (find i c)) [
  | inl h ↦ rw (h, find-made j i c) (ground (arith, bytes_beq_iff i j, h, same_find i j c))
  | inr (info, h) ↦ rw (h, find-drop_info j i (get_connect_info i c).1, find-made j i c) refl
]

vk-without : (i : Bytes) (c : ConnectManager) → (without i c).vk ≡ c.vk
vk-without i c =
    ground (arith, vk-get_connect_info i c, vk-drop_info (node_name i) i (get_connect_info i c).1)

-- `RemoveConnectInfo` forgets the node and the connection it is given, and nothing else.
pub remove_connect_info_lem :
    (i : Bytes) (conn : ℕ) (c : ConnectManager)
    → ((j : Bytes) → find j (remove_connect_info i conn c) ≡ (if i == j then none else find j c))
      × ((k : ℕ)
          → get_node_id_by_conn k (remove_connect_info i conn c)
            ≡ (if conn == k then none else get_node_id_by_conn k c))
unfolding get_node_id_by_conn remove_connect_info
remove_connect_info_lem i conn c = (
  λ j. find-drop_conn j conn (without i c) ∙ find-without j i c,
  λ k. lookup-drop_conn k conn (without i c) ∙ rw (vk-without i c) refl,
)
