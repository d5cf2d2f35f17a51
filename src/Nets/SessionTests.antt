-- ===== src/Nets/SessionTests.antt =====
-- The connect manager and the sessions at concrete inputs.
use silvernode_go.Common.{◌≡◌, refl, Option, none, some, [], ◌∷◌, arith, Bytes, nat_eq, bytes_eq}
use silvernode_go.Stl.GoMap.{lookup, insert}
use silvernode_go.Nets.Connect.{
  ConnectInfo, ConnectManager, new_connect_info, new_connect_manager, add_connect_info,
  get_node_id_by_conn, get_nodes, node_name, get_connect_info, kv_of, put_info,
}
use silvernode_go.Strings.{split}
use silvernode_go.Nets.Connect.View.{find}
use silvernode_go.Nets.Origin.{
  combine_origin_info, parse_origin_info, origin_info, parse_origin_info-combine_origin_info,
}
use silvernode_go.Nets.Session.{World, new_world, connected, failed, eof}
use silvernode_go.Nets.Session.Steps.{IsSound, Reachable, start, next, connect, fail}
use silvernode_go.Nets.Session.Sound.{sessions-IsSound}

-- "chat#1" on connection 7, and the same name on connection 8.
abbrev chat : Bytes
chat = b'c' ∷ b'h' ∷ b'a' ∷ b't' ∷ 35 ∷ b'1' ∷ []

abbrev first : ConnectInfo
first = new_connect_info chat [] [] 7 0 0

abbrev again : ConnectInfo
again = new_connect_info chat [] [] 8 0 0

abbrev one : ConnectManager
one = (add_connect_info first new_connect_manager).1

nodes_of_chat : get_nodes (b'c' ∷ b'h' ∷ b'a' ∷ b't' ∷ []) one ≡ chat ∷ []
unfolding get_nodes add_connect_info new_connect_manager put_info get_connect_info kv_of node_name
    split lookup insert new_connect_info
nodes_of_chat = refl

abbrev served : World
served = failed (some 7) eof (connected again (connected first new_world))

served-Reachable : Reachable served
served-Reachable =
    next (connected again (connected first new_world)) served
      (next (connected first new_world) (connected again (connected first new_world))
        (next new_world (connected first new_world) start (connect first new_world))
        (connect again (connected first new_world)))
      (fail (some 7) eof (connected again (connected first new_world)))

sessions-IsSound_example : IsSound served
sessions-IsSound_example = sessions-IsSound served served-Reachable

abbrev busy : World
busy = connected first new_world

busy_node : find again.node_id busy.manager ≡ some first
unfolding connected new_world add_connect_info new_connect_manager put_info get_connect_info kv_of
    node_name split lookup insert new_connect_info
busy_node = refl

free_conn : get_node_id_by_conn again.conn busy.manager ≡ none
unfolding connected new_world add_connect_info new_connect_manager put_info get_connect_info kv_of
    node_name split lookup insert new_connect_info get_node_id_by_conn
free_conn = refl

-- A URL package that finds the host "h" in whatever it is given.
abbrev always_h : Bytes → Option Bytes
always_h text = some (b'h' ∷ [])

parse_origin_info-combine_origin_info_example :
    parse_origin_info always_h (combine_origin_info chat (b'w' ∷ b'/' ∷ b'h' ∷ []) (b's' ∷ []))
    ≡ origin_info chat (b'h' ∷ []) (b's' ∷ [])
parse_origin_info-combine_origin_info_example =
    parse_origin_info-combine_origin_info always_h chat (b'w' ∷ b'/' ∷ b'h' ∷ []) (b's' ∷ [])
      (b'h' ∷ []) (omega arith) (omega arith) (omega arith) refl
