-- ===== src/Node/Tests.antt =====
-- silvernode.go at concrete inputs.
use silvernode_go.Common.{
  ◌≡◌, refl, ◌⊎◌, Bool, true, false, Option, some, [], ◌∷◌, ◌==◌, Bytes, nat_eq, bytes_eq,
}
use silvernode_go.Strings.{split, has_prefix}
use silvernode_go.Stl.GoMap.{lookup, insert}
use silvernode_go.Nets.Connect.{new_connect_manager, get_connect_info, kv_of, node_name}
use silvernode_go.Nets.Origin.{origin_info, parse_origin_info, parse_query, assign_all}
use silvernode_go.Node.{admitted, guest_prefix, on_check_node, is_guest}
use silvernode_go.Node.Admission.{Unknown, Verified, on_check_node-Verified}

abbrev pub always_h : Bytes → Option Bytes
always_h text = some (b'h' ∷ [])

-- A registry that confirms the signature "s" and no other.
abbrev pub registry : Bytes → Bytes → Option Bool
registry node_id sig = some (sig == (b's' ∷ []))

abbrev pub chat : Bytes
chat = b'c' ∷ 35 ∷ b'1' ∷ []

abbrev pub known : Bytes
known =
    b'h' ∷ 63 ∷ b'n' ∷ b'o' ∷ b'd' ∷ b'e' ∷ 61 ∷ b'c' ∷ 35 ∷ b'1' ∷ 38 ∷ b's' ∷ b'i' ∷ b'g' ∷ 61
    ∷ b's' ∷ []

pub known_parses : parse_origin_info always_h known ≡ origin_info chat (b'h' ∷ []) (b's' ∷ [])
unfolding parse_origin_info parse_query split assign_all insert lookup
known_parses = refl

pub known_admitted :
    on_check_node false registry always_h [] known new_connect_manager
    ≡ (admitted chat, (get_connect_info chat new_connect_manager).1)
unfolding on_check_node get_connect_info kv_of node_name split new_connect_manager insert lookup
known_admitted = rw known_parses refl

on_check_node-Verified_example :
    Unknown chat
    ⊎ Verified false registry always_h []
        (parse_origin_info always_h known)
        chat
        new_connect_manager
on_check_node-Verified_example =
    on_check_node-Verified false registry always_h [] known chat new_connect_manager
      (get_connect_info chat new_connect_manager).1 known_admitted

-- "h?node=!guest&sig=x"
abbrev disguised : Bytes
disguised =
    b'h' ∷ 63 ∷ b'n' ∷ b'o' ∷ b'd' ∷ b'e' ∷ 61 ∷ b'!' ∷ b'g' ∷ b'u' ∷ b'e' ∷ b's' ∷ b't' ∷ 38 ∷ b's'
    ∷ b'i' ∷ b'g' ∷ 61 ∷ b'x' ∷ []

disguised_parses :
    parse_origin_info always_h disguised ≡ origin_info guest_prefix (b'h' ∷ []) (b'x' ∷ [])
unfolding parse_origin_info parse_query split assign_all insert lookup
disguised_parses = refl

prefix_is_guest : is_guest guest_prefix ≡ true
unfolding is_guest has_prefix
prefix_is_guest = refl
