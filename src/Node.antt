-- ===== src/Node.antt =====
-- silvernode.go: which nodes onCheckNode lets in, and under which name.
use silvernode_go.Common.{
  Bool, true, false, Option, none, some, [], ◌∷◌, ◌++◌, if◌then◌else◌, Bytes,
}
use silvernode_go.Strings.{has_prefix}
use silvernode_go.Nets.Connect.{ConnectManager, ConnectInfo, get_connect_info}
use silvernode_go.Nets.Origin.{OriginInfo, missing, illegal, origin_info, parse_origin_info}
pub mod Admission
pub mod Registered
pub mod Network
pub mod Startup
pub mod Tests
pub mod NetworkTests

pub data Verdict : Type 0 where
  refused : Verdict
  admitted : Bytes → Verdict

-- "!guest"
abbrev pub guest_prefix : Bytes
guest_prefix = b'!' ∷ b'g' ∷ b'u' ∷ b'e' ∷ b's' ∷ b't' ∷ []

unfoldable pub is_guest : Bytes → Bool
unfolding has_prefix
is_guest node_id = has_prefix node_id guest_prefix

-- `guestId`; `generated` is what snowflake generates.
unfoldable pub guest_of : Bytes → Bytes → Bytes
unfolding has_prefix
guest_of generated [] = guest_prefix ++ 35 ∷ generated
guest_of generated (c ∷ cs) =
    if has_prefix (c ∷ cs) guest_prefix then [] else guest_prefix ++ 35 ∷ (c ∷ cs)

abbrev pub unless_connected : Bytes → Option ConnectInfo × ConnectManager → Verdict × ConnectManager
unless_connected node_id (none, m) = (admitted node_id, m)
unless_connected node_id (some info, m) = (refused, m)

-- Whether the node is public, the check of a signature by the registry, which is there (none for an
-- error; on a node without a cluster the code panics where an origin is parsed), the URL
-- package's search for the host, and the next number of snowflake.
module _ (is_pub : Bool) (check_node_sig : Bytes → Bytes → Option Bool)
    (parse_host : Bytes → Option Bytes) (generated : Bytes) where
  abbrev pub as_guest : Bytes → ConnectManager → Verdict × ConnectManager
  as_guest node_id m = if is_pub then (admitted (guest_of generated node_id), m) else (refused, m)

  abbrev pub after_sig : Bytes → Option Bool → ConnectManager → Verdict × ConnectManager
  after_sig node_id none m = (refused, m)
  after_sig node_id (some false) m = as_guest node_id m
  after_sig node_id (some true) m = unless_connected node_id (get_connect_info node_id m)

  abbrev pub after_origin : OriginInfo → ConnectManager → Verdict × ConnectManager
  after_origin missing m = as_guest [] m
  after_origin illegal m = as_guest [] m
  after_origin (origin_info node_id host sig) m = after_sig node_id (check_node_sig node_id sig) m

  unfoldable pub on_check_node : Bytes → ConnectManager → Verdict × ConnectManager
  unfolding guest_of
  on_check_node origin m = after_origin (parse_origin_info parse_host origin) m
