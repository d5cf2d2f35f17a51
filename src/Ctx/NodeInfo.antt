-- ===== src/Ctx/NodeInfo.antt =====
-- ctx/node_info.go: the description of a node and its signature. What the system answers (the
-- environment's variables, the local addresses, a free port, the next identifiers, MD5) is an argument.
use silvernode_go.Common.{
  ℕ, ◌+◌, Bool, true, false, not, ◌||◌, Option, none, some, List, [], ◌∷◌, ◌++◌, map, if◌then◌else◌,
  ℤ, pos, Run, ret, panic, ◌>>=◌, ◌==◌, Bytes, nat_eq, bytes_eq,
}
use silvernode_go.Strings.{split, split_str, has_prefix}
use silvernode_go.Strings.Decimal.{atoi, to_uint64, sprint}
use silvernode_go.Stl.GoMap.{GoMap}
use silvernode_go.Netutil.{scheme_end}
pub mod Names

-- The user's data are values of the type `U`.
pub record NodeInfo (U : Type 0) : Type 0 where
  pub node_id : Bytes
  pub name : Bytes
  pub end_points : List Bytes
  pub is_pub : Bool
  pub back_ends : List Bytes
  pub log_level : ℤ
  pub main_port : ℕ
  pub metrics : Bool
  pub sig : Bytes
  pub usr_datas : GoMap Bytes U

-- "..."
abbrev pub hidden : Bytes
hidden = 46 ∷ 46 ∷ 46 ∷ []

module _ {U : Type 0} where
  unfoldable pub new_node_info : NodeInfo U
  new_node_info = record {
    node_id = [];
    name = [];
    end_points = [];
    is_pub = false;
    back_ends = [];
    log_level = pos 0;
    main_port = 0;
    metrics = true;
    sig = [];
    usr_datas = [];
  }

  -- `Clone`: the lists and the map are copied, and the signature is not.
  unfoldable pub clone : NodeInfo U → NodeInfo U
  clone n = record {
    node_id = n.node_id;
    name = n.name;
    end_points = n.end_points;
    is_pub = n.is_pub;
    back_ends = n.back_ends;
    log_level = n.log_level;
    main_port = n.main_port;
    metrics = n.metrics;
    sig = hidden;
    usr_datas = n.usr_datas;
  }

-- `strings.Contains(s, part)`
unfoldable pub contains : Bytes → Bytes → Bool
unfolding has_prefix
contains part [] = has_prefix [] part
contains part (b ∷ bs) = let rest = contains part bs in has_prefix (b ∷ bs) part || rest

-- The parts joined by a text; with `strings.Split` this is `strings.ReplaceAll`.
unfoldable pub join : Bytes → List Bytes → Bytes
join text [] = []
join text (part ∷ []) = part
join text (part ∷ (next ∷ parts)) = part ++ (text ++ join text (next ∷ parts))

-- Whether the parts of the pattern match those of an address; `dsts[i]` panics where the address has
-- fewer parts.
unfoldable pub matches : List Bytes → List Bytes → Run Bool
matches [] dsts = ret true
matches (sur ∷ surs) [] = if sur == (b'x' ∷ []) then matches surs [] else panic
matches (sur ∷ surs) (dst ∷ dsts) =
    let rest = matches surs dsts in
    if sur == (b'x' ∷ []) then rest else if sur == dst then rest else ret false

-- The first local address that the pattern matches, or the pattern itself.
unfoldable pub local_match : Bytes → List Bytes → Run Bytes
unfolding matches split
local_match url [] = ret url
local_match url (ip ∷ ips) =
    let rest = local_match url ips in
    matches (split 46 url) (split 46 ip) >>= λ found. if found then ret ip else rest

abbrev pub written_port : Option ℤ → ℕ
written_port none = 0
written_port (some z) = to_uint64 z

-- The parts after the scheme: the host, the port that is written, and the path's first part.
abbrev pub port_of : List Bytes → ℕ
port_of [] = 0
port_of (port ∷ more) = written_port (atoi port)

abbrev pub path_of : List Bytes → Bytes
path_of [] = []
path_of (part ∷ parts) = part

abbrev pub with_subfix : Bytes → Bytes → Bytes
with_subfix [] ep = ep
with_subfix (c ∷ cs) ep = ep ++ (47 ∷ (c ∷ cs))

abbrev pub or_port : ℕ → Option ℕ → ℕ
or_port port none = port
or_port port (some free) = if port == 0 then free else port

abbrev pub or_ips : Bytes → Option (List Bytes) → Run Bytes
or_ips url none = ret url
or_ips url (some ips) = local_match url ips

-- ".x"
abbrev pub fuzzy : Bytes
fuzzy = 46 ∷ b'x' ∷ []

-- The local addresses and a free port; none for an error of asking for them.
module _ (ips : Option (List Bytes)) (free : Option ℕ) where
  abbrev pub rebuilt : Bytes → Bytes → Bytes → ℕ → Bytes
  rebuilt proto subfix url port =
      with_subfix subfix (proto ++ (scheme_end ++ (url ++ (58 ∷ sprint (or_port port free)))))

  abbrev pub with_host : Bytes → Bytes → List Bytes → Run Bytes
  with_host proto subfix [] = ret (rebuilt proto subfix [] 0)
  with_host proto subfix (url ∷ port) =
      (if contains fuzzy url then or_ips url ips else ret url) >>= λ host.
      ret (rebuilt proto subfix host (port_of port))

  abbrev pub with_address : Bytes → List Bytes → Run Bytes
  with_address proto [] = with_host proto [] []
  with_address proto (address ∷ path) = with_host proto (path_of path) (split 58 address)

  abbrev pub with_parts : Bytes → List Bytes → Run Bytes
  with_parts ep [] = ret ep
  with_parts ep (proto ∷ []) = ret ep
  with_parts ep (proto ∷ (rest ∷ more)) = with_address proto (split 47 rest)

  -- `suitableEP`
  unfoldable pub suitable_ep : Bytes → Run Bytes
  unfolding split split_str contains local_match atoi sprint
  suitable_ep ep = with_parts ep (split_str scheme_end ep)

-- "k8s.metadata.name" and "k8s.status.podIP"
abbrev pub metadata_name : Bytes
metadata_name =
    b'k' ∷ b'8' ∷ b's' ∷ 46 ∷ b'm' ∷ b'e' ∷ b't' ∷ b'a' ∷ b'd' ∷ b'a' ∷ b't' ∷ b'a' ∷ 46 ∷ b'n'
    ∷ b'a' ∷ b'm' ∷ b'e' ∷ []

abbrev pub pod_ip_name : Bytes
pod_ip_name =
    b'k' ∷ b'8' ∷ b's' ∷ 46 ∷ b's' ∷ b't' ∷ b'a' ∷ b't' ∷ b'u' ∷ b's' ∷ 46 ∷ b'p' ∷ b'o' ∷ b'd'
    ∷ b'I' ∷ b'P' ∷ []

-- "?nodeid=", "&name=" and "&sf="
abbrev pub node_id_key : Bytes
node_id_key = 63 ∷ b'n' ∷ b'o' ∷ b'd' ∷ b'e' ∷ b'i' ∷ b'd' ∷ 61 ∷ []

abbrev pub name_key : Bytes
name_key = 38 ∷ b'n' ∷ b'a' ∷ b'm' ∷ b'e' ∷ 61 ∷ []

abbrev pub sf_key : Bytes
sf_key = 38 ∷ b's' ∷ b'f' ∷ 61 ∷ []

-- The identifier before its prefix is seen to: the first one that snowflake generates, or the variable
-- K8S_META_NAME, or the one that is written.
abbrev pub chosen_id : {U : Type 0} → Bytes → Bytes → NodeInfo U → Bytes
chosen_id first meta_name n =
    if n.node_id == []
    then n.name ++ (35 ∷ first)
    else if n.node_id == metadata_name
    then meta_name
    else n.node_id

abbrev pub prefixed : Bytes → Bytes → Bytes
prefixed name i = if has_prefix i (name ++ (35 ∷ [])) then i else name ++ (35 ∷ i)

abbrev pub adapted : Bytes → Bytes → Bytes
adapted pod_ip ep = if contains pod_ip_name ep then join pod_ip (split_str pod_ip_name ep) else ep

-- The loop over the end points, from the `i`-th on, with the local addresses, the free port for each
-- and the variable K8S_POD_IP.
unfoldable pub suitable_eps :
    Option (List Bytes) → (ℕ → Option ℕ) → Bytes → ℕ → List Bytes → Run (List Bytes)
unfolding suitable_ep contains join split_str
suitable_eps ips free pod_ip i [] = ret []
suitable_eps ips free pod_ip i (ep ∷ eps) =
    let rest = suitable_eps ips free pod_ip (i + 1) eps in
    suitable_ep ips (free i) (adapted pod_ip ep) >>= λ e. (rest >>= λ es. ret (e ∷ es))

-- With MD5 and the second identifier that snowflake generates.
abbrev pub signature : (Bytes → Bytes) → Bytes → Bytes → Bytes → Bytes
signature md5 second i name = md5 (node_id_key ++ (i ++ (name_key ++ (name ++ (sf_key ++ second)))))

module _ {U : Type 0} (ips : Option (List Bytes)) (free : ℕ → Option ℕ) (pod_ip meta_name : Bytes)
    (md5 : Bytes → Bytes) (first second : Bytes) where
  abbrev pub signed : NodeInfo U → Bytes → List Bytes → NodeInfo U × Bytes
  signed n i eps =
      (record n { node_id = i; end_points = eps; sig = signature md5 second i n.name }, i)

  -- `NodeSignature`, with the identifier that the program has, empty at first.
  unfoldable pub node_signature : NodeInfo U → Bytes → Run (NodeInfo U × Bytes)
  unfolding suitable_eps has_prefix
  node_signature n [] = suitable_eps ips free pod_ip 0 n.end_points >>= λ eps.
      ret (signed n (prefixed n.name (chosen_id first meta_name n)) eps)
  node_signature n (c ∷ cs) = ret (n, c ∷ cs)
