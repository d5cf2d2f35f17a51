-- ===== src/Node/Startup.antt =====
-- silvernode.go: Setup, BindPipeline, Listen and Serve. What the files, YAML, the registry, the plugins
-- and the system give is an argument; the starting of goroutines is recorded.
use silvernode_go.Common.{
  ℕ, Bool, true, false, not, ◌&&◌, Option, none, some, List, [], ◌∷◌, ◌++◌, if◌then◌else◌, Run, ret,
  panic, ◌>>=◌, set, ◌==◌, Bytes, nat_eq, bytes_eq, Attempt, went, broke,
}
use silvernode_go.Netutil.{
  UrlInfo, illegal_url, illegal_address, illegal_port, url_info, parse_url_info,
}
use silvernode_go.Nets.Address.{Transport}
use silvernode_go.Ctx.NodeInfo.{NodeInfo}
use silvernode_go.Node.Network.{NodeState, get_net_worker}
pub mod Ready

pub record SetupParam : Type 0 where
  pub app_conf : Bytes
  pub cluster_node : Bytes
  pub specified_id : Bytes

abbrev pub or_else : Bytes → Bytes → Bytes
or_else [] old = old
or_else (c ∷ cs) old = c ∷ cs

-- `Setup`
unfoldable pub setup : SetupParam → SetupParam → SetupParam
setup param old = record {
  app_conf = or_else param.app_conf old.app_conf;
  cluster_node = or_else param.cluster_node old.cluster_node;
  specified_id = or_else param.specified_id old.specified_id;
}

-- A handler is a value of the type `H`, and nil is none.
pub record Pipeline (H : Type 0) : Type 0 where
  pub init : Option H
  pub start : Option H
  pub on_connect : Option H
  pub on_in_bound : Option H
  pub on_message : Option H
  pub on_out_bound : Option H
  pub on_close : Option H
  pub on_error : Option H

module _ {H : Type 0} where
  abbrev pub or_handler : Option H → Option H → Option H
  or_handler none old = old
  or_handler (some h) old = some h

  -- `BindPipeline`
  unfoldable pub bind_pipeline : Option (Pipeline H) → Pipeline H → Pipeline H
  bind_pipeline none old = old
  bind_pipeline (some pipe) old = record {
    init = or_handler pipe.init old.init;
    start = or_handler pipe.start old.start;
    on_connect = or_handler pipe.on_connect old.on_connect;
    on_in_bound = or_handler pipe.on_in_bound old.on_in_bound;
    on_message = or_handler pipe.on_message old.on_message;
    on_out_bound = or_handler pipe.on_out_bound old.on_out_bound;
    on_close = or_handler pipe.on_close old.on_close;
    on_error = or_handler pipe.on_error old.on_error;
  }

-- `Listen` checks the URL and starts a goroutine: whether there is an error.
abbrev pub is_url : UrlInfo → Bool
is_url illegal_url = false
is_url illegal_address = false
is_url illegal_port = false
is_url (url_info proto ip port) = true

unfoldable pub listen : Bytes → Bool
unfolding parse_url_info
listen url = is_url (parse_url_info url)

-- The goroutine: a worker that could not be made is reported, and then called all the same.
abbrev pub listen_by : Bytes → Option Transport × NodeState → Run (Transport × NodeState)
listen_by url (none, s) = panic
listen_by url (some t, s) = ret (t, s)

unfoldable pub listening : Bytes → NodeState → Run (Transport × NodeState)
unfolding get_net_worker
listening url s = listen_by url (get_net_worker url s)

-- The errors that `Serve` returns.
pub data StartError : Type 0 where
  no_conf : Bytes → StartError
  bad_conf : Bytes → StartError
  no_cluster_type : Bytes → StartError
  bad_registry : Bytes → StartError
  no_plugins : Bytes → StartError
  bad_node_conf : Bytes → StartError
  bad_node_config : Bytes → StartError
  no_node : StartError
  no_end_points : StartError
  no_port : Bytes → StartError
  bad_end_point : StartError
  not_listening : Bytes → StartError
  not_joined : Bytes → StartError

-- What `Serve` starts: the board at an address, a listener, the registration of the node in the cluster,
-- and at last `_inited` is set.
pub data Act : Type 0 where
  board : Bytes → ℕ → Act
  listens : Bytes → Act
  joined : Bytes → Act
  ready : Act

-- What is asked while the node starts. `has_conf` tells whether the configuration has "cluster" or
-- "node"; `sign` is NodeSignature.
pub record Environment (U : Type 0) : Type 0 where
  pub load_file : Bytes → Attempt Bytes
  pub load_app_yaml : Bytes → Option Bytes
  pub has_cluster : Bool
  pub cluster_type : Attempt Bytes
  pub create_registry : Bytes → Option Bytes
  pub install_plugins : Option Bytes
  pub has_node : Bool
  pub node_conf : Attempt (NodeInfo U)
  pub get_config : Bytes → Attempt (NodeInfo U)
  pub available_port : Attempt ℕ
  pub sign : NodeInfo U → Run (NodeInfo U × Bytes)
  pub join_cluster : NodeInfo U → Option Bytes

module _ {U : Type 0} (env : Environment U) (param : SetupParam) where
  abbrev pub Started : Type 0
  Started = List Act × Option StartError

  abbrev pub before : List Act → Started → Started
  before acts (more, err) = (acts ++ more, err)

  -- The registry, if there is one, and then `_inited`.
  abbrev pub after_join : Bytes → Option Bytes → Started
  after_join node_id (some err) = ([], some (not_joined err))
  after_join node_id none = (joined node_id ∷ ready ∷ [], none)

  abbrev pub join : NodeInfo U → Started
  join n = if env.has_cluster then after_join n.node_id (env.join_cluster n) else (ready ∷ [], none)

  -- The loop over the end points
  unfoldable pub listen_all : NodeInfo U → List Bytes → Started
  unfolding listen
  listen_all n [] = join n
  listen_all n (ep ∷ eps) =
      let rest = listen_all n eps in
      if listen ep then before (listens ep ∷ []) rest else ([], some (not_listening ep))

  abbrev pub with_address : NodeInfo U → UrlInfo → Started
  with_address n illegal_url = ([], some bad_end_point)
  with_address n illegal_address = ([], some bad_end_point)
  with_address n illegal_port = ([], some bad_end_point)
  with_address n (url_info proto ip port) =
      before (board ip n.main_port ∷ []) (listen_all n n.end_points)

  -- `_node.info.EndPoints[0]` is there, as the node has end points.
  abbrev pub with_end_points : NodeInfo U → List Bytes → Run Started
  with_end_points n [] = panic
  with_end_points n (ep ∷ eps) = ret (with_address n (parse_url_info ep))

  -- The signature, and then the specified identifier in place of the signed one.
  abbrev pub specified : NodeInfo U → NodeInfo U
  specified n = record n { node_id = or_else param.specified_id n.node_id }

  abbrev pub after_sign : NodeInfo U × Bytes → Run Started
  after_sign (n, i) = with_end_points (specified n) n.end_points

  abbrev pub after_port : NodeInfo U → Attempt ℕ → Run Started
  after_port n (broke err) = ret ([], some (no_port err))
  after_port n (went port) = env.sign (record n { main_port = port }) >>= after_sign

  abbrev pub with_node : NodeInfo U → List Bytes → Run Started
  with_node n [] = ret ([], some no_end_points)
  with_node n (ep ∷ eps) =
      after_port n (if n.main_port == 0 then env.available_port else went n.main_port)

  abbrev pub after_conf : Attempt (NodeInfo U) → Run Started
  after_conf (broke err) = ret ([], some (bad_node_conf err))
  after_conf (went n) = with_node n n.end_points

  abbrev pub after_config : Attempt (NodeInfo U) → Run Started
  after_config (broke err) = ret ([], some (bad_node_config err))
  after_config (went n) = with_node n n.end_points

  abbrev pub choose_conf : Run Started
  choose_conf =
      if env.has_node
      then after_conf env.node_conf
      else if env.has_cluster && not (param.cluster_node == [])
      then after_config (env.get_config param.cluster_node)
      else ret ([], some no_node)

  abbrev pub after_plugins : Option Bytes → Run Started
  after_plugins (some err) = ret ([], some (no_plugins err))
  after_plugins none = choose_conf

  abbrev pub after_registry : Option Bytes → Run Started
  after_registry (some err) = ret ([], some (bad_registry err))
  after_registry none = after_plugins env.install_plugins

  abbrev pub after_type : Attempt Bytes → Run Started
  after_type (broke err) = ret ([], some (no_cluster_type err))
  after_type (went cluster) = after_registry (env.create_registry cluster)

  abbrev pub after_yaml : Option Bytes → Run Started
  after_yaml (some err) = ret ([], some (bad_conf err))
  after_yaml none =
      if env.has_cluster then after_type env.cluster_type else after_plugins env.install_plugins

  abbrev pub after_load : Attempt Bytes → Run Started
  after_load (broke err) = ret ([], some (no_conf err))
  after_load (went text) = after_yaml (env.load_app_yaml text)

  -- `Serve` up to the point where it waits for ever, or its error
  unfoldable pub serve : Run Started
  unfolding listen_all parse_url_info
  serve = after_load (env.load_file param.app_conf)
