-- ===== src/Node/Startup/Ready.antt =====
-- silvernode.go: a node is ready only after everything before worked.
use silvernode_go.Common.{
  ℕ, ◌≡◌, refl, ap, ◌⊎◌, inl, inr, Bool, true, false, not, ◌&&◌, Option, none, some, List, [], ◌∷◌,
  ◌++◌, map, if◌then◌else◌, Bool-cases, Run, ret, panic, stuck, ◌>>=◌, All, ◌==◌, Bytes, nat_eq,
  bytes_eq, Attempt, went, broke,
}
use silvernode_go.Netutil.{
  UrlInfo, illegal_url, illegal_address, illegal_port, url_info, parse_url_info,
}
use silvernode_go.Ctx.NodeInfo.{NodeInfo}
use silvernode_go.Node.Startup.{
  SetupParam, listen, Act, board, listens, joined, ready, Environment, Started, before, after_join,
  join, listen_all, with_address, with_end_points, specified, after_sign, after_port, with_node,
  after_conf, after_config, choose_conf, after_plugins, after_registry, after_type, after_yaml,
  after_load, serve,
}

-- Another act than that the node is ready.
abbrev pub NotReady : Act → Type 0
NotReady (board ip port) = Unit
NotReady (listens url) = Unit
NotReady (joined node_id) = Unit
NotReady ready = ⊥

if_lem : {X : Type 0} (P : X → Type 0) (b : Bool) (x y : X) → P x → P y → P (if b then x else y)
if_lem P true x y p q = p
if_lem P false x y p q = q

if_known :
    {X : Type 0} (P : X → Type 0) (b : Bool) (x y : X)
    → (b ≡ true → P x)
    → (b ≡ false → P y)
    → P (if b then x else y)
if_known P true x y p q = p refl
if_known P false x y p q = q refl

module _ {U : Type 0} (env : Environment U) (param : SetupParam) where
  abbrev pub listens_all : List Bytes → List Act
  listens_all eps = map (λ ep. listens ep) eps

  -- The node was registered in the cluster, where there is one.
  abbrev pub joins : NodeInfo U → List Act
  joins n = if env.has_cluster then joined n.node_id ∷ [] else []

  -- The configuration of the node, of the file or else of the cluster
  abbrev pub IsChosen : NodeInfo U → Type 0
  IsChosen conf =
      ((env.has_node ≡ true) × (env.node_conf ≡ went conf))
      ⊎ ((env.has_node ≡ false) × (env.get_config param.cluster_node ≡ went conf))

  -- Its main port, or a free one where it has none
  abbrev pub IsPort : NodeInfo U → ℕ → Type 0
  IsPort conf port =
      (if conf.main_port == 0 then env.available_port else went conf.main_port) ≡ went port

  -- Without an error the node `n` has started everything: the board at the address of its first end
  -- point, a listener for each end point in turn, the registration, and then it is ready; with an
  -- error it is not ready.
  abbrev pub HasStarted : NodeInfo U → Started env param → Type 0
  HasStarted n (acts, some err) = All NotReady acts
  HasStarted n (acts, none) =
      (first : Bytes) × (others : List Bytes) × (proto : Bytes) × (ip : Bytes) × (port : ℕ)
      × (n.end_points ≡ first ∷ others)
      × (parse_url_info first ≡ url_info proto ip port)
      × (acts ≡ board ip n.main_port ∷ (listens_all n.end_points ++ (joins n ++ (ready ∷ []))))

  -- The node is the configured one with its port, as NodeSignature signed it, under the specified
  -- identifier if there is one.
  abbrev pub IsComplete : Started env param → Type 0
  IsComplete (acts, some err) = All NotReady acts
  IsComplete (acts, none) =
      (conf : NodeInfo U) × (port : ℕ) × (signed : NodeInfo U × Bytes) × IsChosen conf
      × IsPort conf port
      × (env.sign (record conf { main_port = port }) ≡ ret signed)
      × HasStarted (specified env param signed.0) (acts, none)

  -- Of a run that ends
  abbrev pub Ends : (Started env param → Type 0) → Run (Started env param) → Type 0
  Ends P (ret x) = P x
  Ends P panic = Unit
  Ends P stuck = Unit

  abbrev Listened : NodeInfo U → List Bytes → Started env param → Type 0
  Listened n eps (acts, some err) = All NotReady acts
  Listened n eps (acts, none) = acts ≡ listens_all eps ++ (joins n ++ (ready ∷ []))

  before-Listened :
      (n : NodeInfo U) (ep : Bytes) (eps : List Bytes) (r : Started env param)
      → Listened n eps r
      → Listened n (ep ∷ eps) (before env param (listens ep ∷ []) r)
  before-Listened n ep eps (acts, some err) h = (tt, h)
  before-Listened n ep eps (acts, none) h = ap (λ more. listens ep ∷ more) h

  abbrev Joined : Bool → NodeInfo U → Started env param → Type 0
  Joined b n (acts, some err) = All NotReady acts
  Joined b n (acts, none) = acts ≡ (if b then joined n.node_id ∷ [] else []) ++ (ready ∷ [])

  join-Joined :
      (b : Bool) (n : NodeInfo U) (o : Option Bytes)
      → Joined b n (if b then after_join env param n.node_id o else (ready ∷ [], none))
  join-Joined false n o = refl
  join-Joined true n none = refl
  join-Joined true n (some err) = tt

  Joined-Listened :
      (n : NodeInfo U) (r : Started env param) → Joined env.has_cluster n r → Listened n [] r
  Joined-Listened n (acts, some err) h = h
  Joined-Listened n (acts, none) h = h

  join-Listened : (n : NodeInfo U) → Listened n [] (join env param n)
  join-Listened n =
      Joined-Listened n (join env param n) (join-Joined env.has_cluster n (env.join_cluster n))

  listen_all-Listened :
      (n : NodeInfo U) (eps : List Bytes) → Listened n eps (listen_all env param n eps)
  unfolding listen_all
  listen_all-Listened n [] = join-Listened n
  listen_all-Listened n (ep ∷ eps) = elim (Bool-cases (listen ep)) [
    | inl h ↦
        rw h (before-Listened n ep eps (listen_all env param n eps) (listen_all-Listened n eps))
    | inr h ↦ rw h tt
  ]

  with_address-HasStarted :
      (n : NodeInfo U) (first : Bytes) (others : List Bytes) (u : UrlInfo)
      → n.end_points ≡ first ∷ others
      → parse_url_info first ≡ u
      → HasStarted n (with_address env param n u)
  with_address-HasStarted n first others illegal_url e p = tt
  with_address-HasStarted n first others illegal_address e p = tt
  with_address-HasStarted n first others illegal_port e p = tt
  with_address-HasStarted n first others (url_info proto ip port) e p =
      complete (listen_all env param n n.end_points) (listen_all-Listened n n.end_points)
    where
      complete :
          (r : Started env param)
          → Listened n n.end_points r
          → HasStarted n (before env param (board ip n.main_port ∷ []) r)
      complete (acts, some err) h = (tt, h)
      complete (acts, none) h =
          (first, others, proto, ip, port, e, p, ap (λ more. board ip n.main_port ∷ more) h)

  with_end_points-HasStarted :
      (n : NodeInfo U) (eps : List Bytes)
      → n.end_points ≡ eps
      → Ends (HasStarted n) (with_end_points env param n eps)
  with_end_points-HasStarted n [] e = tt
  with_end_points-HasStarted n (first ∷ others) e =
      with_address-HasStarted n first others (parse_url_info first) e refl

  HasStarted-IsComplete :
      (conf : NodeInfo U) (port : ℕ) (signed : NodeInfo U × Bytes)
      → IsChosen conf
      → IsPort conf port
      → env.sign (record conf { main_port = port }) ≡ ret signed
      → (r : Run (Started env param)) → Ends (HasStarted (specified env param signed.0)) r
      → Ends IsComplete r
  HasStarted-IsComplete conf port signed c q s (ret (acts, some err)) h = h
  HasStarted-IsComplete conf port signed c q s (ret (acts, none)) h =
      (conf, port, signed, c, q, s, h)
  HasStarted-IsComplete conf port signed c q s panic h = tt
  HasStarted-IsComplete conf port signed c q s stuck h = tt

  with_node-IsComplete :
      (n : NodeInfo U) (eps : List Bytes) → IsChosen n → Ends IsComplete (with_node env param n eps)
  with_node-IsComplete n [] c = tt
  with_node-IsComplete n (ep ∷ eps) c =
      ported (if n.main_port == 0 then env.available_port else went n.main_port) refl
    where
      signed :
          (port : ℕ)
          → IsPort n port
          → (r : Run (NodeInfo U × Bytes)) → env.sign (record n { main_port = port }) ≡ r
          → Ends IsComplete (r >>= after_sign env param)
      signed port q (ret (m, i)) s =
          HasStarted-IsComplete n port (m, i) c q s (after_sign env param (m, i))
            (with_end_points-HasStarted (specified env param m) m.end_points refl)
      signed port q panic s = tt
      signed port q stuck s = tt

      ported :
          (a : Attempt ℕ)
          → (if n.main_port == 0 then env.available_port else went n.main_port) ≡ a
          → Ends IsComplete (after_port env param n a)
      ported (broke err) q = tt
      ported (went port) q = signed port q (env.sign (record n { main_port = port })) refl

  choose_conf-IsComplete : Ends IsComplete (choose_conf env param)
  choose_conf-IsComplete =
      if_known (Ends IsComplete) env.has_node _ _ (λ h. from_conf h env.node_conf refl)
        (λ h.
          if_lem (Ends IsComplete) (env.has_cluster && not (param.cluster_node == [])) _ _
            (from_config h (env.get_config param.cluster_node) refl) tt)
    where
      from_conf :
          env.has_node ≡ true
          → (a : Attempt (NodeInfo U)) → env.node_conf ≡ a
          → Ends IsComplete (after_conf env param a)
      from_conf h (broke err) e = tt
      from_conf h (went n) e = with_node-IsComplete n n.end_points (inl (h, e))

      from_config :
          env.has_node ≡ false
          → (a : Attempt (NodeInfo U)) → env.get_config param.cluster_node ≡ a
          → Ends IsComplete (after_config env param a)
      from_config h (broke err) e = tt
      from_config h (went n) e = with_node-IsComplete n n.end_points (inr (h, e))

  plugins-IsComplete : (o : Option Bytes) → Ends IsComplete (after_plugins env param o)
  plugins-IsComplete (some err) = tt
  plugins-IsComplete none = choose_conf-IsComplete

  type-IsComplete : (a : Attempt Bytes) → Ends IsComplete (after_type env param a)
  type-IsComplete (broke err) = tt
  type-IsComplete (went cluster) = made (env.create_registry cluster)
    where
      made : (o : Option Bytes) → Ends IsComplete (after_registry env param o)
      made (some err) = tt
      made none = plugins-IsComplete env.install_plugins

  -- Whatever the environment gives: where `Serve` comes to an end of its start without a panic, it has
  -- either an error, and then the node is not ready, whatever it has started, or no error. Then its node
  -- is the one of the configuration (the file's, or else the cluster's) with the port that it names or a
  -- free one, as NodeSignature signed it and under the specified identifier if there is one; and it has
  -- started the board at the address of the first end point, a listener for every end point of that
  -- node in turn, the registration in the cluster, if there is one, and then it is ready.
  pub serve-IsComplete : Ends IsComplete (serve env param)
  unfolding serve
  serve-IsComplete = loaded (env.load_file param.app_conf)
    where
      parsed : (o : Option Bytes) → Ends IsComplete (after_yaml env param o)
      parsed (some err) = tt
      parsed none =
          if_lem (Ends IsComplete) env.has_cluster _ _ (type-IsComplete env.cluster_type)
            (plugins-IsComplete env.install_plugins)

      loaded : (a : Attempt Bytes) → Ends IsComplete (after_load env param a)
      loaded (broke err) = tt
      loaded (went text) = parsed (env.load_app_yaml text)
