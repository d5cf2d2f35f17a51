-- ===== src/Cluster/Consul.antt =====
-- cluster/consul.go: the registry over a client of consul. The client and YAML are parameters.
-- `errutil.Extend` of a nil error panics.
use silvernode_go.Common.{
  ℕ, ◌≡◌, refl, ◌≢◌, Bool, Option, none, some, List, [], ◌∷◌, ◌++◌, Run, ret, panic, ◌>>=◌,
  ret-injective, ◌==◌, Bytes, nat_eq, bytes_eq, Attempt, went, broke,
}
use silvernode_go.Stl.GoMap.{GoMap, lookup}
use silvernode_go.Netutil.{
  UrlInfo, illegal_url, illegal_address, illegal_port, url_info, parse_url_info,
}
use silvernode_go.Strings.Decimal.{sprint}
use silvernode_go.Ctx.NodeInfo.{NodeInfo}
use silvernode_go.Cluster.{Registry, Yaml, same_sig, read_on}

-- The service that is registered: its identifier, name, tag, address, port, meta text and the URL that
-- consul checks.
pub record Service : Type 0 where
  pub service_id : Bytes
  pub name : Bytes
  pub tag : Bytes
  pub address : Bytes
  pub port : ℕ
  pub meta : GoMap Bytes Bytes
  pub check_url : Bytes

-- What the program uses of the client. A value that is not there is nil.
pub record Client (S : Type 0) : Type 0 where
  pub service_register : Service → S → Option Bytes × S
  pub agent_service : Bytes → S → Attempt (GoMap Bytes Bytes)
  pub catalog_service : Bytes → Bytes → S → Attempt (List (GoMap Bytes Bytes))
  pub put : Bytes → Bytes → S → Option Bytes × S
  pub get : Bytes → S → Attempt (Option Bytes)
  pub delete : Bytes → Bytes → S → Option Bytes × S

-- "info"
abbrev pub info_key : Bytes
info_key = b'i' ∷ b'n' ∷ b'f' ∷ b'o' ∷ []

-- "http://"
abbrev pub http_prefix : Bytes
http_prefix = b'h' ∷ b't' ∷ b't' ∷ b'p' ∷ 58 ∷ 47 ∷ 47 ∷ []

module _ {S : Type 0} (client : Client S) (space : Bytes) where
  module _ {U : Type 0} (yaml : Yaml (NodeInfo U)) where
    unfoldable pub registration : NodeInfo U → Bytes → Bytes → Service
    unfolding sprint
    registration n ip text = record {
      service_id = n.node_id;
      name = n.name;
      tag = space;
      address = ip;
      port = n.main_port;
      meta = (info_key, text) ∷ [];
      check_url = http_prefix ++ (ip ++ (58 ∷ (sprint n.main_port ++ (47 ∷ []))));
    }

    abbrev pub reg_text : NodeInfo U → Bytes → S → Attempt Bytes → Option Bytes × S
    reg_text n ip s (broke err) = (some err, s)
    reg_text n ip s (went text) = client.service_register (registration n ip text) s

    abbrev pub reg_url : NodeInfo U → S → UrlInfo → Option Bytes × S
    reg_url n s illegal_url = (some [], s)
    reg_url n s illegal_address = (some [], s)
    reg_url n s illegal_port = (some [], s)
    reg_url n s (url_info proto ip port) = reg_text n ip s (yaml.marshal n)

    abbrev pub reg_first : NodeInfo U → S → List Bytes → Run (Option Bytes × S)
    reg_first n s [] = panic
    reg_first n s (ep ∷ eps) = ret (reg_url n s (parse_url_info ep))

    -- `RegNodeInfo`
    unfoldable pub reg_node_info : NodeInfo U → S → Run (Option Bytes × S)
    unfolding registration parse_url_info
    reg_node_info n s = reg_first n s n.end_points

    -- The node that a service's meta describes; the error for a missing text extends a nil error.
    abbrev pub read_info : Option Bytes → Run (Attempt (NodeInfo U))
    read_info none = panic
    read_info (some text) = ret (yaml.unmarshal text)

    abbrev pub read_service : Attempt (GoMap Bytes Bytes) → Run (Attempt (NodeInfo U))
    read_service (broke err) = ret (broke err)
    read_service (went meta) = read_info (lookup info_key meta)

    -- `GetNodeById`
    unfoldable pub get_node_by_id : Bytes → S → Run (Attempt (NodeInfo U))
    unfolding lookup
    get_node_by_id node_id s = read_service (client.agent_service node_id s)

    -- The loop of `SelectNodesByName`
    unfoldable pub read_all : List (GoMap Bytes Bytes) → Run (Attempt (List (NodeInfo U)))
    unfolding lookup
    read_all [] = ret (went [])
    read_all (meta ∷ metas) =
        let rest = read_all metas in read_info (lookup info_key meta) >>= λ r. read_on r rest

    abbrev pub read_found : Attempt (List (GoMap Bytes Bytes)) → Run (Attempt (List (NodeInfo U)))
    read_found (broke err) = ret (broke err)
    read_found (went metas) = read_all metas

    unfoldable pub select_nodes_by_name : Bytes → S → Run (Attempt (List (NodeInfo U)))
    unfolding read_all
    select_nodes_by_name name s = read_found (client.catalog_service name space s)

    -- `CheckNodeSig`
    unfoldable pub check_node_sig : Bytes → Bytes → S → Run (Attempt Bool)
    unfolding get_node_by_id
    check_node_sig node_id sig s = get_node_by_id node_id s >>= λ r. ret (same_sig sig r)

    -- The registry that consul is
    abbrev pub consul_registry : Registry U S
    consul_registry = record {
      reg_node_info = reg_node_info;
      get_node_by_id = get_node_by_id;
      select_nodes_by_name = select_nodes_by_name;
      check_node_sig = check_node_sig;
    }

    -- A service whose meta has no "info" makes `GetNodeById` and `CheckNodeSig` panic.
    pub missing_info_panics :
        (node_id sig : Bytes) (meta : GoMap Bytes Bytes) (s : S)
        → client.agent_service node_id s ≡ went meta
        → lookup info_key meta ≡ none
        → (get_node_by_id node_id s ≡ panic) × (check_node_sig node_id sig s ≡ panic)
    unfolding get_node_by_id check_node_sig
    missing_info_panics node_id sig meta s e m = (rw (e, m) refl, rw (e, m) refl)

    -- With a client whose agent gives the meta of a service after its registration without an error, and
    -- YAML that reads back what it writes: a node that `RegNodeInfo` registers without an error is found
    -- by its identifier, and a signature is confirmed exactly if it is the node's.
    pub registered_service_is_found :
        (n : NodeInfo U) (s s' : S)
        → ((v : Service) (s s' : S)
            → client.service_register v s ≡ (none, s')
            → client.agent_service v.service_id s' ≡ went v.meta)
        → ((text : Bytes) → yaml.marshal n ≡ went text → yaml.unmarshal text ≡ went n)
        → reg_node_info n s ≡ ret (none, s')
        → (get_node_by_id n.node_id s' ≡ ret (went n))
          × ((sig : Bytes) → check_node_sig n.node_id sig s' ≡ ret (went (n.sig == sig)))
    unfolding reg_node_info get_node_by_id check_node_sig
    registered_service_is_found n s s' kept lossless e = at_first n.end_points e
      where
        Found : Type 0
        Found =
            (get_node_by_id n.node_id s' ≡ ret (went n))
            × ((sig : Bytes) → check_node_sig n.node_id sig s' ≡ ret (went (n.sig == sig)))

        not_done : (err : Bytes) (s : S) → ◌≢◌ {A = Option Bytes × S} (some err, s) (none, s')
        not_done err s e = cc

        at_text :
            (ip : Bytes) (r : Attempt Bytes)
            → yaml.marshal n ≡ r
            → reg_text n ip s r ≡ (none, s')
            → Found
        at_text ip (broke err) m e = absurd (not_done err s e)
        at_text ip (went text) m e =
            let stored : client.agent_service n.node_id s' ≡ went ((info_key, text) ∷ []) =
              unfold registration in kept (registration n ip text) s s' e in
            (rw (stored, lossless text m) refl, λ sig. rw (stored, lossless text m) refl)

        at_url : (u : UrlInfo) → reg_url n s u ≡ (none, s') → Found
        at_url illegal_url e = absurd (not_done [] s e)
        at_url illegal_address e = absurd (not_done [] s e)
        at_url illegal_port e = absurd (not_done [] s e)
        at_url (url_info proto ip port) e = at_text ip (yaml.marshal n) refl e

        no_panic : ◌≢◌ {A = Run (Option Bytes × S)} panic (ret (none, s'))
        no_panic e = cc

        at_first : (eps : List Bytes) → reg_first n s eps ≡ ret (none, s') → Found
        at_first [] e = absurd (no_panic e)
        at_first (ep ∷ eps) e = at_url (parse_url_info ep) (ret-injective e)

  module _ {A : Type 0} (yaml : Yaml A) where
    abbrev pub put_text : Bytes → S → Attempt Bytes → Option Bytes × S
    put_text key s (broke err) = (some err, s)
    put_text key s (went text) = client.put key text s

    -- `SetConfig`; `GetConfig` reads the value of a pair, which is nil where the key is not there;
    -- `DelConfig`
    unfoldable pub set_config : Bytes → A → S → Option Bytes × S
    set_config key val s = put_text key s (yaml.marshal val)

    abbrev pub read_value : Attempt (Option Bytes) → Run (Attempt A)
    read_value (broke err) = ret (broke err)
    read_value (went none) = panic
    read_value (went (some text)) = ret (yaml.unmarshal text)

    unfoldable pub get_config : Bytes → S → Run (Attempt A)
    get_config key s = read_value (client.get key s)

  unfoldable pub del_config : Bytes → S → Option Bytes × S
  del_config key s = client.delete key space s
