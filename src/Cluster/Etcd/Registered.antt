-- ===== src/Cluster/Etcd/Registered.antt =====
-- cluster/etcd.go: a node that is registered is found, and its signature is confirmed.
use silvernode_go.Common.{
  ◌≡◌, refl, ◌∙◌, ◌≢◌, Option, none, some, [], ◌∷◌, ◌++◌, ◌==◌, Bytes, ==_refl, nat_eq, bytes_eq,
  Attempt, went, broke,
}
use silvernode_go.Nets.Connect.{node_name}
use silvernode_go.Ctx.NodeInfo.{NodeInfo}
use silvernode_go.Cluster.{Yaml}
use silvernode_go.Cluster.Etcd.{
  Client, node_path, kvs_path, value_at, read_kvs, put_text, with_lease, reg_text, reg_node_info,
  get_node_by_id, check_node_sig, set_config, get_config,
}

-- What etcd documents of `Put` and `Get`: after a `Put` without an error, `Get` of the key gives its
-- pair alone, and `Get` of another key what it gave before.
pub record IsStore {S : Type 0} (client : Client S) : Type 0 where
  pub get_put :
      (key value : Bytes) (s s' : S)
      → client.put key value s ≡ (none, s')
      → client.get key s' ≡ went ((key, value) ∷ [])
  pub get_other :
      (key other value : Bytes) (s s' : S)
      → client.put key value s ≡ (none, s')
      → key ≢ other
      → client.get other s' ≡ client.get other s

-- YAML reads back what it writes of a value.
abbrev pub IsReadBack : {A : Type 0} → Yaml A → A → Type 0
IsReadBack yaml a = (text : Bytes) → yaml.marshal a ≡ went text → yaml.unmarshal text ≡ went a

value_at_lem : (path value : Bytes) → value_at path ((path, value) ∷ []) ≡ some value
unfolding value_at
value_at_lem path value = rw (==_refl path) refl

module _ {S : Type 0} (client : Client S) (space : Bytes) (store : IsStore client) where
  put_text_lem :
      {A : Type 0} (yaml : Yaml A) (path : Bytes) (a : A) (s s' : S) (r : Attempt Bytes)
      → IsReadBack yaml a
      → yaml.marshal a ≡ r
      → put_text client space yaml path s r ≡ (none, s')
      → read_kvs client space yaml path (client.get path s') ≡ went a
  put_text_lem yaml path a s s' (broke err) l m e = absurd (not_put err e)
    where
      not_put : (err : Bytes) → ◌≢◌ {A = Option Bytes × S} (some err, s) (none, s')
      not_put err e = cc
  put_text_lem yaml path a s s' (went text) l m e =
      rw (store.get_put path text s s' e, value_at_lem path text) (l text m)

  -- With YAML that reads back what it writes of a value, and a client that keeps what it is given: the
  -- value that `SetConfig` writes without an error, `GetConfig` of the key reads.
  pub get_config-set_config :
      {A : Type 0} (yaml : Yaml A) (key : Bytes) (a : A) (s s' : S)
      → IsReadBack yaml a
      → set_config client space yaml key a s ≡ (none, s')
      → get_config client space yaml key s' ≡ went a
  unfolding set_config get_config
  get_config-set_config yaml key a s s' l e =
      put_text_lem yaml (kvs_path space ++ key) a s s' (yaml.marshal a) l refl e

  module _ {U : Type 0} (yaml : Yaml (NodeInfo U)) (granted kept : Option Bytes) where
    failed_at : (err : Bytes) (s s' : S) → ◌≢◌ {A = Option Bytes × S} (some err, s) (none, s')
    failed_at err s s' e = cc

    leased :
        (n : NodeInfo U) (text : Bytes) (s s' : S) (g k : Option Bytes)
        → with_lease client space yaml n s g k text ≡ (none, s')
        → client.put (node_path space n.name n.node_id) text s ≡ (none, s')
    leased n text s s' (some err) k e = absurd (failed_at err s s' e)
    leased n text s s' none (some err) e = absurd (failed_at err s s' e)
    leased n text s s' none none e = e

    written :
        (n : NodeInfo U) (s s' : S) (r : Attempt Bytes)
        → reg_text client space yaml n s granted kept r ≡ (none, s')
        → (text : Bytes) × (r ≡ went text)
          × (client.put (node_path space n.name n.node_id) text s ≡ (none, s'))
    written n s s' (broke err) e = absurd (failed_at err s s' e)
    written n s s' (went text) e = (text, refl, leased n text s s' granted kept e)

    -- A state that has the node's text under its path
    read_back :
        (n : NodeInfo U) (text : Bytes) (s : S)
        → yaml.unmarshal text ≡ went n
        → node_name n.node_id ≡ n.name
        → client.get (node_path space n.name n.node_id) s
          ≡ went ((node_path space n.name n.node_id, text) ∷ [])
        → (get_node_by_id client space yaml n.node_id s ≡ went n)
          × ((sig : Bytes) → check_node_sig client space yaml n.node_id sig s ≡ went (n.sig == sig))
    unfolding get_node_by_id check_node_sig
    read_back n text s l named here = (
      rw (named, here, value_at_lem (node_path space n.name n.node_id) text) l,
      λ sig. rw (named, here, value_at_lem (node_path space n.name n.node_id) text, l) refl,
    )

    -- With a client that keeps what it is given and YAML that reads back what it writes of the node: a node whose
    -- identifier begins with its name and that `RegNodeInfo` registers without an error is found by its
    -- identifier, and a signature is confirmed exactly if it is the node's; after another key is written
    -- without an error, both are still so.
    pub registered_is_found :
        (n : NodeInfo U) (s s' : S)
        → IsReadBack yaml n
        → node_name n.node_id ≡ n.name
        → reg_node_info client space yaml granted kept n s ≡ (none, s')
        → (get_node_by_id client space yaml n.node_id s' ≡ went n)
          × ((sig : Bytes)
              → check_node_sig client space yaml n.node_id sig s' ≡ went (n.sig == sig))
          × ((key value : Bytes) (s'' : S)
              → client.put key value s' ≡ (none, s'')
              → key ≢ node_path space n.name n.node_id
              → (get_node_by_id client space yaml n.node_id s'' ≡ went n)
                × ((sig : Bytes)
                    → check_node_sig client space yaml n.node_id sig s'' ≡ went (n.sig == sig)))
    unfolding reg_node_info get_node_by_id check_node_sig
    registered_is_found n s s' l named e =
        let (text, m, put) = written n s s' (yaml.marshal n) e in
        let here : client.get (node_path space n.name n.node_id) s'
            ≡ went ((node_path space n.name n.node_id, text) ∷ []) =
          store.get_put (node_path space n.name n.node_id) text s s' put in
        (
          (read_back n text s' (l text m) named here).0,
          (read_back n text s' (l text m) named here).1,
          λ key value s'' other differs. read_back n text s'' (l text m) named (
              store.get_other key (node_path space n.name n.node_id) value s' s'' other differs
              ∙ here),
        )
