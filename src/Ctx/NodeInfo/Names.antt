-- ===== src/Ctx/NodeInfo/Names.antt =====
-- ctx/node_info.go: a node's identifier begins with its name.
use silvernode_go.Common.{
  ℕ, ◌≡◌, refl, sym, ap, ◌∙◌, ◌≢◌, inl, inr, true, Option, List, [], ◌∷◌, ◌++◌, arith, Bool-cases,
  Run, ret, panic, stuck, ◌>>=◌, ret-injective, Bytes,
}
use mathlib.Core.List.{append_assoc}
use silvernode_go.Strings.{Free, split-append, has_prefix}
use silvernode_go.Nets.Connect.{node_name}
use silvernode_go.Ctx.NodeInfo.{NodeInfo, chosen_id, prefixed, suitable_eps, signed, node_signature}

-- A prefix stands in front.
pub has_prefix-append :
    (s prefix : Bytes) → has_prefix s prefix ≡ true → (rest : Bytes) × (s ≡ prefix ++ rest)
unfolding has_prefix
has_prefix-append s [] h = (s, refl)
has_prefix-append [] (p ∷ ps) h = absurd (ground (arith, h))
has_prefix-append (b ∷ bs) (p ∷ ps) h =
    let same : b ≡ p = ground (arith, h) in
    let (rest, e) = has_prefix-append bs ps (ground (arith, h)) in (rest, rw (same, e) refl)

-- The name before the first '#'.
pub node_name-hash : (name rest : Bytes) → Free 35 name → node_name (name ++ (35 ∷ rest)) ≡ name
unfolding node_name
node_name-hash name rest f = rw (split-append 35 name rest f) refl

prefixed_lem : (name i : Bytes) → (rest : Bytes) × (prefixed name i ≡ name ++ (35 ∷ rest))
prefixed_lem name i = elim (Bool-cases (has_prefix i (name ++ (35 ∷ [])))) [
  | inl h ↦
      let (rest, e) = has_prefix-append i (name ++ (35 ∷ [])) h in
      (rest, rw h (e ∙ append_assoc name (35 ∷ []) rest))
  | inr h ↦ (i, rw h refl)
]

prefixed-name : (name i : Bytes) → Free 35 name → node_name (prefixed name i) ≡ name
prefixed-name name i f =
    let (rest, e) = prefixed_lem name i in ap node_name e ∙ node_name-hash name rest f

not_empty : (name rest : Bytes) → ◌≢◌ {A = Bytes} [] (name ++ (35 ∷ rest))
not_empty [] rest e = cc
not_empty (b ∷ bs) rest e = cc

module _ {U : Type 0} (ips : Option (List Bytes)) (free : ℕ → Option ℕ) (pod_ip meta_name : Bytes)
    (md5 : Bytes → Bytes) (first second : Bytes) where
  signed_of :
      (n n' : NodeInfo U) (i : Bytes) (r : Run (List Bytes))
      → (r >>= λ eps. ret (
          signed ips free pod_ip meta_name md5 first second n
            (prefixed n.name (chosen_id first meta_name n))
            eps))
        ≡ ret (n', i)
      → (n'.node_id ≡ prefixed n.name (chosen_id first meta_name n))
        × (i ≡ prefixed n.name (chosen_id first meta_name n))
        × (n'.name ≡ n.name)
  signed_of n n' i (ret eps) e =
      let same = ret-injective e in
      (sym (ap (λ x. x.0.node_id) same), sym (ap (λ x. x.1) same), sym (ap (λ x. x.0.name) same))
  signed_of n n' i panic e = absurd (no_panic (n', i) e)
    where
      no_panic : (x : NodeInfo U × Bytes) → panic ≢ ret x
      no_panic x e = cc
  signed_of n n' i stuck e = absurd (no_stuck (n', i) e)
    where
      no_stuck : (x : NodeInfo U × Bytes) → stuck ≢ ret x
      no_stuck x e = cc

  -- The node's name has no '#'. Where `NodeSignature` first ends, the node's identifier is what the
  -- program has from then on, a second `NodeSignature` changes neither it nor the node, and the name
  -- that `GetNodeNameFromId` finds in it is the node's.
  pub node_signature-name :
      (n n' : NodeInfo U) (i : Bytes)
      → Free 35 n.name
      → node_signature ips free pod_ip meta_name md5 first second n [] ≡ ret (n', i)
      → (i ≡ n'.node_id)
        × (node_name n'.node_id ≡ n'.name)
        × (node_signature ips free pod_ip meta_name md5 first second n' i ≡ ret (n', i))
  unfolding node_signature
  node_signature-name n n' i f e =
      let (own, whole, name) = signed_of n n' i (suitable_eps ips free pod_ip 0 n.end_points) e in
      (
        whole ∙ sym own,
        ap node_name own ∙ prefixed-name n.name (chosen_id first meta_name n) f ∙ sym name,
        again i whole,
      )
    where
      again :
          (i : Bytes)
          → i ≡ prefixed n.name (chosen_id first meta_name n)
          → node_signature ips free pod_ip meta_name md5 first second n' i ≡ ret (n', i)
      again (c ∷ cs) e = refl
      again [] e =
          let (rest, long) = prefixed_lem n.name (chosen_id first meta_name n) in
          absurd (not_empty n.name rest (e ∙ long))
