-- ===== src/Node/Admission.antt =====
-- silvernode.go: who is let in under a name that is no guest's.
use silvernode_go.Common.{
  ◌≡◌, refl, sym, ap, ◌∙◌, ◌≢◌, ◌⊎◌, inl, inr, Bool, true, false, Option, none, some, [], ◌∷◌,
  arith, Bool-cases, Bytes,
}
use mathlib.Core.Path.{subst}
use silvernode_go.Nets.Connect.{ConnectManager, ConnectInfo, get_connect_info}
use silvernode_go.Nets.Connect.View.{find}
use silvernode_go.Nets.Origin.{OriginInfo, missing, illegal, origin_info, parse_origin_info}
use silvernode_go.Strings.{has_prefix}
use silvernode_go.Node.{
  Verdict, refused, admitted, guest_prefix, is_guest, guest_of, unless_connected, as_guest,
  after_sig, after_origin, on_check_node,
}

-- The name is a guest's or empty.
abbrev pub Unknown : Bytes → Type 0
Unknown node_id = (is_guest node_id ≡ true) ⊎ (node_id ≡ [])

guest_of-Unknown : (generated node_id : Bytes) → Unknown (guest_of generated node_id)
unfolding guest_of is_guest has_prefix
guest_of-Unknown generated [] = inl refl
guest_of-Unknown generated (c ∷ cs) = elim (Bool-cases (has_prefix (c ∷ cs) guest_prefix)) [
  | inl h ↦ rw h (inr refl)
  | inr h ↦ rw h (inl refl)
]

admitted_inj :
    (a b : Bytes) (m n : ConnectManager)
    → ◌≡◌ {A = Verdict × ConnectManager} (admitted a, m) (admitted b, n)
    → a ≡ b
admitted_inj a b m n e = cc

not_admitted :
    (b : Bytes) (m n : ConnectManager)
    → ◌≢◌ {A = Verdict × ConnectManager} (refused, m) (admitted b, n)
not_admitted b m n e = cc

module _ (is_pub : Bool) (check_node_sig : Bytes → Bytes → Option Bool)
    (parse_host : Bytes → Option Bytes) (generated : Bytes) where
  -- The registry confirmed the signature that the origin carries with this name, and no node of
  -- this name is connected.
  abbrev pub Verified : OriginInfo → Bytes → ConnectManager → Type 0
  Verified o node_id m =
      (host sig : Bytes) × (o ≡ origin_info node_id host sig)
      × (check_node_sig node_id sig ≡ some true)
      × (find node_id m ≡ none)

  guest-Unknown :
      (node_id i : Bytes) (m n : ConnectManager)
      → as_guest is_pub check_node_sig parse_host generated i m ≡ (admitted node_id, n)
      → Unknown node_id
  guest-Unknown node_id i m n e = elim (Bool-cases is_pub) [
    | inl h ↦
        subst Unknown (admitted_inj (guest_of generated i) node_id m n (rw h at e))
          (guest_of-Unknown generated i)
    | inr h ↦ absurd (not_admitted node_id m n (rw h at e))
  ]

  connected_lem :
      (i host sig node_id : Bytes) (m n : ConnectManager)
      → check_node_sig i sig ≡ some true
      → unless_connected i (get_connect_info i m) ≡ (admitted node_id, n)
      → Unknown node_id ⊎ Verified (origin_info i host sig) node_id m
  connected_lem i host sig node_id m n c e = go (get_connect_info i m).0 refl
    where
      go :
          (o : Option ConnectInfo)
          → find i m ≡ o
          → Unknown node_id ⊎ Verified (origin_info i host sig) node_id m
      go none f = inr (
          subst (λ (j : Bytes). Verified (origin_info i host sig) j m)
            (admitted_inj i node_id (get_connect_info i m).1 n (
              sym (
                ap (λ (o : Option ConnectInfo). unless_connected i (o, (get_connect_info i m).1)) f)
              ∙ e))
            (host, sig, refl, c, f))
      go (some info) f = absurd (
          not_admitted node_id (get_connect_info i m).1 n (
            sym
              (ap (λ (o : Option ConnectInfo). unless_connected i (o, (get_connect_info i m).1)) f)
            ∙ e))

  sig_lem :
      (i host sig node_id : Bytes) (m n : ConnectManager) (s : Option Bool)
      → check_node_sig i sig ≡ s
      → after_sig is_pub check_node_sig parse_host generated i s m ≡ (admitted node_id, n)
      → Unknown node_id ⊎ Verified (origin_info i host sig) node_id m
  sig_lem i host sig node_id m n none c e = absurd (not_admitted node_id m n e)
  sig_lem i host sig node_id m n (some false) c e = inl (guest-Unknown node_id i m n e)
  sig_lem i host sig node_id m n (some true) c e = connected_lem i host sig node_id m n c e

  origin_lem :
      (o : OriginInfo) (node_id : Bytes) (m n : ConnectManager)
      → after_origin is_pub check_node_sig parse_host generated o m ≡ (admitted node_id, n)
      → Unknown node_id ⊎ Verified o node_id m
  origin_lem missing node_id m n e = inl (guest-Unknown node_id [] m n e)
  origin_lem illegal node_id m n e = inl (guest-Unknown node_id [] m n e)
  origin_lem (origin_info i host sig) node_id m n e =
      sig_lem i host sig node_id m n (check_node_sig i sig) refl e

  -- Whatever name `OnCheckNode` lets a node in under: it is a guest's, or empty, or the registry
  -- confirmed the signature that the origin carries with it and no such node is connected.
  pub on_check_node-Verified :
      (origin node_id : Bytes) (m n : ConnectManager)
      → on_check_node is_pub check_node_sig parse_host generated origin m ≡ (admitted node_id, n)
      → Unknown node_id ⊎ Verified (parse_origin_info parse_host origin) node_id m
  unfolding on_check_node
  on_check_node-Verified origin node_id m n e =
      origin_lem (parse_origin_info parse_host origin) node_id m n e

-- A public node lets a node in under the empty name, which is no guest's, where the origin names a
-- guest and the registry does not confirm the signature.
pub guest_name_admits_empty :
    (check_node_sig : Bytes → Bytes → Option Bool) (parse_host : Bytes → Option Bytes)
    (generated origin node_id host sig : Bytes) (m : ConnectManager)
    → parse_origin_info parse_host origin ≡ origin_info node_id host sig
    → check_node_sig node_id sig ≡ some false
    → is_guest node_id ≡ true
    → (on_check_node true check_node_sig parse_host generated origin m ≡ (admitted [], m))
      × (is_guest [] ≡ false)
unfolding on_check_node is_guest
guest_name_admits_empty check_node_sig parse_host generated origin node_id host sig m o c g =
    (rw (o, c) (ap (λ (i : Bytes). (admitted i, m)) (emptied node_id g)), unfold has_prefix in refl)
  where
    emptied : (i : Bytes) → has_prefix i guest_prefix ≡ true → guest_of generated i ≡ []
    emptied [] h = absurd (unfold has_prefix in ground (arith, h))
    emptied (b ∷ bs) h = unfold guest_of in rw h refl
