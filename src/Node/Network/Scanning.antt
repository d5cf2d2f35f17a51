-- ===== src/Node/Network/Scanning.antt =====
-- silvernode.go: which nodes a scan connects to, and the names that connections get.
use silvernode_go.Common.{
  ◌≡◌, refl, sym, ap, ◌∙◌, ◌≢◌, ◌⊎◌, inl, inr, Bool, true, false, not, ◌&&◌, some, List, [], ◌∷◌,
  ◌++◌, arith, Bool-cases, Run, ret, panic, stuck, ◌>>=◌, ret-injective, ◌==◌, Bytes, nat_eq,
  bytes_eq, bytes_beq_iff,
}
use mathlib.Core.Path.{subst}
use mathlib.Core.List.{append_assoc}
use silvernode_go.Strings.{Free}
use silvernode_go.Ctx.NodeInfo.Names.{node_name-hash}
use silvernode_go.Nets.Connect.{ConnectInfo, node_name}
use silvernode_go.Netutil.{
  UrlInfo, illegal_url, illegal_address, illegal_port, url_info, parse_url_info,
}
use silvernode_go.Node.Network.{
  settled, illegal, under, second_name, target, is_back_end, Other, scan_one, connect_first,
  on_scanning,
}

-- The name is among the back ends.
abbrev pub IsAmong : Bytes → List Bytes → Type 0
IsAmong name [] = ⊥
IsAmong name (back ∷ backs) = (back ≡ name) ⊎ IsAmong name backs

is_back_end-IsAmong :
    (self : Bytes) (backs : List Bytes) (i : Bytes)
    → is_back_end self backs i ≡ true
    → IsAmong (node_name i) backs × (i ≢ self)
unfolding is_back_end
is_back_end-IsAmong self [] i h = absurd (ground (arith, h))
is_back_end-IsAmong self (back ∷ backs) i h =
    elim (Bool-cases (back == node_name i && not (self == i))) [
      | inl here ↦ (
        inl ((bytes_beq_iff back (node_name i)).0 (ground (arith, here))),
        λ e. ground (arith, here, e, bytes_beq_iff self i),
      )
      | inr there ↦
          let (among, other) = is_back_end-IsAmong self backs i (rw there at h) in
          (inr among, other)
    ]

no_panic : {A : Type 0} (a : A) → panic ≢ ret a
no_panic a e = cc

no_stuck : {A : Type 0} (a : A) → stuck ≢ ret a
no_stuck a e = cc

module _ {S : Type 0} (self : Bytes) (back_ends : List Bytes) (connected : Bytes → S → Bool × S)
    (connect_to : Bytes → Bytes → S → Run S) where
  scan_one-keeps :
      (P : S → Type 0)
      → ((i url : Bytes) (s s' : S)
          → IsAmong (node_name i) back_ends
          → i ≢ self
          → connect_to i url s ≡ ret s'
          → P s
          → P s')
      → (o : Other) (b : Bool) (s s' : S)
      → scan_one self back_ends connected connect_to o (b, s) ≡ ret s'
      → P s
      → P s'
  scan_one-keeps P f o true s s' e p = subst P (ret-injective e) p
  scan_one-keeps P f o false s s' e p = elim (Bool-cases (is_back_end self back_ends o.node_id)) [
    | inl h ↦
        let (among, other) = is_back_end-IsAmong self back_ends o.node_id h in
        at_first among other o.end_points (rw h at e)
    | inr h ↦ subst P (ret-injective (rw h at e)) p
  ]
    where
      at_first :
          IsAmong (node_name o.node_id) back_ends
          → o.node_id ≢ self
          → (urls : List Bytes)
          → connect_first self back_ends connected connect_to o urls s ≡ ret s'
          → P s'
      at_first among other [] e = absurd (no_panic s' e)
      at_first among other (url ∷ urls) e = f o.node_id url s s' among other e p

  -- A scan keeps whatever property of the state the look-up of a node keeps and connecting to another
  -- node keeps, where that node is not this one and its name is one of the back ends: it connects to no
  -- other nodes.
  pub on_scanning-keeps :
      (P : S → Type 0)
      → ((i : Bytes) (s : S) → P s → P (connected i s).1)
      → ((i url : Bytes) (s s' : S)
          → IsAmong (node_name i) back_ends
          → i ≢ self
          → connect_to i url s ≡ ret s'
          → P s
          → P s')
      → (os : List Other) (s s' : S) → on_scanning self back_ends connected connect_to os s ≡ ret s'
      → P s
      → P s'
  unfolding on_scanning
  on_scanning-keeps P looks f [] s s' e p = subst P (ret-injective e) p
  on_scanning-keeps P looks f (o ∷ os) s s' e p =
      after_one (scan_one self back_ends connected connect_to o (connected o.node_id s)) refl
        (λ s1 r q. on_scanning-keeps P looks f os s1 s' r q) e
    where
      after_one :
          (r : Run S)
          → scan_one self back_ends connected connect_to o (connected o.node_id s) ≡ r
          → ((s1 : S)
              → on_scanning self back_ends connected connect_to os s1 ≡ ret s'
              → P s1
              → P s')
          → (r >>= on_scanning self back_ends connected connect_to os) ≡ ret s'
          → P s'
      after_one panic done next e = absurd (no_panic s' e)
      after_one stuck done next e = absurd (no_stuck s' e)
      after_one (ret s1) done next e = next s1 e (
          scan_one-keeps P f o (connected o.node_id s).0 (connected o.node_id s).1 s1 done
            (looks o.node_id s p))

-- A node that is connected elsewhere gets a second name, of which `GetNodeNameFromId` finds the same
-- name.
second-name :
    (name rest url : Bytes) (info : ConnectInfo) (x : Bytes)
    → Free 35 name
    → target (name ++ (35 ∷ rest)) url (some info) ≡ under x
    → node_name x ≡ name
unfolding target
second-name name rest url info x f e = elim (Bool-cases (info.url == url)) [
  | inl h ↦ absurd (settled_not (rw h at e))
  | inr h ↦ at_port (parse_url_info url) (rw h at e)
]
  where
    settled_not : settled ≢ under x
    settled_not e = cc

    illegal_not : illegal ≢ under x
    illegal_not e = cc

    under-injective : (a : Bytes) → under a ≡ under x → a ≡ x
    under-injective a e = cc

    at_port : (u : UrlInfo) → second_name (name ++ (35 ∷ rest)) u ≡ under x → node_name x ≡ name
    at_port illegal_url e = absurd (illegal_not e)
    at_port illegal_address e = absurd (illegal_not e)
    at_port illegal_port e = absurd (illegal_not e)
    at_port (url_info proto ip port) e =
        ap node_name (sym (under-injective _ e) ∙ append_assoc name (35 ∷ rest) _)
        ∙ node_name-hash name (rest ++ _) f
