-- ===== src/Nets/Handshake/Admitted.antt =====
-- nets: a node that connected from outside was let in by OnCheckNode.
use silvernode_go.Common.{
  ℕ, ◌≡◌, refl, sym, ◌∙◌, inl, inr, Option, some, if◌then◌else◌, Bool-cases, Run, ret, panic, stuck,
  ◌>>=◌, ◌==◌, Bytes, nat_eq, bytes_eq, bytes_beq_iff,
}
use mathlib.Core.Path.{subst}
use silvernode_go.Nets.Connect.{ConnectInfo, ConnectManager, new_connect_info, add_connect_info}
use silvernode_go.Nets.Connect.View.{find}
use silvernode_go.Nets.Connect.Edits.{taken, add_connect_info_lem}
use silvernode_go.Nets.Session.{duplicate, World, connected}
use silvernode_go.Nets.Address.{Transport}
use silvernode_go.Nets.Handshake.{HandError, local_url, accepted}
use silvernode_go.Nets.Handshake.Fewer.{Fewer, failed-Fewer}

-- OnCheckNode as it is at its successive calls, numbered: the registry may answer otherwise each time.
module _ (check : ℕ → Bytes → ConnectManager → Option Bytes × ConnectManager) where
  -- OnCheckNode answered with this name, at some call, some origin and some state of the manager.
  abbrev pub IsAdmitted : Bytes → Type 0
  IsAdmitted node_id =
      (k : ℕ) × (origin : Bytes) × (m n : ConnectManager) × (check k origin m ≡ (some node_id, n))

  -- Every node that is registered as one that connected from outside was admitted.
  abbrev pub AllAdmitted : ConnectManager → Type 0
  AllAdmitted m =
      (node_id : Bytes) (info : ConnectInfo)
      → find node_id m ≡ some info
      → info.url ≡ local_url
      → IsAdmitted node_id

  pub Fewer-AllAdmitted : (m' m : ConnectManager) → Fewer m' m → AllAdmitted m → AllAdmitted m'
  Fewer-AllAdmitted m' m f a i info' h url =
      let (info, here, same) = f i info' h in a i info here (same ∙ url)

  pub same-AllAdmitted :
      (m' m : ConnectManager)
      → ((j : Bytes) → find j m' ≡ find j m)
      → AllAdmitted m
      → AllAdmitted m'
  same-AllAdmitted m' m e a i info h = a i info (sym (e i) ∙ h)

  pub connected-AllAdmitted :
      (info : ConnectInfo) (w : World)
      → (info.url ≡ local_url → IsAdmitted info.node_id)
      → AllAdmitted w.manager
      → AllAdmitted (connected info w).manager
  unfolding connected
  connected-AllAdmitted info w own a = elim (Bool-cases (taken info w.manager)) [
    | inl h ↦
        rw ((add_connect_info_lem info w.manager).0, h)
          (Fewer-AllAdmitted _ (add_connect_info info w.manager).1
            (failed-Fewer (some info.conn) (duplicate info.node_id)
              (record w { manager = (add_connect_info info w.manager).1 }))
            (same-AllAdmitted (add_connect_info info w.manager).1 w.manager
              (λ j. rw ((add_connect_info_lem info w.manager).1 j, h) refl) a))
    | inr h ↦
        rw ((add_connect_info_lem info w.manager).0, h)
          (λ i seen here url.
            added i seen url (rw ((add_connect_info_lem info w.manager).1 i, h) at here))
  ]
    where
      added :
          (i : Bytes) (seen : ConnectInfo)
          → seen.url ≡ local_url
          → (if info.node_id == i then some info else find i w.manager) ≡ some seen
          → IsAdmitted i
      added i seen url here = elim (Bool-cases (info.node_id == i)) [
        | inl e ↦
            subst IsAdmitted ((bytes_beq_iff info.node_id i).0 e) (own (same (rw e at here) url))
        | inr e ↦ a i seen (rw e at here) url
      ]
        where
          same : some info ≡ some seen → seen.url ≡ local_url → info.url ≡ local_url
          same e u = cc

  -- What a run that ends has.
  abbrev pub OnRet : {X : Type 0} → (X → Type 0) → Run X → Type 0
  OnRet P (ret x) = P x
  OnRet P panic = Unit
  OnRet P stuck = Unit

  pub OnRet-bind :
      {X Y : Type 0} (P : X → Type 0) (Q : Y → Type 0) (r : Run X) (f : X → Y)
      → OnRet P r
      → ((x : X) → P x → Q (f x))
      → OnRet Q (r >>= λ x. ret (f x))
  OnRet-bind P Q (ret x) f p g = g x p
  OnRet-bind P Q panic f p g = tt
  OnRet-bind P Q stuck f p g = tt

  -- The world of an outcome is one where all nodes were admitted.
  abbrev pub Kept : Option HandError × World → Type 0
  Kept (err, w) = AllAdmitted w.manager

  pub accepted-AllAdmitted :
      (t : Transport) (conn worker net_worker : ℕ) (node_id : Bytes) (w : World)
      → IsAdmitted node_id
      → AllAdmitted w.manager
      → AllAdmitted (connected (accepted t conn worker net_worker node_id) w).manager
  unfolding new_connect_info
  accepted-AllAdmitted t conn worker net_worker node_id w own a =
      connected-AllAdmitted (accepted t conn worker net_worker node_id) w (λ e. own) a

  -- `OnCheckNode` leaves what the manager answers as it is.
  abbrev pub IsQuiet : Type 0
  IsQuiet = (k : ℕ) (origin j : Bytes) (m : ConnectManager) → find j (check k origin m).1 ≡ find j m
