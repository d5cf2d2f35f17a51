-- ===== src/Nets/Handshake/Fewer.antt =====
-- nets: which nodes are registered, whatever the connections and messages do.
use silvernode_go.Common.{
  ℕ, ◌≡◌, refl, sym, ap, ◌∙◌, ◌≢◌, inl, inr, Bool, true, false, Option, none, some, [], ◌∷◌, arith,
  if◌then◌else◌, Bool-cases, Option-cases, ret, panic, ret-injective, ◌==◌, Bytes, nat_eq, bytes_eq,
  bytes_beq_iff,
}
use mathlib.Core.Path.{subst}
use silvernode_go.Nets.Connect.{
  ConnectInfo, ConnectManager, remove_connect_info, get_connect_info, get_node_id_by_conn,
  node_name, put_info, check_ping_pong, check_message,
}
use silvernode_go.Nets.Connect.View.{find, find-made, find-put_info, same_find}
use silvernode_go.Nets.Connect.Edits.{remove_connect_info_lem}
use silvernode_go.Nets.Connect.Pings.{checked, check_message_lem}
use silvernode_go.Nets.Session.{
  SessionError, World, closed, error_of, failed, is_eof, after_check, received,
}
use silvernode_go.Nets.Address.{Transport, tcp, udp, ws}
use silvernode_go.Nets.Handshake.{loud_error_of, loud_failed, failed_on}

-- Every node that the first manager has, the second has with the same URL.
abbrev pub Fewer : ConnectManager → ConnectManager → Type 0
Fewer m' m =
    (j : Bytes) (info' : ConnectInfo)
    → find j m' ≡ some info'
    → (info : ConnectInfo) × (find j m ≡ some info) × (info.url ≡ info'.url)

same-Fewer : (m' m : ConnectManager) → ((j : Bytes) → find j m' ≡ find j m) → Fewer m' m
same-Fewer m' m e j info' h = (info', sym (e j) ∙ h, refl)

removed-Fewer : (i : Bytes) (conn : ℕ) (m : ConnectManager) → Fewer (remove_connect_info i conn m) m
removed-Fewer i conn m j info' h =
    (info', kept (i == j) (find j m) (sym ((remove_connect_info_lem i conn m).0 j) ∙ h), refl)
  where
    kept :
        (b : Bool) (o : Option ConnectInfo) → (if b then none else o) ≡ some info' → o ≡ some info'
    kept b o e = ground (arith, e)

pub closed-Fewer :
    (i : Bytes) (conn : ℕ) (err : SessionError) (w : World)
    → Fewer (closed i conn err w).manager w.manager
unfolding closed
closed-Fewer i conn err w = removed-Fewer i conn w.manager

pub failed-Fewer :
    (conn : Option ℕ) (err : SessionError) (w : World) → Fewer (failed conn err w).manager w.manager
unfolding failed
failed-Fewer none err w = same-Fewer w.manager w.manager (λ j. refl)
failed-Fewer (some conn) err w = owned (get_node_id_by_conn conn w.manager)
  where
    owned : (o : Option Bytes) → Fewer (error_of o conn err w).manager w.manager
    owned (some i) = closed-Fewer i conn err w
    owned none = elim (Bool-cases (is_eof err)) [
      | inl h ↦ rw h (same-Fewer w.manager w.manager (λ j. refl))
      | inr h ↦ rw h (same-Fewer w.manager w.manager (λ j. refl))
    ]

pub loud_failed-Fewer :
    (conn : Option ℕ) (err : SessionError) (w : World)
    → Fewer (loud_failed conn err w).manager w.manager
unfolding loud_failed
loud_failed-Fewer none err w = same-Fewer w.manager w.manager (λ j. refl)
loud_failed-Fewer (some conn) err w = owned (get_node_id_by_conn conn w.manager)
  where
    owned : (o : Option Bytes) → Fewer (loud_error_of o conn err w).manager w.manager
    owned (some i) = closed-Fewer i conn err w
    owned none = same-Fewer w.manager w.manager (λ j. refl)

pub failed_on-Fewer :
    (t : Transport) (conn : Option ℕ) (err : SessionError) (w : World)
    → Fewer (failed_on t conn err w).manager w.manager
failed_on-Fewer tcp conn err w = failed-Fewer conn err w
failed_on-Fewer udp conn err w = loud_failed-Fewer conn err w
failed_on-Fewer ws conn err w = loud_failed-Fewer conn err w

put-Fewer :
    (i : Bytes) (info info' : ConnectInfo) (c : ConnectManager)
    → find i c ≡ some info
    → info.url ≡ info'.url
    → Fewer (put_info (node_name i) i info' (get_connect_info i c).1) c
put-Fewer i info info' c here url j seen h = elim (Bool-cases (i == j)) [
  | inl e ↦ (
    info,
    sym (same_find i j c ((bytes_beq_iff i j).0 e)) ∙ here,
    url ∙ ap (λ x. x.url) (found-injective (rw e at put)),
  )
  | inr e ↦ (seen, sym (find-made j i c) ∙ rw e at put, refl)
]
  where
    put : (if i == j then some info' else find j (get_connect_info i c).1) ≡ some seen
    put = sym (find-put_info j i info' (get_connect_info i c).1) ∙ h

    found-injective : {a b : ConnectInfo} → some a ≡ some b → a ≡ b
    found-injective e = cc

after_check-Fewer :
    (i msg : Bytes) (w : World) (h p : Bool) (c : ConnectManager)
    → Fewer c w.manager
    → Fewer (after_check i msg w (h, p, c)).manager w.manager
after_check-Fewer i msg w true true c f = f
after_check-Fewer i msg w true false c f = f
after_check-Fewer i msg w false p c f = f

nothing_returned : {A : Type 0} (a : A) → panic ≢ ret a
nothing_returned a e = cc

empty_message : (now : ℕ) (info : ConnectInfo) → check_message now [] info ≡ panic
unfolding check_message
empty_message now info = refl

pub received-Fewer :
    (now : ℕ) (i msg : Bytes) (w w' : World)
    → received now i msg w ≡ ret w'
    → Fewer w'.manager w.manager
unfolding received check_ping_pong
received-Fewer now i msg w w' e = elim (Option-cases (find i w.manager)) [
  | inl h ↦
      subst (λ (v : World). Fewer v.manager w.manager) (ret-injective (rw h at e))
        (same-Fewer (get_connect_info i w.manager).1 w.manager (λ j. find-made j i w.manager))
  | inr (info, h) ↦ known msg info h e
]
  where
    known :
        (msg : Bytes) (info : ConnectInfo)
        → find i w.manager ≡ some info
        → received now i msg w ≡ ret w'
        → Fewer w'.manager w.manager
    known [] info h e = absurd (nothing_returned w' (rw (h, empty_message now info) at e))
    known (b ∷ bs) info h e =
        subst (λ (v : World). Fewer v.manager w.manager)
          (ret-injective (rw (h, check_message_lem now b bs info) at e))
          (after_check-Fewer i (b ∷ bs) w _ _ _
            (put-Fewer i info (checked now (b ∷ bs) info).info w.manager h refl))
