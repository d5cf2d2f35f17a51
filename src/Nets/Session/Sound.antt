-- ===== src/Nets/Session/Sound.antt =====
-- nets/tcp.go: onConn and onMsg on the state of the sessions, and the steps together.
use silvernode_go.Common.{
  ℕ, ◌+◌, ◌≡◌, refl, sym, ap, ◌∙◌, ◌↔◌, inl, inr, Bool, true, false, Option, none, some, List, [],
  ◌∷◌, ◌++◌, arith, if◌then◌else◌, nat_beq_iff, Bool-cases, is_some, ret, ret-injective, ◌==◌,
  Bytes, nat_eq, bytes_eq, bytes_beq_iff,
}
use mathlib.Core.Path.{subst}
use mathlib.Core.List.{append-nil}
use silvernode_go.Stl.GoMap.{lookup}
use silvernode_go.Stl.Slices.{one_if}
use silvernode_go.Nets.Connect.{
  ConnectInfo, ConnectManager, new_connect_manager, add_connect_info, get_node_id_by_conn,
}
use silvernode_go.Nets.Connect.View.{find, find-new, conn_of}
use silvernode_go.Nets.Connect.Edits.{taken, add_connect_info_lem}
use silvernode_go.Nets.Session.{
  duplicate, Effect, on_connect, on_message, on_error, close_conn, send_pong, World, new_world,
  emit, is_eof, failed, connected, after_check, received,
}
use silvernode_go.Nets.Connect.Pings.{check_ping_pong_lem}
use silvernode_go.Nets.Session.Steps.{
  Step, connect, receive, fail, close, Reachable, start, next, opened, ended, opened-append,
  ended-append, IsSound,
}
use silvernode_go.Nets.Session.Closing.{closed-IsSound, moved-IsSound, failed-IsSound}

free_node :
    (info : ConnectInfo) (c : ConnectManager) → taken info c ≡ false → conn_of info.node_id c ≡ none
free_node info c h = ground (arith, h)

free_conn :
    (info : ConnectInfo) (c : ConnectManager)
    → taken info c ≡ false
    → get_node_id_by_conn info.conn c ≡ none
unfolding get_node_id_by_conn
free_conn info c h = ground (arith, h)

conn_of-add :
    (info : ConnectInfo) (c : ConnectManager) (j : Bytes)
    → taken info c ≡ false
    → conn_of j (add_connect_info info c).1
      ≡ (if info.node_id == j then some info.conn else conn_of j c)
conn_of-add info c j h = rw ((add_connect_info_lem info c).1 j, h) (ground arith)

owner_add :
    (info : ConnectInfo) (c : ConnectManager) (k : ℕ)
    → taken info c ≡ false
    → get_node_id_by_conn k (add_connect_info info c).1
      ≡ (if info.conn == k then some info.node_id else get_node_id_by_conn k c)
owner_add info c k h = rw ((add_connect_info_lem info c).2 k, h) refl

add_pair :
    (i j : Bytes) (k l : ℕ) (o : Option ℕ) (q : Option Bytes)
    → ((o ≡ some l) ↔ (q ≡ some j))
    → (i ≡ j → o ≡ none)
    → (k ≡ l → q ≡ none)
    → ((if i == j then some k else o) ≡ some l) ↔ ((if k == l then some i else q) ≡ some j)
add_pair i j k l o q both f g = ground (arith, bytes_beq_iff i j, nat_beq_iff k l, both, f, g)

add_count :
    (i j : Bytes) (k : ℕ) (es : List Effect) (o : Option ℕ)
    → opened j es ≡ ended j es + one_if (is_some o)
    → (i ≡ j → o ≡ none)
    → opened j (es ++ (on_connect i ∷ []))
      ≡ ended j (es ++ (on_connect i ∷ [])) + one_if (is_some (if i == j then some k else o))
add_count i j k es o e f =
    rw (opened-append j es (on_connect i ∷ []), ended-append j es (on_connect i ∷ []))
      (ground (arith, bytes_beq_iff i j, e, f))

added-IsSound :
    (info : ConnectInfo) (w : World)
    → IsSound w
    → taken info w.manager ≡ false
    → IsSound (
        emit
          (on_connect info.node_id ∷ [])
          (record w { manager = (add_connect_info info w.manager).1 }))
added-IsSound info w v h = record {
  paired = λ j l.
      rw (conn_of-add info w.manager j h, owner_add info w.manager l h)
        (add_pair info.node_id j info.conn l (conn_of j w.manager) (get_node_id_by_conn l w.manager)
          (v.paired j l)
          (λ e. subst (λ (n : Bytes). conn_of n w.manager ≡ none) e (free_node info w.manager h))
          (λ e.
            subst (λ (n : ℕ). get_node_id_by_conn n w.manager ≡ none) e
              (free_conn info w.manager h)));
  balanced = λ j. rw (conn_of-add info w.manager j h) (
      add_count info.node_id j info.conn w.effects (conn_of j w.manager) (v.balanced j)
        (λ e. subst (λ (n : Bytes). conn_of n w.manager ≡ none) e (free_node info w.manager h)));
}

refused-IsSound :
    (info : ConnectInfo) (w : World)
    → IsSound w
    → taken info w.manager ≡ true
    → IsSound (record w { manager = (add_connect_info info w.manager).1 })
refused-IsSound info w v h =
    moved-IsSound w (record w { manager = (add_connect_info info w.manager).1 }) [] v
      (λ j. rw ((add_connect_info_lem info w.manager).1 j, h) refl)
      (λ k. rw ((add_connect_info_lem info w.manager).2 k, h) refl) (sym (append-nil w.effects))
      (λ j. refl) (λ j. refl)

connected-IsSound : (info : ConnectInfo) (w : World) → IsSound w → IsSound (connected info w)
unfolding connected
connected-IsSound info w v = elim (Bool-cases (taken info w.manager)) [
  | inl h ↦
      rw ((add_connect_info_lem info w.manager).0, h)
        (failed-IsSound (some info.conn) (duplicate info.node_id)
          (record w { manager = (add_connect_info info w.manager).1 }) (refused-IsSound info w v h))
  | inr h ↦ rw ((add_connect_info_lem info w.manager).0, h) (added-IsSound info w v h)
]

abbrev news : Bytes → Bytes → Bool → Bool → List Effect
news i msg true true = send_pong i ∷ []
news i msg true false = []
news i msg false p = on_message i msg ∷ []

after_check-effects :
    (i msg : Bytes) (w : World) (h p : Bool) (c : ConnectManager)
    → (after_check i msg w (h, p, c)).effects ≡ w.effects ++ news i msg h p
after_check-effects i msg w true true c = refl
after_check-effects i msg w true false c = sym (append-nil w.effects)
after_check-effects i msg w false p c = refl

after_check-manager :
    (i msg : Bytes) (w : World) (h p : Bool) (c : ConnectManager)
    → (after_check i msg w (h, p, c)).manager ≡ c
after_check-manager i msg w true true c = refl
after_check-manager i msg w true false c = refl
after_check-manager i msg w false p c = refl

news_silent :
    (j i msg : Bytes) (h p : Bool)
    → (opened j (news i msg h p) ≡ 0) × (ended j (news i msg h p) ≡ 0)
news_silent j i msg true true = (refl, refl)
news_silent j i msg true false = (refl, refl)
news_silent j i msg false p = (refl, refl)

received-IsSound :
    (now : ℕ) (i : Bytes) (b : ℕ) (bs : Bytes) (w w' : World)
    → received now i (b ∷ bs) w ≡ ret w'
    → IsSound w
    → IsSound w'
unfolding received
received-IsSound now i b bs w w' e v =
    let (h, p, c, ran, answer, pong, same, owner) = check_ping_pong_lem now i b bs w.manager in
    subst IsSound (ret-injective (rw ran at e)) (
      moved-IsSound w (after_check i (b ∷ bs) w (h, p, c)) (news i (b ∷ bs) h p) v
        (λ j. ap (conn_of j) (after_check-manager i (b ∷ bs) w h p c) ∙ same j)
        (λ k.
          ap (get_node_id_by_conn k) (after_check-manager i (b ∷ bs) w h p c)
          ∙ unfold get_node_id_by_conn in ap (lookup k) owner)
        (after_check-effects i (b ∷ bs) w h p c) (λ j. (news_silent j i (b ∷ bs) h p).0)
        (λ j. (news_silent j i (b ∷ bs) h p).1))

unowned : (k : ℕ) → get_node_id_by_conn k new_connect_manager ≡ none
unfolding get_node_id_by_conn new_connect_manager lookup
unowned k = refl

new-IsSound : IsSound (record { manager = new_connect_manager; effects = [] })
new-IsSound = record {
  paired = λ j k. rw (find-new j, unowned k) (ground arith);
  balanced = λ j. rw (find-new j) refl;
}

Step-IsSound : (w w' : World) → Step w w' → IsSound w → IsSound w'
Step-IsSound _ _ (connect info w) v = connected-IsSound info w v
Step-IsSound _ _ (receive now i b bs w w' e) v = received-IsSound now i b bs w w' e v
Step-IsSound _ _ (fail conn err w) v = failed-IsSound conn err w v
Step-IsSound _ _ (close i conn err w e) v = closed-IsSound i conn err w v e

-- In every state that connections, messages that are not empty, errors and closings can reach, the
-- manager's two maps are inverse to each other, and for each node OnConnect was called once more
-- than OnClose if the node is connected, and as often if it is not.
pub sessions-IsSound : (w : World) → Reachable w → IsSound w
sessions-IsSound _ start = unfold new_world in new-IsSound
sessions-IsSound _ (next w0 w r s) = Step-IsSound w0 w s (sessions-IsSound w0 r)

-- A connection that claims the name of a node connected elsewhere is closed, and the listener is
-- told of the error only: the manager answers as before, so the first connection stays.
pub second_session_refused :
    (info first : ConnectInfo) (w : World)
    → find info.node_id w.manager ≡ some first
    → get_node_id_by_conn info.conn w.manager ≡ none
    → ((connected info w).effects
        ≡ w.effects ++ (close_conn info.conn ∷ on_error (duplicate info.node_id) ∷ []))
      × ((j : Bytes) → find j (connected info w).manager ≡ find j w.manager)
      × ((k : ℕ)
          → get_node_id_by_conn k (connected info w).manager ≡ get_node_id_by_conn k w.manager)
unfolding connected
second_session_refused info first w here free =
    rw ((add_connect_info_lem info w.manager).0, refused)
      (unfold failed is_eof in
        rw ((add_connect_info_lem info w.manager).2 info.conn, refused, free)
          (
            refl,
            λ j. rw ((add_connect_info_lem info w.manager).1 j, refused) refl,
            λ k. rw ((add_connect_info_lem info w.manager).2 k, refused) refl,
          ))
  where
    refused : taken info w.manager ≡ true
    refused = rw here refl
