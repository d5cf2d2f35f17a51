-- ===== src/Nets/Session/Closing.antt =====
-- nets/tcp.go: onClose and onError on the state of the sessions.
use silvernode_go.Common.{
  ℕ, ◌+◌, ◌≡◌, refl, ◌↔◌, ◌⊎◌, inl, inr, true, false, Option, none, some, List, [], ◌∷◌, ◌++◌,
  arith, if◌then◌else◌, nat_beq_iff, Bool-cases, Option-cases, is_some, ◌==◌, Bytes, nat_eq,
  bytes_eq, bytes_beq_iff,
}
use mathlib.Core.Path.{subst}
use silvernode_go.Stl.Slices.{one_if}
use silvernode_go.Nets.Connect.{ConnectManager, remove_connect_info, get_node_id_by_conn}
use silvernode_go.Nets.Connect.View.{conn_of}
use silvernode_go.Nets.Connect.Edits.{remove_connect_info_lem}
use silvernode_go.Nets.Session.{
  SessionError, Effect, on_close, on_error, close_conn, World, emit, is_eof, closed, error_of,
  failed,
}
use silvernode_go.Nets.Session.Steps.{opened, ended, opened-append, ended-append, IsSound}

conn_of-remove :
    (i j : Bytes) (k : ℕ) (c : ConnectManager)
    → conn_of j (remove_connect_info i k c) ≡ (if i == j then none else conn_of j c)
conn_of-remove i j k c = rw ((remove_connect_info_lem i k c).0 j) (ground arith)

remove_pair :
    (i j : Bytes) (k l : ℕ) (o : Option ℕ) (q : Option Bytes)
    → ((o ≡ some l) ↔ (q ≡ some j))
    → (i ≡ j → o ≡ some k)
    → (k ≡ l → q ≡ some i)
    → ((if i == j then none else o) ≡ some l) ↔ ((if k == l then none else q) ≡ some j)
remove_pair i j k l o q both f g = ground (arith, bytes_beq_iff i j, nat_beq_iff k l, both, f, g)

closed_count :
    (i j : Bytes) (k : ℕ) (err : SessionError) (es : List Effect) (o : Option ℕ)
    → opened j es ≡ ended j es + one_if (is_some o)
    → (i ≡ j → o ≡ some k)
    → opened j (es ++ (on_close i err ∷ close_conn k ∷ []))
      ≡ ended j (es ++ (on_close i err ∷ close_conn k ∷ []))
        + one_if (is_some (if i == j then none else o))
closed_count i j k err es o e f =
    rw
      (
        opened-append j es (on_close i err ∷ close_conn k ∷ []),
        ended-append j es (on_close i err ∷ close_conn k ∷ []),
      )
      (ground (arith, bytes_beq_iff i j, e, f))

pub closed-IsSound :
    (i : Bytes) (k : ℕ) (err : SessionError) (w : World)
    → IsSound w
    → conn_of i w.manager ≡ some k
    → IsSound (closed i k err w)
unfolding closed
closed-IsSound i k err w v h = record {
  paired = λ j l.
      rw (conn_of-remove i j k w.manager, (remove_connect_info_lem i k w.manager).1 l)
        (remove_pair i j k l (conn_of j w.manager) (get_node_id_by_conn l w.manager) (v.paired j l)
          (λ e. subst (λ (n : Bytes). conn_of n w.manager ≡ some k) e h)
          (λ e.
            subst (λ (n : ℕ). get_node_id_by_conn n w.manager ≡ some i) e ((v.paired i k).0 h)));
  balanced = λ j. rw (conn_of-remove i j k w.manager) (
      closed_count i j k err w.effects (conn_of j w.manager) (v.balanced j)
        (λ e. subst (λ (n : Bytes). conn_of n w.manager ≡ some k) e h));
}

-- An effect that is no call of OnConnect or OnClose.
emit_count :
    (j : Bytes) (es fs : List Effect) (n : ℕ)
    → opened j fs ≡ 0
    → ended j fs ≡ 0
    → opened j es ≡ ended j es + n
    → opened j (es ++ fs) ≡ ended j (es ++ fs) + n
emit_count j es fs n a b e = omega (arith, opened-append j es fs, ended-append j es fs)

-- The managers answer alike, and only such effects are new.
pub moved-IsSound :
    (w w' : World) (fs : List Effect)
    → IsSound w
    → ((j : Bytes) → conn_of j w'.manager ≡ conn_of j w.manager)
    → ((k : ℕ) → get_node_id_by_conn k w'.manager ≡ get_node_id_by_conn k w.manager)
    → w'.effects ≡ w.effects ++ fs
    → ((j : Bytes) → opened j fs ≡ 0)
    → ((j : Bytes) → ended j fs ≡ 0)
    → IsSound w'
moved-IsSound w w' fs v same owner e a b = record {
  paired = λ j k. rw (same j, owner k) (v.paired j k);
  balanced = λ j.
      rw (same j, e)
        (emit_count j w.effects fs (one_if (is_some (conn_of j w.manager))) (a j) (b j)
          (v.balanced j));
}

pub failed-IsSound :
    (conn : Option ℕ) (err : SessionError) (w : World) → IsSound w → IsSound (failed conn err w)
failed-IsSound none err w v =
    unfold failed in
    moved-IsSound w (emit (on_error err ∷ []) w) (on_error err ∷ []) v (λ j. refl) (λ k. refl) refl
      (λ j. refl) (λ j. refl)
failed-IsSound (some k) err w v =
    unfold failed in
    elim (Option-cases (get_node_id_by_conn k w.manager)) [
      | inl h ↦ rw h (unregistered (Bool-cases (is_eof err)))
      | inr (i, h) ↦ rw h (closed-IsSound i k err w v ((v.paired i k).1 h))
    ]
  where
    unregistered : (is_eof err ≡ true) ⊎ (is_eof err ≡ false) → IsSound (error_of none k err w)
    unregistered (inl e) = rw e (
        moved-IsSound w (emit (close_conn k ∷ []) w) (close_conn k ∷ []) v (λ j. refl) (λ n. refl)
          refl (λ j. refl) (λ j. refl))
    unregistered (inr e) = rw e (
        moved-IsSound w (emit (close_conn k ∷ on_error err ∷ []) w)
          (close_conn k ∷ on_error err ∷ []) v (λ j. refl) (λ n. refl) refl (λ j. refl) (λ j. refl))
