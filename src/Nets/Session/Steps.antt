-- ===== src/Nets/Session/Steps.antt =====
-- The sessions of a worker as a step relation: what any sequence of connections, messages, errors
-- and closings leaves in the manager, and what the listener has been told.
use silvernode_go.Common.{
  ℕ, ◌+◌, ◌≡◌, ◌↔◌, Option, some, List, [], ◌∷◌, ◌++◌, arith, is_some, ret, ◌==◌, Bytes, nat_eq,
  bytes_eq,
}
use silvernode_go.Stl.Slices.{one_if}
use silvernode_go.Nets.Connect.{ConnectInfo, get_node_id_by_conn}
use silvernode_go.Nets.Connect.View.{conn_of}
use silvernode_go.Nets.Session.{
  SessionError, Effect, on_connect, on_message, on_close, on_error, close_conn, send_pong, World,
  new_world, closed, failed, connected, received,
}

-- `close` is `ConnectInfo.Close`, which passes the node and the connection of a registered info.
pub data Step : World → World → Type 0 where
  connect : (info : ConnectInfo) (w : World) → Step w (connected info w)
  receive :
      (now : ℕ) (i : Bytes) (b : ℕ) (bs : Bytes) (w w' : World)
      → received now i (b ∷ bs) w ≡ ret w'
      → Step w w'
  fail : (conn : Option ℕ) (err : SessionError) (w : World) → Step w (failed conn err w)
  close :
      (i : Bytes) (conn : ℕ) (err : SessionError) (w : World)
      → conn_of i w.manager ≡ some conn
      → Step w (closed i conn err w)

pub data Reachable : World → Type 0 where
  start : Reachable new_world
  next : (w w' : World) → Reachable w → Step w w' → Reachable w'

abbrev opens : Bytes → Effect → ℕ
opens i (on_connect j) = one_if (j == i)
opens i (on_message j msg) = 0
opens i (on_close j err) = 0
opens i (on_error err) = 0
opens i (close_conn k) = 0
opens i (send_pong j) = 0

abbrev ends : Bytes → Effect → ℕ
ends i (on_connect j) = 0
ends i (on_message j msg) = 0
ends i (on_close j err) = one_if (j == i)
ends i (on_error err) = 0
ends i (close_conn k) = 0
ends i (send_pong j) = 0

-- How often the listener was told that the node connected, and that it closed.
abbrev pub opened : Bytes → List Effect → ℕ
opened i [] = 0
opened i (e ∷ es) = opens i e + opened i es

abbrev pub ended : Bytes → List Effect → ℕ
ended i [] = 0
ended i (e ∷ es) = ends i e + ended i es

pub opened-append :
    (i : Bytes) (es fs : List Effect) → opened i (es ++ fs) ≡ opened i es + opened i fs
opened-append i [] fs = omega arith
opened-append i (e ∷ es) fs = omega (arith, opened-append i es fs)

pub ended-append : (i : Bytes) (es fs : List Effect) → ended i (es ++ fs) ≡ ended i es + ended i fs
ended-append i [] fs = omega arith
ended-append i (e ∷ es) fs = omega (arith, ended-append i es fs)

-- The two maps of the manager are inverse to each other, and the listener was told of one
-- connection more than of closings exactly for the nodes that are connected.
pub record IsSound (w : World) : Type 0 where
  pub paired :
      (i : Bytes) (k : ℕ)
      → (conn_of i w.manager ≡ some k) ↔ (get_node_id_by_conn k w.manager ≡ some i)
  pub balanced :
      (i : Bytes) → opened i w.effects ≡ ended i w.effects + one_if (is_some (conn_of i w.manager))
