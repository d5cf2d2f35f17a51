-- ===== src/Peers/Registry/Disposed.antt =====
-- peers/peers.go: the tables under any sequence of registrations and disposals.
use silvernode_go.Common.{◌≡◌, Bool, true, some, Bytes, nat_eq, bytes_eq}
use silvernode_go.Stl.GoMap.{GoMap, lookup}
use silvernode_go.Peers.Exchange.{Exchange}
use silvernode_go.Peers.Registry.{Entry, register_with_nick, dispose}

module _ {P : Type 0} where
  pub data Step : GoMap Bytes (Entry P) → GoMap Bytes (Entry P) → Type 0 where
    register :
        (pointer : Bool) (nick type_name : Bytes) (p : P) (peers : GoMap Bytes (Entry P))
        → Step peers (register_with_nick pointer nick type_name p peers).1
    discard :
        (nick : Bytes) (with_processor : Bool) (peers : GoMap Bytes (Entry P))
        → Step peers (dispose nick with_processor peers).1

  pub data Steps : GoMap Bytes (Entry P) → GoMap Bytes (Entry P) → Type 0 where
    done : (peers : GoMap Bytes (Entry P)) → Steps peers peers
    then_step :
        (peers middle after : GoMap Bytes (Entry P))
        → Steps peers middle
        → Step middle after
        → Steps peers after

  -- The name is taken by an entry that was disposed of.
  abbrev pub IsDisposed : Bytes → GoMap Bytes (Entry P) → Type 0
  IsDisposed nick peers =
      (p : P) × (lookup nick peers ≡ some (record { peer = p; disposing = true }))
