-- ===== src/Peers/Registry.antt =====
-- peers/peers.go: the peers of a node by their nicknames. What a peer is, is a parameter.
use silvernode_go.Common.{
  Bool, true, false, not, Option, none, some, List, [], ◌∷◌, if◌then◌else◌, Run, ret, ◌>>=◌, set,
  Bytes, nat_eq, bytes_eq,
}
use silvernode_go.Stl.GoMap.{GoMap, lookup, insert}
use silvernode_go.Buffutil.Parser.{Parser}
use silvernode_go.Peers.Exchange.{Exchange, unmarshal}
pub mod Disposed

pub record Entry (P : Type 0) : Type 0 where
  pub peer : P
  pub disposing : Bool

pub data Registered : Type 0 where
  no_pointer : Registered
  nick_taken : Registered
  registered : Bytes → Registered

-- What becomes of a message: no peer takes it, its peer deals with it at once, or its peer's processor
-- runs and gets it as a task.
pub data Handling (P : Type 0) : Type 0 where
  undecoded : Handling P
  nobody : Handling P
  dealt : P → Exchange → Handling P
  queued : P → Exchange → Handling P

-- The nickname, or the name of the type where it is empty.
abbrev pub nick_of : Bytes → Bytes → Bytes
nick_of [] type_name = type_name
nick_of (c ∷ cs) type_name = c ∷ cs

module _ {P : Type 0} where
  abbrev pub after_lookup :
      Bytes → P → GoMap Bytes (Entry P) → Option (Entry P) → Registered × GoMap Bytes (Entry P)
  after_lookup nick p peers (some entry) = (nick_taken, peers)
  after_lookup nick p peers none =
      (registered nick, insert nick (record { peer = p; disposing = false }) peers)

  -- `RegisterWithNick` of a peer that is a pointer or is not.
  unfoldable pub register_with_nick :
      Bool → Bytes → Bytes → P → GoMap Bytes (Entry P) → Registered × GoMap Bytes (Entry P)
  register_with_nick pointer nick type_name p peers =
      if pointer
      then after_lookup (nick_of nick type_name) p peers (lookup (nick_of nick type_name) peers)
      else (no_pointer, peers)

  -- The peer whose processor is terminated, if any
  abbrev pub terminated_when : Bool → P → Option P
  terminated_when false p = none
  terminated_when true p = some p

  abbrev pub disposed_entry :
      Bytes → Bool → GoMap Bytes (Entry P) → Option (Entry P) → Option P × GoMap Bytes (Entry P)
  disposed_entry nick with_processor peers none = (none, peers)
  disposed_entry nick with_processor peers (some entry) = (
    terminated_when with_processor entry.peer,
    insert nick (record { peer = entry.peer; disposing = true }) peers,
  )

  -- `Dispose`: the flag of the entry is set, and its processor terminated if asked.
  unfoldable pub dispose : Bytes → Bool → GoMap Bytes (Entry P) → Option P × GoMap Bytes (Entry P)
  dispose nick with_processor peers = disposed_entry nick with_processor peers (lookup nick peers)

  abbrev pub if_active : Option (Entry P) → Option P
  if_active none = none
  if_active (some entry) = if entry.disposing then none else some entry.peer

  unfoldable pub get_peer : Bytes → GoMap Bytes (Entry P) → Option P
  get_peer nick peers = if_active (lookup nick peers)

  -- `loopCheck`: the peers whose calls are checked.
  unfoldable pub loop_check : GoMap Bytes (Entry P) → List P
  loop_check [] = []
  loop_check ((nick, entry) ∷ peers) =
      let rest = loop_check peers in if entry.disposing then rest else entry.peer ∷ rest

-- Whether the peer's processor runs, none where it has none.
module _ {P : Type 0} (running : P → Option Bool) where
  abbrev pub when_running : P → Exchange → Option Bool → Handling P
  when_running p e none = dealt p e
  when_running p e (some false) = dealt p e
  when_running p e (some true) = queued p e

  -- `onExchange` of a peer
  abbrev pub on_exchange : P → Exchange → Handling P
  on_exchange p e = when_running p e (running p)

  abbrev pub to_peer : Exchange → Option P → Handling P
  to_peer e none = nobody
  to_peer e (some p) = on_exchange p e

  unfoldable pub local_exchange : GoMap Bytes (Entry P) → Exchange → Handling P
  unfolding get_peer
  local_exchange peers e = to_peer e (get_peer e.to peers)

  abbrev pub with_message : GoMap Bytes (Entry P) → Option (Exchange × Parser) → Handling P
  with_message peers none = undecoded
  with_message peers (some (e, parser)) = local_exchange peers e

  -- `onExchange` of a message's bytes
  unfoldable pub on_message : GoMap Bytes (Entry P) → Bytes → Run (Handling P)
  unfolding unmarshal local_exchange
  on_message peers bs = unmarshal bs >>= λ m. ret (with_message peers m)
