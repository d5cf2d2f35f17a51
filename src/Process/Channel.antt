-- ===== src/Process/Channel.antt =====
-- process/channel: channels by name, their subscribers, and what is published. A subscriber's function and
-- processor are the values of a type `F`; errors of a function are caught.
use silvernode_go.Common.{
  ℕ, Bool, true, false, not, Option, none, some, List, [], ◌∷◌, ◌++◌, if◌then◌else◌, ℤ, length, set,
  All, ◌==◌, Bytes, nat_eq, bytes_eq,
}
use silvernode_go.Stl.GoMap.{
  GoMap, lookup, insert, delete, has, Distinct, lookup-insert, lookup-delete, insert-Distinct,
  delete-Distinct,
}
use silvernode_go.Stl.Slices.{one_if}
use silvernode_go.Peers.Calls.{int_eq}
pub mod Reached

pub record Subscriber (F : Type 0) : Type 0 where
  pub seq : ℤ
  pub fun : F
  pub processor : Option Bool

-- Whether a published value is handled at once or by the processor, which runs
pub data Published (F D : Type 0) : Type 0 where
  called : ℤ → F → D → Published F D
  executed : ℤ → F → D → Published F D

module _ {F : Type 0} where
  unfoldable pub cosubscriber : ℤ → F → Option Bool → Subscriber F
  cosubscriber seq fun processor = record { seq = seq; fun = fun; processor = processor }

  unfoldable pub subscribe : ℤ → F → Option Bool → GoMap ℤ (Subscriber F) → GoMap ℤ (Subscriber F)
  unfolding cosubscriber
  subscribe seq fun processor subs = insert seq (cosubscriber seq fun processor) subs

  unfoldable pub unsubscribe : ℤ → GoMap ℤ (Subscriber F) → GoMap ℤ (Subscriber F)
  unsubscribe seq subs = delete seq subs

  unfoldable pub unsubscribe_all : GoMap ℤ (Subscriber F) → GoMap ℤ (Subscriber F)
  unsubscribe_all subs = []

  unfoldable pub num_of_subscriber : GoMap ℤ (Subscriber F) → ℕ
  num_of_subscriber subs = length subs

  module _ {D : Type 0} where
    abbrev pub publish_when : Option Bool → Subscriber F → D → Published F D
    publish_when none s datas = called s.seq s.fun datas
    publish_when (some false) s datas = called s.seq s.fun datas
    publish_when (some true) s datas = executed s.seq s.fun datas

    -- `publish` of a subscriber, whose processor runs or not, if it has one
    unfoldable pub publish_to : Subscriber F → D → Published F D
    publish_to s datas = publish_when s.processor s datas

    -- `Publish`
    unfoldable pub publish : D → GoMap ℤ (Subscriber F) → List (Published F D)
    unfolding publish_to
    publish datas [] = []
    publish datas ((seq, s) ∷ subs) = publish_to s datas ∷ publish datas subs

    -- Not of the code: what is handed over is the function, the value and whether a processor runs it.
    abbrev pub handed : Published F D → F × D × Bool
    handed (called seq fun datas) = (fun, datas, false)
    handed (executed seq fun datas) = (fun, datas, true)

    abbrev pub receiver : Published F D → ℤ
    receiver (called seq fun datas) = seq
    receiver (executed seq fun datas) = seq

    -- All that is handed to the subscriber of a number, in order
    abbrev pub received : ℤ → List (Published F D) → List (F × D × Bool)
    received seq [] = []
    received seq (p ∷ ps) =
        let rest = received seq ps in if receiver p == seq then handed p ∷ rest else rest

-- The channels by name: each is its number in the store of the channels that were ever made.
pub record Channels (F : Type 0) : Type 0 where
  pub names : GoMap Bytes ℕ
  pub store : List (GoMap ℤ (Subscriber F))

module _ {F : Type 0} where
  abbrev pub made_or_old : Bytes → Channels F → Option ℕ → ℕ × Channels F
  made_or_old name c (some i) = (i, c)
  made_or_old name c none = (
    length c.store,
    record { names = insert name (length c.store) c.names; store = c.store ++ ([] ∷ []) },
  )

  -- `Chan`, `Get` and `Close`
  unfoldable pub chan : Bytes → Channels F → ℕ × Channels F
  chan name c = made_or_old name c (lookup name c.names)

  unfoldable pub get : Bytes → Channels F → Option ℕ
  get name c = lookup name c.names

  abbrev pub close_found : Bytes → Channels F → Option ℕ → Channels F
  close_found name c none = c
  close_found name c (some i) = record { names = delete name c.names; store = set c.store i [] }

  unfoldable pub close : Bytes → Channels F → Channels F
  close name c = close_found name c (lookup name c.names)
