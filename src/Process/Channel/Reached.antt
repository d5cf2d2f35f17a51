-- ===== src/Process/Channel/Reached.antt =====
-- process/channel: a published value reaches every subscriber once.
use silvernode_go.Common.{
  ◌≡◌, refl, sym, ◌∙◌, inl, inr, Bool, true, false, Option, none, some, List, [], ◌∷◌, arith,
  Bool-cases, ℤ, ◌==◌, ==_refl, nat_eq, bytes_eq,
}
use mathlib.Core.Path.{subst}
use silvernode_go.Stl.GoMap.{
  GoMap, lookup, insert, delete, has, Distinct, lookup-insert, lookup-delete, insert-Distinct,
  delete-Distinct,
}
use silvernode_go.Peers.Calls.{int_eq}
use silvernode_go.Process.Channel.{
  Subscriber, Published, cosubscriber, subscribe, unsubscribe, unsubscribe_all, publish_when,
  publish_to, publish, receiver, received, handed,
}

-- A processor that runs takes the function.
abbrev pub is_running : Option Bool → Bool
is_running none = false
is_running (some b) = b

module _ {F : Type 0} where
  -- Every subscriber stands once, under its own number.
  abbrev pub IsKeyed : GoMap ℤ (Subscriber F) → Type 0
  IsKeyed [] = Unit
  IsKeyed ((seq, s) ∷ subs) = (s.seq ≡ seq) × IsKeyed subs

  abbrev pub IsTable : GoMap ℤ (Subscriber F) → Type 0
  IsTable subs = Distinct subs × IsKeyed subs

  insert-IsKeyed :
      (seq : ℤ) (s : Subscriber F) (subs : GoMap ℤ (Subscriber F))
      → s.seq ≡ seq
      → IsKeyed subs
      → IsKeyed (insert seq s subs)
  unfolding insert
  insert-IsKeyed seq s [] e k = (e, tt)
  insert-IsKeyed seq s ((i, r) ∷ subs) e k = elim (Bool-cases (i == seq)) [
    | inl h ↦ rw h (e ∙ sym ((int_eq.equal_iff i seq).0 h), k.1)
    | inr h ↦ rw h (k.0, insert-IsKeyed seq s subs e k.1)
  ]

  delete-IsKeyed :
      (seq : ℤ) (subs : GoMap ℤ (Subscriber F)) → IsKeyed subs → IsKeyed (delete seq subs)
  unfolding delete
  delete-IsKeyed seq [] k = tt
  delete-IsKeyed seq ((i, r) ∷ subs) k = elim (Bool-cases (i == seq)) [
    | inl h ↦ rw h (delete-IsKeyed seq subs k.1)
    | inr h ↦ rw h (k.0, delete-IsKeyed seq subs k.1)
  ]

  -- The numbers stay apart and in place whatever is subscribed and unsubscribed.
  pub channel-IsTable :
      (subs : GoMap ℤ (Subscriber F))
      → IsTable subs
      → ((seq : ℤ) (fun : F) (processor : Option Bool) → IsTable (subscribe seq fun processor subs))
        × ((seq : ℤ) → IsTable (unsubscribe seq subs))
        × IsTable (unsubscribe_all subs)
  unfolding subscribe unsubscribe unsubscribe_all cosubscriber
  channel-IsTable subs (d, k) = (
    λ seq fun processor. (insert-Distinct seq _ subs d, insert-IsKeyed seq _ subs refl k),
    λ seq. (delete-Distinct seq subs d, delete-IsKeyed seq subs k),
    (tt, tt),
  )

  module _ {D : Type 0} where
    -- What a subscriber is to get of a value, once, and nobody where there is no subscriber
    abbrev pub expected : D → Option (Subscriber F) → List (F × D × Bool)
    expected datas none = []
    expected datas (some s) = (s.fun, datas, is_running s.processor) ∷ []

    publish_to_lem :
        (s : Subscriber F) (datas : D)
        → (receiver (publish_to s datas) ≡ s.seq)
          × (handed (publish_to s datas) ≡ (s.fun, datas, is_running s.processor))
    unfolding publish_to
    publish_to_lem s datas = when s.processor
      where
        when :
            (p : Option Bool)
            → (receiver (publish_when p s datas) ≡ s.seq)
              × (handed (publish_when p s datas) ≡ (s.fun, datas, is_running p))
        when none = (refl, refl)
        when (some false) = (refl, refl)
        when (some true) = (refl, refl)

    unreached :
        (seq : ℤ) (datas : D) (subs : GoMap ℤ (Subscriber F))
        → IsKeyed subs
        → has seq subs ≡ false
        → received seq (publish datas subs) ≡ []
    unfolding publish lookup
    unreached seq datas [] k h = refl
    unreached seq datas ((i, s) ∷ subs) k h = elim (Bool-cases (i == seq)) [
      | inl same ↦ absurd (ground (arith, same, h))
      | inr other ↦
          rw ((publish_to_lem s datas).0, k.0, other) (unreached seq datas subs k.1 (rw other at h))
    ]

    taken :
        (seq : ℤ) (p : Published F D) (ps : List (Published F D)) (x : F × D × Bool)
        → (receiver p == seq) ≡ true
        → handed p ≡ x
        → received seq ps ≡ []
        → received seq (p ∷ ps) ≡ x ∷ []
    taken seq p ps x mine e none_left = rw (mine, e, none_left) refl

    received_once :
        (seq : ℤ) (datas : D) (subs : GoMap ℤ (Subscriber F))
        → IsTable subs
        → received seq (publish datas subs) ≡ expected datas (lookup seq subs)
    unfolding publish lookup
    received_once seq datas [] t = refl
    received_once seq datas ((i, s) ∷ subs) t = elim (Bool-cases (i == seq)) [
      | inl same ↦ rw same (
          taken seq (publish_to s datas) (publish datas subs) (s.fun, datas, is_running s.processor)
            (rw ((publish_to_lem s datas).0, t.1.0) same) (publish_to_lem s datas).1
            (subst (λ (j : ℤ). received j (publish datas subs) ≡ [])
              ((int_eq.equal_iff i seq).0 same) (unreached i datas subs t.1.1 t.0.0)))
      | inr other ↦
          rw ((publish_to_lem s datas).0, t.1.0, other)
            (received_once seq datas subs (t.0.1, t.1.1))
    ]

    -- In a channel's table the subscriber of a number is handed its own function with the published
    -- value exactly once, by its processor if that runs and at once if not, and a number without a
    -- subscriber is handed nothing; one that has just subscribed gets it with its new function, and one
    -- that has unsubscribed nothing.
    pub publish_lem :
        (datas : D) (subs : GoMap ℤ (Subscriber F)) (seq : ℤ)
        → IsTable subs
        → (received seq (publish datas subs) ≡ expected datas (lookup seq subs))
          × ((fun : F) (processor : Option Bool)
              → received seq (publish datas (subscribe seq fun processor subs))
                ≡ (fun, datas, is_running processor) ∷ [])
          × (received seq (publish datas (unsubscribe seq subs)) ≡ [])
    publish_lem datas subs seq t = (
      received_once seq datas subs t,
      λ fun processor.
          received_once seq datas (subscribe seq fun processor subs)
            ((channel-IsTable subs t).0 seq fun processor)
          ∙ (unfold subscribe cosubscriber in
              rw (lookup-insert seq seq (cosubscriber seq fun processor) subs, ==_refl seq) refl),
      received_once seq datas (unsubscribe seq subs) ((channel-IsTable subs t).1 seq)
          ∙ (unfold unsubscribe in rw (lookup-delete seq seq subs, ==_refl seq) refl),
    )
