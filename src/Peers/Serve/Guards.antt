-- ===== src/Peers/Serve/Guards.antt =====
-- peers/peer.go: which requests run a method.
use silvernode_go.Common.{
  ◌≡◌, refl, ap, ◌∙◌, ◌⊎◌, inl, inr, false, ◌&&◌, Option, none, some, List, [], ◌∷◌, ◌++◌, arith,
  Bool-cases, Option-cases, Run, ret, panic, stuck, Bytes, nat_eq, bytes_eq,
}
use silvernode_go.Stl.GoMap.{lookup}
use silvernode_go.Peers.Exchange.{Exchange}
use silvernode_go.Node.{is_guest}
use silvernode_go.Peers.Calls.{int_eq}
use silvernode_go.Peers.Serve.{
  Fetched, got, bad, Meta, Peer, Deed, when_returned, response, after_call, call_method, after_flow,
  with_beans, with_method, without_method, after_lookup, deal_request, no_access,
}
use silvernode_go.Peers.Serve.Answers.{calls}

module _ {V : Type 0} where
  -- No method runs, or the one that is asked for runs once, with the decoded arguments.
  abbrev pub RanOnce : Exchange → Fetched V → List (Deed V) → Type 0
  RanOnce e fetched deeds =
      (calls deeds ≡ []) ⊎ ((args : V) × (fetched ≡ got args) × (calls deeds ≡ (e.func, args) ∷ []))

  calls-response :
      (e : Exchange) (reply : Option V) (err : Option Bytes) → calls (response e reply err) ≡ []
  unfolding response
  calls-response e reply err = ground arith

  calls-after_call : (e : Exchange) (r : V × Option Bytes) → calls (after_call e r) ≡ []
  unfolding response
  calls-after_call e (reply, none) = ground arith
  calls-after_call e (reply, some err) = ground arith

  calls-after_flow : (e : Exchange) (r : V × Option Bytes) → calls (after_flow e r) ≡ []
  calls-after_flow e (reply, none) = calls-response e (some reply) none
  calls-after_flow e (reply, some err) = calls-response e none (some err)

  calls-when_returned :
      (r : Run (V × Option Bytes)) (follow : V × Option Bytes → List (Deed V))
      → ((x : V × Option Bytes) → calls (follow x) ≡ [])
      → calls (when_returned r follow) ≡ []
  calls-when_returned (ret x) follow c = c x
  calls-when_returned panic follow c = refl
  calls-when_returned stuck follow c = refl

  call_method-RanOnce :
      (e : Exchange) (fetched : Fetched V) (method : V → Run (V × Option Bytes))
      → RanOnce e fetched (call_method e fetched method)
  call_method-RanOnce e (bad err) method = inl (calls-response e none (some err))
  call_method-RanOnce e (got args) method = inr (
    args,
    refl,
    ap (λ cs. (e.func, args) ∷ cs)
        (calls-when_returned (method args) (after_call e) (calls-after_call e)),
  )

  with_beans-RanOnce :
      (e : Exchange) (fetched : Fetched V) (m : Meta V) (err : Option Bytes)
      → RanOnce e fetched (with_beans e fetched m err)
  with_beans-RanOnce e fetched m (some err) = inl (calls-response e none (some err))
  with_beans-RanOnce e (bad err) m none = inl (calls-response e none _)
  with_beans-RanOnce e (got args) m none = inr (
    args,
    refl,
    ap (λ cs. (e.func, args) ∷ cs)
        (calls-when_returned (m.process_flow e.func args) (after_flow e) (calls-after_flow e)),
  )

  with_method-RanOnce :
      (node : Bytes) (e : Exchange) (fetched : Fetched V) (m : Option (Meta V))
      (method : V → Run (V × Option Bytes))
      → RanOnce e fetched (with_method node e fetched m method)
  with_method-RanOnce node e fetched none method = call_method-RanOnce e fetched method
  with_method-RanOnce node e fetched (some m) method =
      with_beans-RanOnce e fetched m (m.create_beans e.func node)

  -- The peer is open to the node, the setup's pre-processing lets the request through, the peer has
  -- the method, and the arguments were decoded.
  abbrev pub IsAllowed :
      Peer V → (Bytes → Bytes → Bytes → Option Bytes) → Bytes → Exchange → Fetched V → V → Type 0
  IsAllowed p pre_proc node e fetched args =
      (p.inner && is_guest node ≡ false)
      × (pre_proc node e.to e.func ≡ none)
      × ((method : V → Run (V × Option Bytes)) × (lookup e.func p.methods ≡ some method))
      × (fetched ≡ got args)

  after_lookup-RanOnce :
      (node : Bytes) (e : Exchange) (fetched : Fetched V) (p : Peer V)
      (method : Option (V → Run (V × Option Bytes)))
      → lookup e.func p.methods ≡ method
      → (calls (after_lookup node e fetched p method) ≡ [])
        ⊎ ((args : V) × ((method : V → Run (V × Option Bytes)) × (lookup e.func p.methods
                ≡ some method))
            × (fetched ≡ got args)
            × (calls (after_lookup node e fetched p method) ≡ (e.func, args) ∷ []))
  after_lookup-RanOnce node e fetched p none h =
      inl (unfold without_method response in ground arith)
  after_lookup-RanOnce node e fetched p (some method) h =
      elim (with_method-RanOnce node e fetched p.meta method) [
        | inl c ↦ inl c
        | inr (args, f, c) ↦ inr (args, (method, h), f, c)
      ]

  allowed_lem :
      (p : Peer V) (pre_proc : Bytes → Bytes → Bytes → Option Bytes) (node : Bytes) (e : Exchange)
      (fetched : Fetched V)
      → p.inner && is_guest node ≡ false
      → pre_proc node e.to e.func ≡ none
      → calls (deal_request p pre_proc node e fetched)
        ≡ calls (after_lookup node e fetched p (lookup e.func p.methods))
  unfolding deal_request
  allowed_lem p pre_proc node e fetched h n = rw (h, n) refl

  -- A request runs no method, or exactly the one that it names, once and with the arguments that it
  -- carries; it runs one only where the peer is open to the node (no guest's request reaches a method of
  -- an inner peer), the pre-processing gives no error, the peer has the method and the arguments were
  -- decoded.
  pub deal_request-IsAllowed :
      (p : Peer V) (pre_proc : Bytes → Bytes → Bytes → Option Bytes) (node : Bytes) (e : Exchange)
      (fetched : Fetched V)
      → (calls (deal_request p pre_proc node e fetched) ≡ [])
        ⊎ ((args : V) × IsAllowed p pre_proc node e fetched args
            × (calls (deal_request p pre_proc node e fetched) ≡ (e.func, args) ∷ []))
  unfolding deal_request
  deal_request-IsAllowed p pre_proc node e fetched = elim (Bool-cases (p.inner && is_guest node)) [
    | inl h ↦ rw h (inl (calls-response e none (some (no_access ++ p.nick))))
    | inr h ↦ elim (Option-cases (pre_proc node e.to e.func)) [
      | inl n ↦ elim (after_lookup-RanOnce node e fetched p (lookup e.func p.methods) refl) [
        | inl c ↦ inl (allowed_lem p pre_proc node e fetched h n ∙ c)
        | inr (args, m, f, c) ↦
            inr (args, (h, n, m, f), allowed_lem p pre_proc node e fetched h n ∙ c)
      ]
      | inr (err, s) ↦ rw (h, s) (inl (calls-response e none (some err)))
    ]
  ]
