-- ===== src/Peers/Serve/Answers.antt =====
-- peers/peer.go: a request is answered once.
use silvernode_go.Common.{
  ◌≡◌, refl, ◌⊎◌, inl, inr, Bool, true, false, ◌&&◌, Option, none, some, List, [], ◌∷◌, ◌++◌,
  if◌then◌else◌, Bool-cases, pos, Run, ret, panic, stuck, ◌==◌, Bytes, nat_eq, bytes_eq,
}
use silvernode_go.Stl.GoMap.{lookup}
use silvernode_go.Peers.Exchange.{Exchange}
use silvernode_go.Node.{is_guest}
use silvernode_go.Peers.Calls.{int_eq}
use silvernode_go.Peers.Serve.{
  Fetched, got, bad, Meta, Peer, Deed, invoked, reported, responded, panicked, endless,
  when_returned, answer_to, response, after_call, after_flow, with_beans, with_method,
  without_method, after_lookup, after_pre_proc, deal_request, no_method,
}

if_lem : {X : Type 0} (P : X → Type 0) (b : Bool) (x y : X) → P x → P y → P (if b then x else y)
if_lem P true x y p q = p
if_lem P false x y p q = q

module _ {V : Type 0} where
  -- The answers among the deeds.
  abbrev pub answers : List (Deed V) → List (Exchange × Option V)
  answers [] = []
  answers (invoked func args ∷ deeds) = answers deeds
  answers (reported text ∷ deeds) = answers deeds
  answers (responded e reply ∷ deeds) = (e, reply) ∷ answers deeds
  answers (panicked ∷ deeds) = answers deeds
  answers (endless ∷ deeds) = answers deeds

  -- The calls of methods among the deeds.
  abbrev pub calls : List (Deed V) → List (Bytes × V)
  calls [] = []
  calls (invoked func args ∷ deeds) = (func, args) ∷ calls deeds
  calls (reported text ∷ deeds) = calls deeds
  calls (responded e reply ∷ deeds) = calls deeds
  calls (panicked ∷ deeds) = calls deeds
  calls (endless ∷ deeds) = calls deeds

  -- There is the one answer that a caller waits for, or none where nobody waits.
  abbrev pub Answered : Exchange → List (Deed V) → Type 0
  Answered e deeds =
      (reply : Option V) × (err : Option Bytes) × (answers deeds
        ≡ (if e.seq == pos 0 then [] else (answer_to e err, reply) ∷ []))

  -- The method, which ran as `r`, panicked or never returned, and that is all.
  abbrev pub CutOff : Exchange → V → Run (V × Option Bytes) → List (Deed V) → Type 0
  CutOff e args r deeds =
      ((r ≡ panic) × (deeds ≡ invoked e.func args ∷ (panicked ∷ [])))
      ⊎ ((r ≡ stuck) × (deeds ≡ invoked e.func args ∷ (endless ∷ [])))

  -- How a method runs, with generated code or without
  abbrev pub run_with :
      Exchange → Option (Meta V) → (V → Run (V × Option Bytes)) → V → Run (V × Option Bytes)
  run_with e none method args = method args
  run_with e (some m) method args = m.process_flow e.func args

  -- The request is answered, or its method is cut off.
  abbrev pub IsAnswered : Peer V → Exchange → Fetched V → List (Deed V) → Type 0
  IsAnswered p e fetched deeds =
      Answered e deeds
      ⊎ ((args : V) × (method : V → Run (V × Option Bytes)) × (lookup e.func p.methods
            ≡ some method)
          × (fetched ≡ got args)
          × CutOff e args (run_with e p.meta method args) deeds)

  response-Answered :
      (e : Exchange) (reply : Option V) (err : Option Bytes) → Answered e (response e reply err)
  unfolding response
  response-Answered e reply err = elim (Bool-cases (e.seq == pos 0)) [
    | inl h ↦ (reply, err, rw h refl)
    | inr h ↦ (reply, err, rw h refl)
  ]

  after_call-Answered : (e : Exchange) (r : V × Option Bytes) → Answered e (after_call e r)
  after_call-Answered e (reply, none) = elim (Bool-cases (e.seq == pos 0)) [
    | inl h ↦ (some reply, none, rw h refl)
    | inr h ↦ (some reply, none, unfold response in rw h refl)
  ]
  after_call-Answered e (reply, some err) = elim (Bool-cases (e.seq == pos 0)) [
    | inl h ↦ (some reply, some err, rw h refl)
    | inr h ↦ (some reply, some err, unfold response in rw h refl)
  ]

  after_flow-Answered : (e : Exchange) (r : V × Option Bytes) → Answered e (after_flow e r)
  after_flow-Answered e (reply, none) = response-Answered e (some reply) none
  after_flow-Answered e (reply, some err) = response-Answered e none (some err)

  returned_lem :
      (e : Exchange) (args : V) (r : Run (V × Option Bytes))
      (follow : V × Option Bytes → List (Deed V))
      → ((x : V × Option Bytes) → Answered e (follow x))
      → Answered e (invoked e.func args ∷ when_returned r follow)
        ⊎ CutOff e args r (invoked e.func args ∷ when_returned r follow)
  returned_lem e args (ret x) follow a = inl (a x)
  returned_lem e args panic follow a = inr (inl (refl, refl))
  returned_lem e args stuck follow a = inr (inr (refl, refl))

  -- Answered, or cut off with the arguments that were decoded.
  abbrev Ran : Exchange → Fetched V → (V → Run (V × Option Bytes)) → List (Deed V) → Type 0
  Ran e fetched run deeds =
      Answered e deeds ⊎ ((args : V) × (fetched ≡ got args) × CutOff e args (run args) deeds)

  returned-Ran :
      (e : Exchange) (args : V) (run : V → Run (V × Option Bytes))
      (follow : V × Option Bytes → List (Deed V))
      → ((x : V × Option Bytes) → Answered e (follow x))
      → Ran e (got args) run (invoked e.func args ∷ when_returned (run args) follow)
  returned-Ran e args run follow a = elim (returned_lem e args (run args) follow a) [
    | inl answered ↦ inl answered
    | inr cut ↦ inr (args, refl, cut)
  ]

  with_method-Ran :
      (node : Bytes) (e : Exchange) (fetched : Fetched V) (m : Option (Meta V))
      (method : V → Run (V × Option Bytes))
      → Ran e fetched (run_with e m method) (with_method node e fetched m method)
  with_method-Ran node e (bad err) none method = inl (response-Answered e none (some err))
  with_method-Ran node e (got args) none method =
      returned-Ran e args method (after_call e) (after_call-Answered e)
  with_method-Ran node e fetched (some m) method = made (m.create_beans e.func node) fetched
    where
      made :
          (o : Option Bytes) (f : Fetched V) → Ran e f (m.process_flow e.func) (with_beans e f m o)
      made (some err) f = inl (response-Answered e none (some err))
      made none (bad err) = inl (response-Answered e none _)
      made none (got args) =
          returned-Ran e args (m.process_flow e.func) (after_flow e) (after_flow-Answered e)

  without_method-Answered : (e : Exchange) → Answered e (without_method e)
  without_method-Answered e = elim (Bool-cases (e.seq == pos 0)) [
    | inl h ↦ (none, none, unfold without_method in rw h refl)
    | inr h ↦ (none, some (no_method ++ e.func), unfold without_method response in rw h refl)
  ]

  after_lookup-IsAnswered :
      (node : Bytes) (e : Exchange) (fetched : Fetched V) (p : Peer V)
      (method : Option (V → Run (V × Option Bytes)))
      → lookup e.func p.methods ≡ method
      → IsAnswered p e fetched (after_lookup node e fetched p method)
  after_lookup-IsAnswered node e fetched p none l = inl (without_method-Answered e)
  after_lookup-IsAnswered node e fetched p (some method) l =
      elim (with_method-Ran node e fetched p.meta method) [
        | inl answered ↦ inl answered
        | inr (args, f, cut) ↦ inr (args, method, l, f, cut)
      ]

  after_pre_proc-IsAnswered :
      (node : Bytes) (e : Exchange) (fetched : Fetched V) (p : Peer V) (err : Option Bytes)
      → IsAnswered p e fetched (after_pre_proc node e fetched p err)
  after_pre_proc-IsAnswered node e fetched p (some err) = inl (response-Answered e none (some err))
  after_pre_proc-IsAnswered node e fetched p none =
      after_lookup-IsAnswered node e fetched p (lookup e.func p.methods) refl

  -- Whatever the peer and whatever the checks and the decoding answer: for a request that expects an
  -- answer, exactly one is handed to Marshal, from the peer that was asked to the one that asked and
  -- under the request's number, and for a request that expects none (number 0) none; but where the
  -- method that was asked for is there, ran with the decoded arguments and panicked or never returned,
  -- nothing follows its call. The pre-processing and the creation of arguments return.
  pub deal_request-IsAnswered :
      (p : Peer V) (pre_proc : Bytes → Bytes → Bytes → Option Bytes) (node : Bytes) (e : Exchange)
      (fetched : Fetched V)
      → IsAnswered p e fetched (deal_request p pre_proc node e fetched)
  unfolding deal_request
  deal_request-IsAnswered p pre_proc node e fetched =
      if_lem (IsAnswered p e fetched) (p.inner && is_guest node) _ _
        (inl (response-Answered e none (some _)))
        (after_pre_proc-IsAnswered node e fetched p (pre_proc node e.to e.func))
