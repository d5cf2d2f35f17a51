-- ===== src/Process/Service.antt =====
-- process/service.go, process/scheduler.go: a service and the loop of its scheduler. A channel that was
-- never made is `none`.
use silvernode_go.Common.{
  ℕ, zero, suc, ◌+◌, ◌-◌, ◌<◌, ◌≡◌, refl, ap, ◌∙◌, Bool, true, false, not, ◌&&◌, ◌||◌, Option, none,
  some, List, [], ◌∷◌, ◌++◌, arith, ltb, leb, if◌then◌else◌, lt→ltb, le→leb, ℤ, Run, ret, stuck,
  ◌>>=◌, replicate, lt→leb_false,
}
use mathlib.Core.Path.{subst}

pub record Service : Type 0 where
  pub pid : ℤ
  pub signal : Option Bool
  pub killing : Bool
  pub terminated : Bool
  pub recycle : Bool
  pub recycled : Bool

unfoldable pub coservice : ℤ → Service
coservice pid = record {
  pid = pid;
  signal = none;
  killing = false;
  terminated = false;
  recycle = false;
  recycled = false;
}

-- `Start` makes the channel and keeps the recycling, which may be nil; the new goroutine begins, some
-- time later, with `terminated = false`.
unfoldable pub start : Bool → Service → Service
start recycle s = record s { signal = some false; recycle = recycle }

unfoldable pub begin : Service → Service
begin s = record s { terminated = false }

-- `Terminate` where the service is not being killed yet, and whether it returns: the flags are set and
-- the signal is sent; a channel that is nil or full blocks, and otherwise the recycling runs, if there
-- is one. The removal from the table of processes is in Table.
abbrev pub signalled : Service → Option Bool → Bool × Service
signalled s none = (false, record s { killing = true; terminated = true })
signalled s (some true) = (false, record s { killing = true; terminated = true })
signalled s (some false) = (
  true,
  record s {
    signal = some true;
    killing = true;
    terminated = true;
    recycled = s.recycle || s.recycled;
  },
)

unfoldable pub terminate : Service → Bool × Service
terminate s = if s.killing then (true, s) else signalled s s.signal

unfoldable pub running : Service → Bool
running s = not s.killing

-- What a scheduler does: its task runs, and the callback is called.
pub data Event : Type 0 where
  ran : Event
  called_back : Event

-- `repeat` of `schedule`, whether there is a callback, and whether the schedule was cancelled before
-- the loop's test of each round.
module _ (repeat : ℕ) (callback : Bool) (cancelled : ℕ → Bool) where
  -- What the loop does from a round on; `num` counts as in the code. The fuel bounds the rounds.
  unfoldable pub schedule : ℕ → ℕ → ℕ → Bool → Run (List Event)
  schedule zero num round terminated = stuck
  schedule (suc fuel) num round terminated =
      let ends = ltb 0 repeat && leb repeat (num + 1) in
      let rest =
        schedule fuel (if ltb 0 repeat then num + 1 else num) (round + 1) (terminated || ends) in
      if terminated || cancelled round
      then ret []
      else rest >>= λ es. ret (ran ∷ (if ends && callback then called_back ∷ es else es))

  -- The events of so many runs, and the callback at the end.
  abbrev pub runs : ℕ → List Event
  runs n = replicate n ran ++ (if callback then called_back ∷ [] else [])

  abbrev ends : ℕ → Bool
  ends num = ltb 0 repeat && leb repeat (num + 1)

  abbrev then_ran : Bool → Run (List Event) → Run (List Event)
  then_ran last r = r >>= λ es. ret (ran ∷ (if last && callback then called_back ∷ es else es))

  round_lem :
      (num round fuel : ℕ)
      → cancelled round ≡ false
      → schedule (suc fuel) num round false
        ≡ then_ran
            (ends num)
            (schedule fuel (if ltb 0 repeat then num + 1 else num) (round + 1) (ends num))
  unfolding schedule
  round_lem num round fuel c = rw c refl

  stop_lem :
      (num round fuel : ℕ) (terminated : Bool)
      → terminated || cancelled round ≡ true
      → schedule (suc fuel) num round terminated ≡ ret []
  unfolding schedule
  stop_lem num round fuel terminated c = rw c refl

  never_cancelled :
      (left num round fuel : ℕ)
      → ((k : ℕ) → cancelled k ≡ false)
      → num + suc left ≡ repeat
      → suc left < fuel
      → schedule fuel num round false ≡ ret (runs (suc left))
  never_cancelled left num round zero c e h = absurd (omega (arith, h))
  never_cancelled left num round (suc zero) c e h = absurd (omega (arith, h))
  never_cancelled zero num round (suc (suc fuel)) c e h =
      round_lem num round (suc fuel) (c round)
      ∙ rw (lt→ltb 0 repeat (omega arith), le→leb repeat (num + 1) (omega arith))
          (ap (then_ran true) (stop_lem (num + 1) (round + 1) fuel true refl))
  never_cancelled (suc left) num round (suc (suc fuel)) c e h =
      round_lem num round (suc fuel) (c round)
      ∙ rw (lt→ltb 0 repeat (omega arith), lt→leb_false (num + 1) repeat (omega arith))
          (ap (then_ran false)
            (never_cancelled left (num + 1) (round + 1) (suc fuel) c (omega arith) (omega arith)))

  idle : repeat ≡ 0 → ltb 0 repeat ≡ false
  idle z = ground arith

  until_cancelled :
      (left num round fuel : ℕ)
      → repeat ≡ 0
      → ((k : ℕ) → k < left → cancelled (round + k) ≡ false)
      → cancelled (round + left) ≡ true
      → left < fuel
      → schedule fuel num round false ≡ ret (replicate left ran)
  until_cancelled left num round zero z c e h = absurd (omega (arith, h))
  until_cancelled zero num round (suc fuel) z c e h =
      stop_lem num round fuel false (subst (λ (n : ℕ). cancelled n ≡ true) (omega arith) e)
  until_cancelled (suc left) num round (suc fuel) z c e h =
      round_lem num round fuel
        (subst (λ (n : ℕ). cancelled n ≡ false) (omega arith) (c 0 (omega arith)))
      ∙ rw (idle z) (
          ap (then_ran false) (
            until_cancelled left num (round + 1) fuel z
              (λ k l.
                subst (λ (n : ℕ). cancelled n ≡ false) (omega arith) (c (suc k) (omega (arith, l))))
              (subst (λ (n : ℕ). cancelled n ≡ true) (omega arith) e) (omega arith)))

  -- A schedule with a number of repetitions above 0 that nobody cancels: given fuel for one round more,
  -- the loop ends, and the task ran exactly so often, with the callback, if there is one, once at the
  -- end.
  pub schedule-repeat :
      (fuel : ℕ)
      → ((k : ℕ) → cancelled k ≡ false)
      → 0 < repeat
      → repeat < fuel
      → schedule fuel 0 0 false ≡ ret (runs repeat)
  schedule-repeat fuel c positive enough =
      subst (λ (n : ℕ). schedule fuel 0 0 false ≡ ret (runs n)) counted
        (never_cancelled (repeat - 1) 0 0 fuel c (omega arith) (omega arith))
    where
      counted : suc (repeat - 1) ≡ repeat
      counted = omega arith

  -- A schedule without a number of repetitions that is cancelled before the test of some round and not
  -- before: given fuel for one round more, the loop ends, the task ran in exactly the rounds before, and
  -- the callback is not called.
  pub schedule-cancel :
      (left fuel : ℕ)
      → repeat ≡ 0
      → ((k : ℕ) → k < left → cancelled k ≡ false)
      → cancelled left ≡ true
      → left < fuel
      → schedule fuel 0 0 false ≡ ret (replicate left ran)
  schedule-cancel left fuel z c e enough =
      until_cancelled left 0 0 fuel z
        (λ k l. subst (λ (n : ℕ). cancelled n ≡ false) (omega arith) (c k l))
        (subst (λ (n : ℕ). cancelled n ≡ true) (omega arith) e) enough

-- A `Terminate` that comes before the new goroutine has begun is lost: the loop goes on, though the
-- service answers that it does not run.
early_terminate_lost :
    (pid : ℤ) (recycle : Bool)
    → let (returns, t) = terminate (start recycle (coservice pid)) in
      (returns ≡ true) × (running (begin t) ≡ false) × ((begin t).terminated ≡ false)
unfolding terminate start coservice running begin
early_terminate_lost pid recycle = (refl, refl, refl)
