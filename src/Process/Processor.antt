-- ===== src/Process/Processor.antt =====
-- process/processor.go: how a processor chooses the executor for a task. An executor is the queue of its
-- tasks; the capacity of the channels is not modelled.
use silvernode_go.Common.{
  ℕ, zero, suc, ◌+◌, ◌≤◌, ◌<◌, ◌≡◌, refl, ◌∙◌, ◌⊎◌, inl, inr, Bool, true, false, Option, none, List,
  [], ◌∷◌, ◌++◌, map, arith, ltb, nat_beq, if◌then◌else◌, ltb→lt, Bool-cases, ℤ, pos, negsuc,
  length, replicate, ◌==◌, nat_eq, bytes_eq,
}

-- A nil task is none.
pub record Processor (T : Type 0) : Type 0 where
  pub exes : List (List (Option T))
  pub killing : Bool
  pub multi : ℕ

-- What `Execute` does: it refuses, runs the task at once, or queues it.
pub data Executed (T : Type 0) : Type 0 where
  refused : Executed T
  ran : Option T → Executed T
  queued : ℕ → Executed T

module _ {T : Type 0} where
  unfoldable pub coprocessor : ℤ → Processor T
  coprocessor (pos n) = record { exes = replicate n []; killing = false; multi = n }
  coprocessor (negsuc n) = record { exes = []; killing = false; multi = 0 }

  -- The loop of `Execute`: from the index `i` on, the first of the shortest queues that are shorter
  -- than `min`; `index` is the choice so far.
  unfoldable pub choose : List (List (Option T)) → ℕ → ℕ → ℕ → ℕ
  choose [] i index min = index
  choose (exe ∷ exes) i index min =
      choose exes (i + 1) (if ltb (length exe) min then i else index)
        (if ltb (length exe) min then length exe else min)

  abbrev pub enqueue : ℕ → Option T → List (List (Option T)) → List (List (Option T))
  enqueue index task [] = []
  enqueue zero task (exe ∷ exes) = (exe ++ task ∷ []) ∷ exes
  enqueue (suc index) task (exe ∷ exes) = exe ∷ enqueue index task exes

  abbrev pub at : ℕ → Option T → Processor T → Executed T × Processor T
  at index task p = (queued index, record p { exes = enqueue index task p.exes })

  unfoldable pub execute : Option T → Processor T → Executed T × Processor T
  unfolding choose
  execute task p =
      if p.killing
      then (refused, p)
      else (if p.multi == 0
          then (ran task, p)
          else if p.multi == 1
          then at 0 task p
          else at (choose p.exes 0 0 999999) task p)

  -- `Terminate` sends a nil to every executor.
  unfoldable pub terminate : Processor T → Processor T
  terminate p =
      if p.killing
      then p
      else record p { killing = true; exes = map (λ exe. exe ++ none ∷ []) p.exes }

  unfoldable pub task_len : List (List (Option T)) → ℕ
  task_len [] = 0
  task_len (exe ∷ exes) = length exe + task_len exes

  -- The length of an executor's queue, if there is one.
  abbrev pub queue_len : List (List (Option T)) → ℕ → ℕ
  queue_len [] i = 0
  queue_len (exe ∷ exes) zero = length exe
  queue_len (exe ∷ exes) (suc i) = queue_len exes i

  all_queues :
      (n : ℕ) (exe : List (Option T)) (exes : List (List (Option T)))
      → n ≤ length exe
      → ((j : ℕ) → j < length exes → n ≤ queue_len exes j)
      → (j : ℕ) → j < suc (length exes)
      → n ≤ queue_len (exe ∷ exes) j
  all_queues n exe exes h a zero l = h
  all_queues n exe exes h a (suc j) l = a j (omega (arith, l))

  -- The choice is an earlier one, whose queue is as short as any from here on that is shorter than
  -- `min`, or an index of the queues from here on.
  choose_lem :
      (exes : List (List (Option T))) (i index min : ℕ)
      → ((choose exes i index min ≡ index) × ((j : ℕ) → j < length exes → min ≤ queue_len exes j))
        ⊎ ((k : ℕ) × (choose exes i index min ≡ i + k)
            × (k < length exes)
            × (queue_len exes k < min)
            × ((j : ℕ) → j < length exes → queue_len exes k ≤ queue_len exes j))
  unfolding choose
  choose_lem [] i index min = inl (refl, λ j h. omega (arith, h))
  choose_lem (exe ∷ exes) i index min = elim (Bool-cases (ltb (length exe) min)) [
    | inl shorter ↦ rw shorter (elim (choose_lem exes (i + 1) i (length exe)) [
      | inl (same, a) ↦ inr (
        0,
        same ∙ omega arith,
        omega arith,
        ltb→lt (length exe) min shorter,
        all_queues (length exe) exe exes (omega arith) a,
      )
      | inr (k, same, l, less, a) ↦ inr (
        suc k,
        same ∙ omega arith,
        omega (arith, l),
        omega (arith, less, ltb→lt (length exe) min shorter),
        all_queues (queue_len exes k) exe exes (omega (arith, less)) a,
      )
    ])
    | inr not_shorter ↦ rw not_shorter (elim (choose_lem exes (i + 1) index min) [
      | inl (same, a) ↦ inl (same, all_queues min exe exes (ground (arith, not_shorter)) a)
      | inr (k, same, l, less, a) ↦ inr (
        suc k,
        same ∙ omega arith,
        omega (arith, l),
        less,
        all_queues (queue_len exes k) exe exes (ground (arith, not_shorter, less)) a,
      )
    ])
  ]

  -- A processor of several executors, of which some has a queue of fewer than 999999 tasks, takes the
  -- task into one queue, one of the shortest, unless it is being killed, where it refuses and changes
  -- nothing.
  pub execute_lem :
      (task : Option T) (p : Processor T) (short : ℕ)
      → 1 < p.multi
      → short < length p.exes
      → queue_len p.exes short < 999999
      → (p.killing ≡ true → execute task p ≡ (refused, p))
        × (p.killing ≡ false
            → (k : ℕ) × (execute task p ≡ at k task p)
              × (k < length p.exes)
              × ((j : ℕ) → j < length p.exes → queue_len p.exes k ≤ queue_len p.exes j))
  unfolding execute
  execute_lem task p short several h few = (λ dead. rw dead refl, λ alive. chosen alive)
    where
      at_least : nat_beq p.multi 0 ≡ false
      at_least = ground arith

      not_one : nat_beq p.multi 1 ≡ false
      not_one = ground arith

      chosen :
          p.killing ≡ false
          → (k : ℕ) × (execute task p ≡ at k task p)
            × (k < length p.exes)
            × ((j : ℕ) → j < length p.exes → queue_len p.exes k ≤ queue_len p.exes j)
      chosen alive = elim (choose_lem p.exes 0 0 999999) [
        | inl (same, a) ↦ absurd (omega (arith, a short h))
        | inr (k, same, l, less, a) ↦
            let first : choose p.exes 0 0 999999 ≡ k = same ∙ omega arith in
            (k, rw (alive, at_least, not_one, first) refl, l, a)
      ]
