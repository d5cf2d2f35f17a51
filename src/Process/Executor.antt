-- ===== src/Process/Executor.antt =====
-- process/executor.go: the loop of an executor over its channel of tasks, where nil stands for itself.
use silvernode_go.Common.{
  ◌≡◌, refl, Bool, true, false, Option, none, some, List, [], ◌∷◌, ◌++◌, if◌then◌else◌,
}

-- The loop ends at a nil that it takes after `terminated` was set, or waits for more.
pub data Booted (T : Type 0) : Type 0 where
  finished : List T → Booted T
  waiting : List T → Booted T

module _ {T : Type 0} where
  abbrev pub after_task : T → Booted T → Booted T
  after_task t (finished ts) = finished (t ∷ ts)
  after_task t (waiting ts) = waiting (t ∷ ts)

  -- `boot`: what runs, in order, given what the channel holds and whether `terminated` is set when each
  -- item is taken. An error of a task is caught.
  unfoldable pub boot : List (Option T × Bool) → Booted T
  boot [] = waiting []
  boot ((none, terminated) ∷ items) =
      let rest = boot items in if terminated then finished [] else rest
  boot ((some task, terminated) ∷ items) = after_task task (boot items)

  -- `terminate` sets the flag and then sends nil behind the tasks of the channel.
  abbrev pub terminate : List (T × Bool) → List (Option T × Bool)
  terminate [] = (none, true) ∷ []
  terminate ((task, terminated) ∷ items) = (some task, terminated) ∷ terminate items

  abbrev pub tasks_of : List (T × Bool) → List T
  tasks_of [] = []
  tasks_of ((task, terminated) ∷ items) = task ∷ tasks_of items

  -- The loop has begun, and tasks that are not nil are in the channel when `terminate` is called: whether or not the loop has
  -- seen the flag when it takes each of them, every task still runs, in the order in which they were
  -- sent, and then the loop ends; what is sent later does not run.
  pub boot-terminate :
      (items : List (T × Bool)) (later : List (Option T × Bool))
      → boot (terminate items ++ later) ≡ finished (tasks_of items)
  unfolding boot
  boot-terminate [] later = refl
  boot-terminate ((task, terminated) ∷ items) later = rw (boot-terminate items later) refl

  -- `boot` sets the flag back at its start: where `terminate` comes before it, every task runs, and the
  -- loop waits for more.
  abbrev unflagged : List T → List (Option T × Bool)
  unflagged [] = (none, false) ∷ []
  unflagged (task ∷ tasks) = (some task, false) ∷ unflagged tasks

  early_terminate_lost : (tasks : List T) → boot (unflagged tasks) ≡ waiting tasks
  unfolding boot
  early_terminate_lost [] = refl
  early_terminate_lost (task ∷ tasks) = rw (early_terminate_lost tasks) refl
