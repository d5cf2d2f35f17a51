-- ===== src/Process/Tests.antt =====
-- process at concrete inputs.
use silvernode_go.Common.{
  ℕ, ◌+◌, ◌≤◌, ◌<◌, ◌≡◌, refl, Bool, true, false, Option, none, some, List, [], ◌∷◌, ◌++◌, arith, ℤ,
  pos, ret, length, nat_eq, bytes_eq,
}
use silvernode_go.Stl.GoMap.{GoMap, lookup}
use silvernode_go.Peers.Calls.{int_eq}
use silvernode_go.Process.Service.{
  Service, coservice, running, ran, called_back, schedule, runs, schedule-repeat,
}
use silvernode_go.Process.Executor.{boot, finished, tasks_of, boot-terminate}
use silvernode_go.Process.Executor
use silvernode_go.Process.Processor.{Processor, execute, refused, at, queue_len, execute_lem}
use silvernode_go.Process.Table.{
  Process, processor, service, spawn_m, spawn_s, get_service, start_service, kill, process_num,
  coroutine_num, spawn-kill,
}
use silvernode_go.Process.Channel.{Subscriber, subscribe, unsubscribe, publish, received}
use silvernode_go.Process.Channel.Reached.{IsTable, is_running, publish_lem}

abbrev never : ℕ → Bool
never k = false

schedule-repeat_example : schedule 3 true never 5 0 0 false ≡ ret (runs 3 true never 3)
schedule-repeat_example = schedule-repeat 3 true never 5 (λ k. refl) (omega arith) (omega arith)

three_runs : runs 3 true never 3 ≡ ran ∷ (ran ∷ (ran ∷ (called_back ∷ [])))
three_runs = refl

abbrev queued_tasks : List (ℕ × Bool)
queued_tasks = (10, false) ∷ ((20, true) ∷ [])

abbrev later_tasks : List (Option ℕ × Bool)
later_tasks = (some 30, true) ∷ []

boot-terminate_example :
    boot (Executor.terminate queued_tasks ++ later_tasks) ≡ finished (tasks_of queued_tasks)
boot-terminate_example = boot-terminate queued_tasks later_tasks

-- Two executors, of which the second has no task.
abbrev busy : Processor ℕ
busy = record { exes = (some 1 ∷ []) ∷ ([] ∷ []); killing = false; multi = 2 }

execute_lem_example :
    (busy.killing ≡ true → execute (some 9) busy ≡ (refused, busy))
    × (busy.killing ≡ false
        → (k : ℕ) × (execute (some 9) busy ≡ at k (some 9) busy)
          × (k < length busy.exes)
          × ((j : ℕ) → j < length busy.exes → queue_len busy.exes k ≤ queue_len busy.exes j))
execute_lem_example = execute_lem (some 9) busy 1 (omega arith) (omega arith) (omega arith)

abbrev listening : GoMap ℤ (Subscriber ℕ)
listening = (pos 1, record { seq = pos 1; fun = 5; processor = some true }) ∷ []

listening-IsTable : IsTable listening
unfolding lookup
listening-IsTable = ((refl, tt), (refl, tt))

abbrev value : ℕ
value = 8

publish_lem_example :
    (received (pos 1) (publish value listening) ≡ (5, value, true) ∷ [])
    × ((fun : ℕ) (processor : Option Bool)
        → received (pos 1) (publish value (subscribe (pos 1) fun processor listening))
          ≡ (fun, value, is_running processor) ∷ [])
    × (received (pos 1) (publish value (unsubscribe (pos 1) listening)) ≡ [])
unfolding lookup
publish_lem_example = publish_lem value listening (pos 1) listening-IsTable

-- A processor with three coroutines and a service
abbrev running_both : GoMap ℤ Process
running_both = (pos 1, processor 3) ∷ ((pos 2, service (coservice (pos 2))) ∷ [])

is_fresh : lookup (pos 7) running_both ≡ none
unfolding lookup
is_fresh = refl

spawn-kill_example :
    (coroutine_num (spawn_m 2 (pos 7) running_both) ≡ coroutine_num running_both + 2)
    × (process_num (spawn_m 2 (pos 7) running_both) ≡ process_num running_both + 1)
    × (kill (pos 7) (spawn_m 2 (pos 7) running_both) ≡ (true, running_both))
    × (kill (pos 7) (start_service (pos 7) true (spawn_s (pos 7) running_both))
        ≡ (true, running_both))
    × (after : GoMap ℤ Process) × (s : Service) × (kill (pos 7) (spawn_s (pos 7) running_both)
        ≡ (false, after))
    × (process_num after ≡ process_num running_both + 1)
    × (get_service (pos 7) after ≡ some s)
    × (running s ≡ false)
    × (kill (pos 7) after ≡ (true, after))
spawn-kill_example = spawn-kill 2 (pos 7) true running_both is_fresh
