-- ===== src/Process/Table.antt =====
-- process/process.go: the table of the processes that run.
use silvernode_go.Common.{
  ℕ, ◌+◌, ◌≡◌, refl, ap, ◌∙◌, Bool, true, false, Option, none, some, [], ◌∷◌, arith, if◌then◌else◌,
  ℤ, length, ==_refl, nat_eq, bytes_eq,
}
use silvernode_go.Stl.GoMap.{
  GoMap, lookup, insert, delete, delete-insert, length-insert, lookup-insert, insert-insert,
}
use silvernode_go.Peers.Calls.{int_eq}
use silvernode_go.Process.Service.{Service, coservice, start, terminate, running}

-- A processor, with the number of its coroutines, or a service
pub data Process : Type 0 where
  processor : ℕ → Process
  service : Service → Process

-- `Spawn`, `SpawnM` and `SpawnS` with the number that snowflake generates
unfoldable pub spawn : ℤ → GoMap ℤ Process → GoMap ℤ Process
spawn pid t = insert pid (processor 1) t

unfoldable pub spawn_m : ℕ → ℤ → GoMap ℤ Process → GoMap ℤ Process
spawn_m multi pid t = insert pid (processor multi) t

unfoldable pub spawn_s : ℤ → GoMap ℤ Process → GoMap ℤ Process
unfolding coservice
spawn_s pid t = insert pid (service (coservice pid)) t

abbrev pub is_processor : Option Process → Option ℕ
is_processor none = none
is_processor (some (service s)) = none
is_processor (some (processor n)) = some n

abbrev pub is_service : Option Process → Option Service
is_service none = none
is_service (some (service s)) = some s
is_service (some (processor n)) = none

unfoldable pub get_processor : ℤ → GoMap ℤ Process → Option ℕ
get_processor pid t = is_processor (lookup pid t)

unfoldable pub get_service : ℤ → GoMap ℤ Process → Option Service
get_service pid t = is_service (lookup pid t)

-- `Start` of the service that the table holds under a number
abbrev pub started_in : ℤ → Bool → GoMap ℤ Process → Option Service → GoMap ℤ Process
started_in pid recycle t none = t
started_in pid recycle t (some s) = insert pid (service (start recycle s)) t

unfoldable pub start_service : ℤ → Bool → GoMap ℤ Process → GoMap ℤ Process
unfolding start get_service
start_service pid recycle t = started_in pid recycle t (get_service pid t)

-- `Terminate` removes the service where it sends its signal; where it blocks, the service stays.
abbrev pub after_terminate : ℤ → GoMap ℤ Process → Bool × Service → Bool × GoMap ℤ Process
after_terminate pid t (true, s) = (true, delete pid t)
after_terminate pid t (false, s) = (false, insert pid (service s) t)

abbrev pub kill_found : ℤ → GoMap ℤ Process → Option Process → Bool × GoMap ℤ Process
kill_found pid t none = (true, t)
kill_found pid t (some (processor n)) = (true, delete pid t)
kill_found pid t (some (service s)) =
    if s.killing then (true, t) else after_terminate pid t (terminate s)

-- `Kill`, and whether it returns. A processor's Terminate returns: there is room in its channels.
unfoldable pub kill : ℤ → GoMap ℤ Process → Bool × GoMap ℤ Process
unfolding terminate
kill pid t = kill_found pid t (lookup pid t)

unfoldable pub process_num : GoMap ℤ Process → ℕ
process_num t = length t

abbrev pub coroutines_of : Process → ℕ
coroutines_of (processor n) = n
coroutines_of (service s) = 1

unfoldable pub coroutine_num : GoMap ℤ Process → ℕ
coroutine_num [] = 0
coroutine_num ((pid, p) ∷ t) = coroutines_of p + coroutine_num t

coroutine_num-insert :
    (pid : ℤ) (p : Process) (t : GoMap ℤ Process)
    → lookup pid t ≡ none
    → coroutine_num (insert pid p t) ≡ coroutine_num t + coroutines_of p
unfolding lookup insert coroutine_num
coroutine_num-insert pid p [] h = omega arith
coroutine_num-insert pid p ((j, q) ∷ t) h = ground (arith, coroutine_num-insert pid p t)

-- The table after the `Kill` of a service that was not started
abbrev pub blocked : ℤ → GoMap ℤ Process → GoMap ℤ Process
blocked pid t =
    insert pid (service (record (coservice pid) { killing = true; terminated = true })) t

kill-unstarted : (pid : ℤ) (t : GoMap ℤ Process) → kill pid (spawn_s pid t) ≡ (false, blocked pid t)
unfolding kill spawn_s coservice
kill-unstarted pid t =
    rw (lookup-insert pid pid (service (coservice pid)) t, ==_refl pid)
      (ap (λ u. (false, u)) (insert-insert pid _ _ t))

kill-blocked :
    (pid : ℤ) (t : GoMap ℤ Process)
    → (kill pid (blocked pid t) ≡ (true, blocked pid t))
      × (get_service pid (blocked pid t)
          ≡ some (record (coservice pid) { killing = true; terminated = true }))
unfolding kill get_service coservice
kill-blocked pid t =
    rw
      (
        lookup-insert pid pid
            (service (record (coservice pid) { killing = true; terminated = true })) t,
        ==_refl pid,
      )
      (refl, refl)

start-spawn :
    (pid : ℤ) (recycle : Bool) (t : GoMap ℤ Process)
    → start_service pid recycle (spawn_s pid t)
      ≡ insert pid (service (start recycle (coservice pid))) t
unfolding start_service spawn_s get_service
start-spawn pid recycle t =
    rw (lookup-insert pid pid (service (coservice pid)) t, ==_refl pid) (insert-insert pid _ _ t)

kill-started :
    (pid : ℤ) (recycle : Bool) (t : GoMap ℤ Process)
    → lookup pid t ≡ none
    → kill pid (start_service pid recycle (spawn_s pid t)) ≡ (true, t)
unfolding kill start coservice
kill-started pid recycle t fresh =
    rw
      (
        start-spawn pid recycle t,
        lookup-insert pid pid (service (start recycle (coservice pid))) t,
        ==_refl pid,
      )
      (ap (λ u. (true, u)) (delete-insert pid _ t fresh))

-- A process spawned under a number that no process has. A processor adds its coroutines and one process to
-- the counts, and Kill returns and gives back the table as it was; so it does of a service that was
-- started, whether it has a recycling or not. But Kill of a service that was never started does not
-- return, and the service stays counted; it does not run any more, and a later Kill of it returns and
-- changes nothing, so it stays for ever.
pub spawn-kill :
    (multi : ℕ) (pid : ℤ) (recycle : Bool) (t : GoMap ℤ Process)
    → lookup pid t ≡ none
    → (coroutine_num (spawn_m multi pid t) ≡ coroutine_num t + multi)
      × (process_num (spawn_m multi pid t) ≡ process_num t + 1)
      × (kill pid (spawn_m multi pid t) ≡ (true, t))
      × (kill pid (start_service pid recycle (spawn_s pid t)) ≡ (true, t))
      × (after : GoMap ℤ Process) × (s : Service) × (kill pid (spawn_s pid t) ≡ (false, after))
      × (process_num after ≡ process_num t + 1)
      × (get_service pid after ≡ some s)
      × (running s ≡ false)
      × (kill pid after ≡ (true, after))
unfolding spawn_m process_num running
spawn-kill multi pid recycle t fresh = (
  coroutine_num-insert pid (processor multi) t fresh,
  length-insert pid (processor multi) t ∙ rw fresh refl,
  unfold kill in
      rw (lookup-insert pid pid (processor multi) t, ==_refl pid)
        (ap (λ u. (true, u)) (delete-insert pid (processor multi) t fresh)),
  kill-started pid recycle t fresh,
  blocked pid t,
  record (coservice pid) { killing = true; terminated = true },
  kill-unstarted pid t,
  length-insert pid _ t ∙ rw fresh refl,
  (kill-blocked pid t).1,
  refl,
  (kill-blocked pid t).0,
)
