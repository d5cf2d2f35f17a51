-- ===== src/Peers/Tests.antt =====
-- peers at concrete inputs.
use silvernode_go.Common.{
  ◌+◌, ◌≡◌, refl, true, false, Option, none, some, [], ◌∷◌, if◌then◌else◌, pos, ret, Bytes, nat_eq,
  bytes_eq,
}
use silvernode_go.Stl.GoMap.{lookup, insert, delete, Distinct}
use silvernode_go.Stl.Slices.{one_if}
use silvernode_go.Peers.Exchange.{Exchange}
use silvernode_go.Peers.Calls.{
  Table, build_call, deal_answer, check_time_out, get_call, dirty_list, delete_all, int_eq,
}
use silvernode_go.Peers.Calls.Once.{times, is_dirty, check_time_out_lem}
use silvernode_go.Strings.{split}
use silvernode_go.Peers.Request.{malformed, request, report, call}
use silvernode_go.Peers.Calls.Steps.{
  History, begun, Reachable, start, next, build, make, answer, IsOnce, calls-IsOnce,
}

abbrev greeting : Exchange
greeting = record {
  from = b'a' ∷ [];
  to = b'b' ∷ [];
  func = b'H' ∷ b'i' ∷ [];
  seq = pos 5;
  ret_mark = 0;
  err = [];
}

-- Two calls of 10 seconds, built at the times 100 and 200.
abbrev waiting : Table
waiting =
    build_call (pos 2) [] 0 200 10
      (build_call (pos 1) [] 0 100 10 (record { callbacks = []; notified = [] }))

-- At the time 105 the check gives up the first call, and at the time 150 it keeps it.
only_first :
    (get_call (pos 1) (check_time_out 105 waiting) ≡ none)
    × (get_call (pos 1) (check_time_out 150 waiting) ≡ get_call (pos 1) waiting)
unfolding get_call check_time_out build_call lookup insert dirty_list delete_all delete
only_first = (refl, refl)

waiting-Distinct : Distinct waiting.callbacks
unfolding build_call lookup insert
waiting-Distinct = (refl, (refl, tt))

check_time_out_lem_example :
    (get_call (pos 1) (check_time_out 150 waiting)
      ≡ (if is_dirty 150 (get_call (pos 1) waiting) then none else get_call (pos 1) waiting))
    × (times (pos 1) (check_time_out 150 waiting).notified
        ≡ times (pos 1) waiting.notified + one_if (is_dirty 150 (get_call (pos 1) waiting)))
check_time_out_lem_example = check_time_out_lem 150 waiting (pos 1) waiting-Distinct

abbrev never_sent : Bytes → Bytes → Option Bytes
never_sent node bs = none

-- A Call of "Hi", a name without a dot, has failed.
abbrev no_dot : Bytes
no_dot = b'H' ∷ b'i' ∷ []

abbrev left : Table
left = build_call (pos 1) no_dot 0 100 10 begun.table

abbrev refused_once : History
refused_once = record { table = report (pos 1) true left; built = pos 1 ∷ []; refused = pos 1 ∷ [] }

abbrev asked : History
asked = record refused_once {
  table = build_call (pos 2) [] 0 100 10 refused_once.table;
  built = pos 2 ∷ (pos 1 ∷ []);
}

abbrev told : History
told = record asked { table = deal_answer (pos 2) [] false true asked.table }

is_malformed :
    request [] never_sent none [] [] no_dot (some 0) (pos 1) 100 10 begun.table
    ≡ (ret malformed, left)
unfolding request split
is_malformed = refl

is_told : call [] never_sent none [] [] no_dot 0 (pos 1) 100 10 begun.table ≡ ret refused_once.table
unfolding call request split
is_told = refl

told-Reachable : Reachable told
told-Reachable =
    next asked told
      (next refused_once asked
        (next begun refused_once start (
          make [] never_sent none [] [] no_dot 0 (pos 1) 100 10 malformed left refused_once.table
            begun refl is_malformed is_told))
        (build (pos 2) [] 0 100 10 refused_once refl))
      (answer (pos 2) [] false true asked)

calls-IsOnce_example : IsOnce told
calls-IsOnce_example = calls-IsOnce told told-Reachable
