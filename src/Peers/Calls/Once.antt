-- ===== src/Peers/Calls/Once.antt =====
-- peers/peer.go: how often a call is notified.
use silvernode_go.Common.{
  ℕ, ◌+◌, ◌≡◌, refl, ◌∙◌, Bool, false, ◌||◌, Option, none, some, List, [], ◌∷◌, ◌++◌, map, arith,
  ltb, if◌then◌else◌, ℤ, ◌==◌, nat_eq, bytes_eq,
}
use silvernode_go.Stl.GoMap.{GoMap, lookup, delete, has, Distinct, lookup-delete, delete-Distinct}
use silvernode_go.Stl.Slices.{one_if}
use silvernode_go.Peers.Calls.{
  int_eq, CallFunc, Outcome, Table, timed, dirty_list, delete_all, check_time_out, get_call,
}

abbrev pub among : ℤ → List ℤ → Bool
among seq [] = false
among seq (s ∷ seqs) = s == seq || among seq seqs

-- `call.TimeOut > now`
abbrev pub is_dirty : ℕ → Option CallFunc → Bool
is_dirty now none = false
is_dirty now (some call) = ltb now call.time_out

-- How often a call was notified.
abbrev pub times : ℤ → List (ℤ × Outcome) → ℕ
times seq [] = 0
times seq ((s, o) ∷ es) = one_if (s == seq) + times seq es

pub times-append :
    (seq : ℤ) (es fs : List (ℤ × Outcome)) → times seq (es ++ fs) ≡ times seq es + times seq fs
times-append seq [] fs = omega arith
times-append seq (e ∷ es) fs = omega (arith, times-append seq es fs)

absent_dirty :
    (now : ℕ) (seq : ℤ) (calls : GoMap ℤ CallFunc)
    → has seq calls ≡ false
    → times seq (map timed (dirty_list now calls)) ≡ 0
unfolding dirty_list lookup
absent_dirty now seq [] h = refl
absent_dirty now seq ((s, call) ∷ calls) h = ground (arith, absent_dirty now seq calls)

times_dirty :
    (now : ℕ) (seq : ℤ) (calls : GoMap ℤ CallFunc)
    → Distinct calls
    → times seq (map timed (dirty_list now calls)) ≡ one_if (is_dirty now (lookup seq calls))
unfolding dirty_list lookup
times_dirty now seq [] d = refl
times_dirty now seq ((s, call) ∷ calls) d =
    ground (arith, int_eq.equal_iff s seq, absent_dirty now s calls, times_dirty now seq calls d.1)

absent_among :
    (now : ℕ) (seq : ℤ) (calls : GoMap ℤ CallFunc)
    → has seq calls ≡ false
    → among seq (dirty_list now calls) ≡ false
unfolding dirty_list lookup
absent_among now seq [] h = refl
absent_among now seq ((s, call) ∷ calls) h = ground (arith, absent_among now seq calls)

among_dirty :
    (now : ℕ) (seq : ℤ) (calls : GoMap ℤ CallFunc)
    → Distinct calls
    → among seq (dirty_list now calls) ≡ is_dirty now (lookup seq calls)
unfolding dirty_list lookup
among_dirty now seq [] d = refl
among_dirty now seq ((s, call) ∷ calls) d =
    ground (arith, int_eq.equal_iff s seq, absent_among now s calls, among_dirty now seq calls d.1)

lookup-delete_all :
    (seq : ℤ) (seqs : List ℤ) (calls : GoMap ℤ CallFunc)
    → lookup seq (delete_all seqs calls) ≡ (if among seq seqs then none else lookup seq calls)
unfolding delete_all
lookup-delete_all seq [] calls = refl
lookup-delete_all seq (s ∷ seqs) calls =
    ground (arith, lookup-delete s seq calls, lookup-delete_all seq seqs (delete s calls))

pub delete_all-Distinct :
    (seqs : List ℤ) (calls : GoMap ℤ CallFunc) → Distinct calls → Distinct (delete_all seqs calls)
unfolding delete_all
delete_all-Distinct [] calls d = d
delete_all-Distinct (s ∷ seqs) calls d =
    delete_all-Distinct seqs (delete s calls) (delete-Distinct s calls d)

-- `checkTimeOut` notifies and removes exactly the calls whose time of expiry is still to come, each
-- once; the calls that are overdue stay as they are.
pub check_time_out_lem :
    (now : ℕ) (t : Table) (seq : ℤ)
    → Distinct t.callbacks
    → (get_call seq (check_time_out now t)
        ≡ (if is_dirty now (get_call seq t) then none else get_call seq t))
      × (times seq (check_time_out now t).notified
          ≡ times seq t.notified + one_if (is_dirty now (get_call seq t)))
unfolding check_time_out get_call
check_time_out_lem now t seq d = (
  lookup-delete_all seq (dirty_list now t.callbacks) t.callbacks
      ∙ rw (among_dirty now seq t.callbacks d) refl,
  times-append seq t.notified (map timed (dirty_list now t.callbacks))
      ∙ rw (times_dirty now seq t.callbacks d) refl,
)
