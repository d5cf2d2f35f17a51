-- ===== src/Peers/Calls/Steps.antt =====
-- peers/peer.go: the table of calls under any sequence of requests, answers and checks.
use silvernode_go.Common.{
  ℕ, ◌+◌, ◌≡◌, refl, sym, ap, ◌∙◌, inl, inr, Bool, true, false, Option, none, some, List, [], ◌∷◌,
  arith, if◌then◌else◌, Option-cases, is_some, ℤ, ret, ret-injective, ◌==◌, Bytes, nat_eq, bytes_eq,
}
use mathlib.Core.Path.{subst}
use silvernode_go.Stl.GoMap.{
  lookup, has, Distinct, lookup-insert, lookup-delete, insert-Distinct, delete-Distinct,
}
use silvernode_go.Stl.Slices.{one_if}
use silvernode_go.Peers.Calls.{
  int_eq, CallFunc, Table, build_call, takeout_call, dirty_list, check_time_out, get_call, outcome,
  deal_answer, not_requested,
}
use silvernode_go.Peers.Request.{Requested, is_error, request, report, after_request, call}
use silvernode_go.Peers.Calls.Once.{
  among, times, times-append, is_dirty, delete_all-Distinct, check_time_out_lem,
}

-- The table, the sequence numbers of the calls that were built, and those whose `Call` ended with an error.
pub record History : Type 0 where
  pub table : Table
  pub built : List ℤ
  pub refused : List ℤ

abbrev pub begun : History
begun = record { table = record { callbacks = []; notified = [] }; built = []; refused = [] }

-- A sequence number that snowflake gives is new. `build` is what a request of Invoke or Do leaves, whether
-- or not it goes; `make` is Call, which tells the caller of an error of its request and leaves the call.
pub data Step : History → History → Type 0 where
  build :
      (seq : ℤ) (method : Bytes) (reply now timeout : ℕ) (h : History)
      → among seq h.built ≡ false
      → Step h (record h {
        table = build_call seq method reply now timeout h.table;
        built = seq ∷ h.built;
      })
  make :
      (self : Bytes) (send : Bytes → Bytes → Option Bytes) (body : Option Bytes)
      (nick node method : Bytes) (reply : ℕ) (seq : ℤ) (now timeout : ℕ) (r : Requested)
      (asked told : Table) (h : History)
      → among seq h.built ≡ false
      → request self send body nick node method (some reply) seq now timeout h.table
        ≡ (ret r, asked)
      → call self send body nick node method reply seq now timeout h.table ≡ ret told
      → Step h (record {
        table = told;
        built = seq ∷ h.built;
        refused = if is_error r then seq ∷ h.refused else h.refused;
      })
  answer :
      (seq : ℤ) (err : Bytes) (local fetched : Bool) (h : History)
      → Step h (record h { table = deal_answer seq err local fetched h.table })
  expire : (now : ℕ) (h : History) → Step h (record h { table = check_time_out now h.table })

pub data Reachable : History → Type 0 where
  start : Reachable begun
  next : (h h' : History) → Reachable h → Step h h' → Reachable h'

pub record IsOnce (h : History) : Type 0 where
  pub distinct : Distinct h.table.callbacks
  pub balanced :
      (seq : ℤ)
      → times seq h.table.notified + one_if (has seq h.table.callbacks)
        ≡ one_if (among seq h.built) + one_if (among seq h.refused)
  pub once_refused : (seq : ℤ) → among seq h.refused ≡ true → among seq h.built ≡ true

build-IsOnce :
    (seq : ℤ) (method : Bytes) (reply now timeout : ℕ) (h : History)
    → among seq h.built ≡ false
    → IsOnce h
    → IsOnce (record h {
      table = build_call seq method reply now timeout h.table;
      built = seq ∷ h.built;
    })
unfolding build_call
build-IsOnce seq method reply now timeout h new v = record {
  distinct = insert-Distinct seq _ h.table.callbacks v.distinct;
  balanced = λ s.
      rw
        (lookup-insert seq s (record { method = method; reply = reply; time_out = now + timeout })
          h.table.callbacks)
        (ground
          (arith, int_eq.equal_iff seq s, v.balanced s, v.balanced seq, new, v.once_refused seq));
  once_refused = λ s e. ground (arith, v.once_refused s e);
}

-- The request of a Call has failed.
refuse-IsOnce :
    (seq : ℤ) (method : Bytes) (reply now timeout : ℕ) (h : History)
    → among seq h.built ≡ false
    → IsOnce h
    → IsOnce (record {
      table = report seq true (build_call seq method reply now timeout h.table);
      built = seq ∷ h.built;
      refused = seq ∷ h.refused;
    })
unfolding build_call
refuse-IsOnce seq method reply now timeout h new v = record {
  distinct = insert-Distinct seq _ h.table.callbacks v.distinct;
  balanced = λ s.
      rw
        (
          times-append s h.table.notified ((seq, not_requested) ∷ []),
          lookup-insert seq s (record { method = method; reply = reply; time_out = now + timeout })
              h.table.callbacks,
        )
        (ground
          (arith, int_eq.equal_iff seq s, v.balanced s, v.balanced seq, new, v.once_refused seq));
  once_refused = λ s e. ground (arith, v.once_refused s, e);
}

call_lem :
    (self : Bytes) (send : Bytes → Bytes → Option Bytes) (body : Option Bytes)
    (nick node method : Bytes) (reply : ℕ) (seq : ℤ) (now timeout : ℕ) (r : Requested)
    (t asked told : Table)
    → request self send body nick node method (some reply) seq now timeout t ≡ (ret r, asked)
    → call self send body nick node method reply seq now timeout t ≡ ret told
    → report seq (is_error r) (build_call seq method reply now timeout t) ≡ told
unfolding call
call_lem self send body nick node method reply seq now timeout r t asked told e c =
    subst (λ (u : Table). report seq (is_error r) u ≡ told) (sym built_now)
      (ret-injective (ap (after_request seq) (sym e) ∙ c))
  where
    built_now : build_call seq method reply now timeout t ≡ asked
    built_now = unfold request in ap (λ p. p.1) e

make-IsOnce :
    (seq : ℤ) (method : Bytes) (reply now timeout : ℕ) (b : Bool) (h : History)
    → among seq h.built ≡ false
    → IsOnce h
    → IsOnce (record {
      table = report seq b (build_call seq method reply now timeout h.table);
      built = seq ∷ h.built;
      refused = if b then seq ∷ h.refused else h.refused;
    })
make-IsOnce seq method reply now timeout false h new v =
    build-IsOnce seq method reply now timeout h new v
make-IsOnce seq method reply now timeout true h new v =
    refuse-IsOnce seq method reply now timeout h new v

answered_count :
    (s seq : ℤ) (n b : ℕ) (call : CallFunc) (o : Option CallFunc)
    → n + one_if (is_some o) ≡ b
    → (seq ≡ s → o ≡ some call)
    → n + one_if (seq == s) + one_if (is_some (if seq == s then none else o)) ≡ b
answered_count s seq n b call o e f = ground (arith, int_eq.equal_iff seq s, e, f)

answer-IsOnce :
    (seq : ℤ) (err : Bytes) (local fetched : Bool) (h : History)
    → IsOnce h
    → IsOnce (record h { table = deal_answer seq err local fetched h.table })
unfolding deal_answer takeout_call
answer-IsOnce seq err local fetched h v = elim (Option-cases (lookup seq h.table.callbacks)) [
  | inl gone ↦ rw gone v
  | inr (call, here) ↦ rw here (record {
    distinct = delete-Distinct seq h.table.callbacks v.distinct;
    balanced = λ s.
        rw
          (
            times-append s h.table.notified ((seq, outcome err local fetched) ∷ []),
            lookup-delete seq s h.table.callbacks,
          )
          (ground (
            arith,
            answered_count s seq (times s h.table.notified)
                (one_if (among s h.built) + one_if (among s h.refused)) call
                (lookup s h.table.callbacks) (v.balanced s)
                (λ e. subst (λ (i : ℤ). lookup i h.table.callbacks ≡ some call) e here),
          ));
    once_refused = v.once_refused;
  })
]

expired_count :
    (now n b : ℕ) (o : Option CallFunc)
    → n + one_if (is_some o) ≡ b
    → n + one_if (is_dirty now o) + one_if (is_some (if is_dirty now o then none else o)) ≡ b
expired_count now n b none e = omega (arith, e)
expired_count now n b (some call) e = ground (arith, e)

pending_after :
    (now : ℕ) (h : History) (s : ℤ)
    → IsOnce h
    → lookup s (check_time_out now h.table).callbacks
      ≡ (if is_dirty now (lookup s h.table.callbacks) then none else lookup s h.table.callbacks)
pending_after now h s v = unfold get_call in (check_time_out_lem now h.table s v.distinct).0

times_after :
    (now : ℕ) (h : History) (s : ℤ)
    → IsOnce h
    → times s (check_time_out now h.table).notified
      ≡ times s h.table.notified + one_if (is_dirty now (lookup s h.table.callbacks))
times_after now h s v = unfold get_call in (check_time_out_lem now h.table s v.distinct).1

expire-IsOnce :
    (now : ℕ) (h : History) → IsOnce h → IsOnce (record h { table = check_time_out now h.table })
expire-IsOnce now h v = record {
  distinct =
      unfold check_time_out in
      delete_all-Distinct (dirty_list now h.table.callbacks) h.table.callbacks v.distinct;
  balanced = λ s.
      rw (pending_after now h s v, times_after now h s v)
        (expired_count now (times s h.table.notified)
          (one_if (among s h.built) + one_if (among s h.refused)) (lookup s h.table.callbacks)
          (v.balanced s));
  once_refused = v.once_refused;
}

Step-IsOnce : (h h' : History) → Step h h' → IsOnce h → IsOnce h'
Step-IsOnce _ _ (build seq method reply now timeout h new) v =
    build-IsOnce seq method reply now timeout h new v
Step-IsOnce _ _ (make self send body nick node method reply seq now timeout r asked told h new e c)
      v =
    subst
      (λ (t : Table). IsOnce (record {
        table = t;
        built = seq ∷ h.built;
        refused = if is_error r then seq ∷ h.refused else h.refused;
      }))
      (call_lem self send body nick node method reply seq now timeout r h.table asked told e c)
      (make-IsOnce seq method reply now timeout (is_error r) h new v)
Step-IsOnce _ _ (answer seq err local fetched h) v = answer-IsOnce seq err local fetched h v
Step-IsOnce _ _ (expire now h) v = expire-IsOnce now h v

-- However requests of Invoke and Call with new sequence numbers, answers and checks for expired calls
-- follow each other: a call that was built, if it was not of a Call that ended with an error, is either
-- pending and was notified of nothing, or is gone and was notified exactly once; one of a Call that
-- ended with an error was notified once more than that; and nothing else is notified or pending.
pub calls-IsOnce : (h : History) → Reachable h → IsOnce h
calls-IsOnce _ start = record {
  distinct = tt;
  balanced = λ s. unfold lookup in refl;
  once_refused = λ s e. ground (arith, e);
}
calls-IsOnce _ (next h0 h r s) = Step-IsOnce h0 h s (calls-IsOnce h0 r)
