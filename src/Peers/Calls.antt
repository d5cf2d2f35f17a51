-- ===== src/Peers/Calls.antt =====
-- peers/peer.go: the table of pending calls. What a call's Done or Chan receives is recorded with the
-- sequence number. Times are seconds; `_setup.Timeout` is an argument.
use silvernode_go.Common.{
  ℕ, ◌+◌, ◌≡◌, ◌↔◌, Bool, true, not, ◌||◌, Option, none, some, List, [], ◌∷◌, ◌++◌, map, arith, ltb,
  if◌then◌else◌, ℤ, pos, negsuc, Comparable, Bytes, nat_eq, bytes_eq,
}
use silvernode_go.Stl.GoMap.{GoMap, lookup, insert, delete, has}
use silvernode_go.Buffutil.Value.{int_beq}
pub mod Once
pub mod Steps

pub int_beq_iff : (a b : ℤ) → (int_beq a b ≡ true) ↔ (a ≡ b)
int_beq_iff (pos m) (pos n) = ground arith
int_beq_iff (negsuc m) (negsuc n) = ground arith
int_beq_iff (pos m) (negsuc n) = ground arith
int_beq_iff (negsuc m) (pos n) = ground arith

instance abbrev pub int_eq : Comparable ℤ
int_eq = record { equal = int_beq; equal_iff = int_beq_iff }

-- The reply is the number of the object that the answer is decoded into.
pub record CallFunc : Type 0 where
  pub method : Bytes
  pub reply : ℕ
  pub time_out : ℕ

pub data Outcome : Type 0 where
  done : Outcome
  failed : Bytes → Outcome
  not_decoded : Outcome
  timed_out : Outcome
  not_requested : Outcome

pub record Table : Type 0 where
  pub callbacks : GoMap ℤ CallFunc
  pub notified : List (ℤ × Outcome)

unfoldable pub build_call : ℤ → Bytes → ℕ → ℕ → ℕ → Table → Table
build_call seq method reply now timeout t = record t {
  callbacks =
      insert seq (record { method = method; reply = reply; time_out = now + timeout }) t.callbacks;
}

unfoldable pub get_call : ℤ → Table → Option CallFunc
get_call seq t = lookup seq t.callbacks

unfoldable pub takeout_call : ℤ → Table → Option CallFunc × Table
takeout_call seq t =
    if has seq t.callbacks
    then (lookup seq t.callbacks, record t { callbacks = delete seq t.callbacks })
    else (lookup seq t.callbacks, t)

-- The loop over the calls of `checkTimeOut`: those that it notifies, in its order.
unfoldable pub dirty_list : ℕ → GoMap ℤ CallFunc → List ℤ
dirty_list now [] = []
dirty_list now ((seq, call) ∷ calls) =
    let rest = dirty_list now calls in if ltb now call.time_out then seq ∷ rest else rest

unfoldable pub delete_all : List ℤ → GoMap ℤ CallFunc → GoMap ℤ CallFunc
delete_all [] calls = calls
delete_all (seq ∷ seqs) calls = delete_all seqs (delete seq calls)

abbrev pub timed : ℤ → ℤ × Outcome
timed seq = (seq, timed_out)

unfoldable pub check_time_out : ℕ → Table → Table
unfolding dirty_list delete_all
check_time_out now t = record {
  callbacks = delete_all (dirty_list now t.callbacks) t.callbacks;
  notified = t.notified ++ map timed (dirty_list now t.callbacks);
}

-- `fetched` is whether the decoding of the reply works; a local reply is not decoded.
unfoldable pub outcome : Bytes → Bool → Bool → Outcome
outcome [] local fetched = if local || fetched then done else not_decoded
outcome (c ∷ cs) local fetched = failed (c ∷ cs)

abbrev pub after_takeout : ℤ → Outcome → Option CallFunc × Table → Table
after_takeout seq o (none, t) = t
after_takeout seq o (some call, t) = record t { notified = t.notified ++ ((seq, o) ∷ []) }

-- `dealExchange` of an answer, with the error text that it carries.
unfoldable pub deal_answer : ℤ → Bytes → Bool → Bool → Table → Table
unfolding takeout_call outcome
deal_answer seq err local fetched t =
    after_takeout seq (outcome err local fetched) (takeout_call seq t)
