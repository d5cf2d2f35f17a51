-- ===== src/Pools/Due.antt =====
-- utils/pools: what a check disposes of.
use silvernode_go.Common.{
  ℕ, ◌+◌, ◌≡◌, refl, ◌∙◌, Bool, true, false, Option, none, some, List, [], ◌∷◌, ◌++◌, arith, ltb,
  leb, if◌then◌else◌, nat_beq_iff, ◌==◌, nat_eq, bytes_eq,
}
use silvernode_go.Stl.GoMap.{GoMap, lookup, delete, has, Distinct, lookup-delete}
use silvernode_go.Stl.Slices.{one_if}
use silvernode_go.Pools.{Pool, dirtys, delete_all, check_and_dispose}

-- How often an object stands in a list
abbrev pub count : ℕ → List ℕ → ℕ
count obj [] = 0
count obj (o ∷ os) = one_if (o == obj) + count obj os

count-append : (obj : ℕ) (os ps : List ℕ) → count obj (os ++ ps) ≡ count obj os + count obj ps
count-append obj [] ps = omega arith
count-append obj (o ∷ os) ps = omega (arith, count-append obj os ps)

-- The object is there and its time has come.
abbrev pub is_due : ℕ → Option ℕ → Bool
is_due now none = false
is_due now (some ts) = leb ts now

absent_dirtys :
    (now obj : ℕ) (objs : GoMap ℕ ℕ) → has obj objs ≡ false → count obj (dirtys now objs) ≡ 0
unfolding dirtys lookup
absent_dirtys now obj [] h = refl
absent_dirtys now obj ((o, ts) ∷ objs) h = ground (arith, absent_dirtys now obj objs)

count-dirtys :
    (now obj : ℕ) (objs : GoMap ℕ ℕ)
    → Distinct objs
    → count obj (dirtys now objs) ≡ one_if (is_due now (lookup obj objs))
unfolding dirtys lookup
count-dirtys now obj [] d = refl
count-dirtys now obj ((o, ts) ∷ objs) d =
    ground (arith, nat_beq_iff o obj, absent_dirtys now o objs, count-dirtys now obj objs d.1)

lookup-delete_all :
    (obj : ℕ) (os : List ℕ) (objs : GoMap ℕ ℕ)
    → lookup obj (delete_all os objs) ≡ (if ltb 0 (count obj os) then none else lookup obj objs)
unfolding delete_all
lookup-delete_all obj [] objs = refl
lookup-delete_all obj (o ∷ os) objs =
    ground (arith, lookup-delete o obj objs, lookup-delete_all obj os (delete o objs))

due_or_not :
    (b : Bool) (o : Option ℕ) → (if ltb 0 (one_if b) then none else o) ≡ (if b then none else o)
due_or_not true o = refl
due_or_not false o = refl

-- A check disposes once of each object whose time has come, takes it out of the pool, and leaves every
-- other object as it is.
pub check_and_dispose_lem :
    (now : ℕ) (p : Pool) (obj : ℕ)
    → Distinct p.objs
    → (count obj (check_and_dispose now p).disposed
        ≡ count obj p.disposed + one_if (is_due now (lookup obj p.objs)))
      × (lookup obj (check_and_dispose now p).objs
          ≡ (if is_due now (lookup obj p.objs) then none else lookup obj p.objs))
unfolding check_and_dispose
check_and_dispose_lem now p obj d = (
  count-append obj p.disposed (dirtys now p.objs) ∙ rw (count-dirtys now obj p.objs d) refl,
  lookup-delete_all obj (dirtys now p.objs) p.objs
      ∙ rw (count-dirtys now obj p.objs d)
          (due_or_not (is_due now (lookup obj p.objs)) (lookup obj p.objs)),
)
