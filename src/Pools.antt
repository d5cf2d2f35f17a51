-- ===== src/Pools.antt =====
-- utils/pools: pools of objects that are disposed of when their time has come. An object is a number, times
-- are seconds; what is disposed of is recorded in order.
use silvernode_go.Common.{
  ℕ, ◌+◌, Bool, true, not, ◌&&◌, Option, none, some, List, [], ◌∷◌, ◌++◌, leb, if◌then◌else◌,
  length, ◌==◌, Bytes, nat_eq, bytes_eq,
}
use silvernode_go.Stl.GoMap.{GoMap, lookup, insert, delete, has}
pub mod Due

pub record Pool : Type 0 where
  pub objs : GoMap ℕ ℕ
  pub disposed : List ℕ

unfoldable pub copool : Pool
copool = record { objs = []; disposed = [] }

-- `Put` of an object with a life at the time `now`
unfoldable pub put : ℕ → ℕ → ℕ → Pool → Pool
put now obj life p = record p { objs = insert obj (now + life) p.objs }

-- `Dispose`
unfoldable pub dispose : ℕ → Pool → Pool
dispose obj p =
    if has obj p.objs
    then record { objs = delete obj p.objs; disposed = p.disposed ++ (obj ∷ []) }
    else p

unfoldable pub num_of_obj : Pool → ℕ
num_of_obj p = length p.objs

abbrev pub keys : GoMap ℕ ℕ → List ℕ
keys [] = []
keys ((obj, ts) ∷ objs) = obj ∷ keys objs

unfoldable pub dispose_all : Pool → Pool
dispose_all p = record { objs = []; disposed = p.disposed ++ keys p.objs }

-- The objects whose time has come, in the order of the loop
unfoldable pub dirtys : ℕ → GoMap ℕ ℕ → List ℕ
dirtys now [] = []
dirtys now ((obj, ts) ∷ objs) =
    let rest = dirtys now objs in if leb ts now then obj ∷ rest else rest

unfoldable pub delete_all : List ℕ → GoMap ℕ ℕ → GoMap ℕ ℕ
delete_all [] objs = objs
delete_all (obj ∷ dirty) objs = delete_all dirty (delete obj objs)

-- `checkAndDispose`; an error of an object's Dispose is caught.
unfoldable pub check_and_dispose : ℕ → Pool → Pool
unfolding dirtys delete_all
check_and_dispose now p = record {
  objs = delete_all (dirtys now p.objs) p.objs;
  disposed = p.disposed ++ dirtys now p.objs;
}

-- The pools by name, and whether the service that checks them runs
pub record Pools : Type 0 where
  pub pools : GoMap Bytes Pool
  pub service : Bool

abbrev pub fetched : Bytes → Pools → Option Pool → Pools
fetched name ps (some p) = ps
fetched name ps none = record { pools = insert name copool ps.pools; service = true }

-- `Fetch`, `Dispose` of a pool (with what it disposes of) and `checkAll`
unfoldable pub fetch : Bytes → Pools → Pools
unfolding copool
fetch name ps = fetched name ps (lookup name ps.pools)

abbrev pub dropped : Bytes → Pools → Option Pool → List ℕ × Pools
dropped name ps none = ([], ps)
dropped name ps (some p) =
    let left = delete name ps.pools in
    (keys p.objs, record { pools = left; service = ps.service && not (length left == 0) })

unfoldable pub dispose_pool : Bytes → Pools → List ℕ × Pools
dispose_pool name ps = dropped name ps (lookup name ps.pools)

unfoldable pub summarize : GoMap Bytes Pool → GoMap Bytes ℕ
unfolding num_of_obj
summarize [] = []
summarize ((name, p) ∷ ps) = (name, num_of_obj p) ∷ summarize ps

unfoldable pub check_all : ℕ → GoMap Bytes Pool → GoMap Bytes Pool
unfolding check_and_dispose
check_all now [] = []
check_all now ((name, p) ∷ ps) = (name, check_and_dispose now p) ∷ check_all now ps
