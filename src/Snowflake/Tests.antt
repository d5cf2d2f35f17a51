-- ===== src/Snowflake/Tests.antt =====
-- utils/snowflake at concrete inputs.
use silvernode_go.Common.{◌≡◌, refl, [], ◌∷◌, arith, ℤ, ret}
use silvernode_go.Snowflake.{Seed, generate}
use silvernode_go.Snowflake.Unique.{Increases, generate-Increases}
use silvernode_go.Snowflake.Overflow.{overflow_collides}

-- A millisecond after the epoch with the last step used, and the seeds 6 and 7.
abbrev worn : Seed
worn = record { timestamp = 1288834974658; seed = 6; step = 4095 }

abbrev fresh : Seed
fresh = record { timestamp = 1288834974657; seed = 7; step = 0 }

generate-Increases_example :
    Increases worn 1288834974658 (generate 1288834974658 (1288834974658 ∷ 1288834974659 ∷ []) worn)
generate-Increases_example =
    generate-Increases worn 1288834974658 (1288834974658 ∷ []) 1288834974659 (omega arith)
      (omega arith) (omega arith) (omega arith) (omega arith) (omega arith) (omega arith)
      (omega arith)

overflow_collides_example :
    (id : ℤ) × (m m2 : Seed) × (generate 1288834974658 (1288834974659 ∷ []) worn ≡ ret (id, m))
    × (generate 1288834974659 [] fresh ≡ ret (id, m2))
overflow_collides_example =
    overflow_collides worn fresh 1288834974659 refl refl refl (omega arith) (omega arith) refl
      (omega arith)
