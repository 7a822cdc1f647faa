-- ===== src/Random/Tests.antt =====
-- Tests of src/mongo/platform/random.cpp.
use mongo_cxx_driver.Base.{ℕ, ◌<◌, ◌≡◌, arith}
use mongo_cxx_driver.Base.Int.{pos}
use mongo_cxx_driver.Random.{seeded, next_int32_below}
use mongo_cxx_driver.Random.Range.{IsWords, seeded-IsWords, next_int32_below-InRange}

next_int32_below-InRange_example :
    (n : ℕ) × ((next_int32_below 3 (seeded 42)).1 ≡ pos n)
    × (n < 3)
    × IsWords (next_int32_below 3 (seeded 42)).0
next_int32_below-InRange_example =
    next_int32_below-InRange 3 (seeded 42) (omega arith) (seeded-IsWords 42)
