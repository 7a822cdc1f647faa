-- ===== src/Util/FailPoint.antt =====
-- src/mongo/util/fail_point.cpp and fail_point.h. `_fpInfo` is its bit 31 and the counter of the others; there
-- are fewer than 2 ^ 31 threads, so that the counter does not wrap. Each function here makes one access that
-- other threads can see.
pub mod Threads
pub mod Runs
pub mod Wait
mod Tests
use mongo_cxx_driver.Base.{
  ℕ, zero, suc, ◌+◌, ◌-◌, ◌==◌, Bool, true, false, not, ◌&&◌, List, [], ◌∷◌, ◌++◌, if◌then◌else◌,
}
use mongo_cxx_driver.Base.Int.{ℤ, pos, ◌-ℤ◌, ltb_ℤ}

-- `Mode`; `other` is a number that names none, which `setMode` refuses.
pub data Mode : Type 0 where
  off always_on random n_times other : Mode

-- `RetCode`, as `slowShouldFailOpenBlock` returns it.
pub data RetCode : Type 0 where
  slow_off slow_on : RetCode

pub record FailPoint : Type 0 where
  pub active : Bool
  pub ref_counter : ℕ
  pub mode : Mode
  pub times_or_period : ℤ
  pub data_field : List ℕ

-- `FailPoint()`.
abbrev pub new_fail_point : FailPoint
new_fail_point = record {
  active = false;
  ref_counter = 0;
  mode = off;
  times_or_period = pos 0;
  data_field = [];
}

-- `enableFailPoint` and `disableFailPoint`, at the exchange that succeeds.
unfoldable pub enable_fail_point : FailPoint → FailPoint
enable_fail_point fp = record fp { active = true }

unfoldable pub disable_fail_point : FailPoint → FailPoint
disable_fail_point fp = record fp { active = false }

-- `shouldFailCloseBlock`.
unfoldable pub should_fail_close_block : FailPoint → FailPoint
should_fail_close_block fp = record fp { ref_counter = fp.ref_counter - 1 }

-- The increment of `slowShouldFailOpenBlock`.
unfoldable pub count_reader : FailPoint → FailPoint
count_reader fp = record fp { ref_counter = fp.ref_counter + 1 }

-- Its `switch`, for a reader that saw the bit, up to the subtraction: `slowOn`, a reader that still has to
-- disable the fail point, or one of the two fatal assertions.
pub data Decided : Type 0 where
  decided used_up : FailPoint → Decided
  fatal_random fatal_mode : Decided

unfoldable pub decide_in : Mode → FailPoint → Decided
decide_in always_on fp = decided fp
decide_in random fp = fatal_random
decide_in n_times fp =
    let fewer = record fp { times_or_period = fp.times_or_period -ℤ pos 1 } in
    if ltb_ℤ (pos 0) fewer.times_or_period then decided fewer else used_up fewer
decide_in off fp = fatal_mode
decide_in other fp = fatal_mode

abbrev pub decide : FailPoint → Decided
decide fp = decide_in fp.mode fp

abbrev pub is_mode : Mode → Bool
is_mode off = true
is_mode always_on = true
is_mode random = true
is_mode n_times = true
is_mode other = false

abbrev pub is_off : Mode → Bool
is_off off = true
is_off always_on = false
is_off random = false
is_off n_times = false
is_off other = false

-- The condition of the wait in `setMode`.
unfoldable pub drained : FailPoint → Bool
drained fp = not fp.active && fp.ref_counter == 0

-- Step 3 of `setMode`, store by store.
unfoldable pub store_mode : Mode → FailPoint → FailPoint
store_mode mode fp = record fp { mode = mode }

unfoldable pub store_times : ℤ → FailPoint → FailPoint
store_times val fp = record fp { times_or_period = val }

unfoldable pub store_data : List ℕ → FailPoint → FailPoint
store_data extra fp = record fp { data_field = extra }

-- Its last test, of the mode that only `setMode` writes.
unfoldable pub activate : FailPoint → FailPoint
unfolding enable_fail_point
activate fp = if is_off fp.mode then fp else enable_fail_point fp
