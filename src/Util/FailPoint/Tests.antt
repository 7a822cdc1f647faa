-- ===== src/Util/FailPoint/Tests.antt =====
-- A fail point of src/mongo/util/fail_point.cpp with one thread: it is set to fail twice, and read.
use mongo_cxx_driver.Base.{◌↔◌, ◌≡◌, ◌≢◌, refl, true, false, [], ◌∷◌, arith}
use mongo_cxx_driver.Base.Int.{pos, ◌-ℤ◌}
use mongo_cxx_driver.Util.FailPoint.{
  n_times, random, FailPoint, disable_fail_point, drained, store_mode, store_times, store_data,
  activate, decided, fatal_mode, decide, decide_in, slow_on, count_reader,
}
use mongo_cxx_driver.Util.FailPoint.Threads.{
  System, waiting, storing_times, end_wait, put_mode, put_times, put_data, finish, readers,
  Reachable, initial, further, look, open_block, switch, set_mode, outside, counted, in_block, free,
}
use mongo_cxx_driver.Util.FailPoint.Wait.{Steps, drained-Steps}
use mongo_cxx_driver.Util.FailPoint.Runs.{reachable-drained, reachable-decide, Step-stable}

abbrev twice : FailPoint
twice = record {
  active = true;
  ref_counter = 0;
  mode = n_times;
  times_or_period = pos 2;
  data_field = [];
}

abbrev once_more : FailPoint
once_more = record {
  active = true;
  ref_counter = 1;
  mode = n_times;
  times_or_period = pos 1;
  data_field = [];
}

set_reachable : Reachable record { fail_point = twice; threads = outside ∷ []; setter = free }
unfolding disable_fail_point drained store_mode store_times store_data activate
set_reachable =
    further
      (further
        (further
          (further (further (further (initial 1) (set_mode n_times (pos 2) [])) (end_wait refl))
            (put_mode refl))
          put_times)
        put_data)
      finish

seen_reachable :
    Reachable record { fail_point = count_reader twice; threads = counted true ∷ []; setter = free }
seen_reachable = further (further set_reachable (look [] [] refl)) (open_block [] [])

once_decided : decide (count_reader twice) ≡ decided once_more
unfolding decide_in count_reader ◌-ℤ◌
once_decided = refl

reachable-decide_example : decide (count_reader twice) ≢ fatal_mode
reachable-decide_example = reachable-decide [] [] seen_reachable refl

Step-stable_example : (once_more.mode ≡ n_times) × (once_more.data_field ≡ [])
unfolding count_reader
Step-stable_example =
    Step-stable
      {s = record { fail_point = count_reader twice; threads = counted true ∷ []; setter = free }}
      {t = record { fail_point = once_more; threads = in_block slow_on ∷ []; setter = free }}
      seen_reachable (switch once_more [] [] once_decided) (omega arith)

waiting_reachable : Reachable record {
  fail_point = disable_fail_point (count_reader twice);
  threads = counted true ∷ [];
  setter = waiting n_times (pos 1) [];
}
waiting_reachable = further seen_reachable (set_mode n_times (pos 1) [])

reachable-drained_example :
    (drained (disable_fail_point (count_reader twice)) ≡ true) ↔ (readers (counted true ∷ []) ≡ 0)
reachable-drained_example = reachable-drained n_times (pos 1) [] waiting_reachable refl

-- A reader that looked before `setMode` disabled the fail point enters between two of its stores.
late_reader : Reachable record {
  fail_point = count_reader (store_mode n_times (disable_fail_point twice));
  threads = counted false ∷ [];
  setter = storing_times (pos 1) [];
}
unfolding disable_fail_point drained store_mode count_reader
late_reader =
    further
      (further
        (further (further (further set_reachable (look [] [] refl)) (set_mode n_times (pos 1) []))
          (end_wait refl))
        (put_mode refl))
      (open_block [] [])

abbrev waiting_system : System
waiting_system = record {
  fail_point = disable_fail_point (count_reader twice);
  threads = counted true ∷ [];
  setter = waiting n_times (pos 1) [];
}

waiting_mode : waiting_system.fail_point.mode ≢ random
unfolding disable_fail_point count_reader
waiting_mode e = cc

drained-Steps_example :
    (t : System) × Steps waiting_system t
    × (t.setter ≡ waiting n_times (pos 1) [])
    × (drained t.fail_point ≡ true)
drained-Steps_example =
    drained-Steps {s = waiting_system} n_times (pos 1) [] waiting_reachable refl waiting_mode
