-- ===== src/Util/FailPoint/Runs.antt =====
-- What holds in every run of threads on a fail point of src/mongo/util/fail_point.cpp.
use mongo_cxx_driver.Base.{
  ◌↔◌, ℕ, ◌≡◌, ◌≢◌, ◌≤◌, refl, ap, subst, true, false, List, ◌∷◌, ◌++◌, arith, Bool-cases, inl, inr,
}
use mongo_cxx_driver.Base.Int.{ℤ, pos, ltb_ℤ, ◌-ℤ◌}
use mongo_cxx_driver.Util.FailPoint.{
  Mode, off, always_on, random, n_times, other, FailPoint, disable_fail_point,
  should_fail_close_block, count_reader, fatal_mode, decide, decide_in, drained, is_off,
  store_times, activate, enable_fail_point,
}
use mongo_cxx_driver.Util.FailPoint.Threads.{
  Phase, counted, waiting, System, Step, look, open_block, stay_off, switch, use_up, disable,
  close_block, set_mode, end_wait, refuse, put_mode, put_times, put_data, finish, Reachable,
  readers, users,
}
use mongo_cxx_driver.Util.FailPoint.Threads.Counts.{users_at, is_running, is_held}
use mongo_cxx_driver.Util.FailPoint.Threads.Invariant.{IsKept, Kept, decide_in-Kept, reachable-Inv}

decide_in-running : (m : Mode) (fp : FailPoint) → is_running m ≡ true → decide_in m fp ≢ fatal_mode
unfolding decide_in
decide_in-running off fp h e = cc
decide_in-running always_on fp h e = cc
decide_in-running random fp h e = cc
decide_in-running n_times fp h e = elim (Bool-cases (ltb_ℤ (pos 0) (fp.times_or_period -ℤ pos 1))) [
  | inl b ↦ cc (rw b at e)
  | inr b ↦ cc (rw b at e)
]
decide_in-running other fp h e = cc

-- In every reachable state, a thread that saw the fail point active reads a mode that the `switch` has a case
-- for: the assertion 16444 is never reached.
pub reachable-decide :
    {s : System} (before after : List Phase)
    → Reachable s
    → s.threads ≡ before ++ counted true ∷ after
    → decide s.fail_point ≢ fatal_mode
reachable-decide {s} before after r e =
    let saw = users_at before after (counted true) in
    let count = ap users e in
    decide_in-running s.fail_point.mode s.fail_point ((reachable-Inv r).used_mode (omega arith))

-- From every reachable state, no step changes the mode or the data while a thread that saw the bit in its
-- increment has not yet decremented the counter.
pub Step-stable :
    {s t : System}
    → Reachable s
    → Step s t
    → 1 ≤ users s.threads
    → (t.fail_point.mode ≡ s.fail_point.mode) × (t.fail_point.data_field ≡ s.fail_point.data_field)
unfolding count_reader should_fail_close_block disable_fail_point store_times activate
    enable_fail_point
Step-stable r (look before after active) h = (refl, refl)
Step-stable r (open_block before after) h = (refl, refl)
Step-stable r (stay_off before after) h = (refl, refl)
Step-stable {s} r (switch next before after e) h =
    let kept : IsKept s.fail_point next =
      subst (Kept s.fail_point) e (decide_in-Kept s.fail_point.mode s.fail_point) in
    (kept.mode, kept.data_field)
Step-stable {s} r (use_up next before after e) h =
    let kept : IsKept s.fail_point next =
      subst (Kept s.fail_point) e (decide_in-Kept s.fail_point.mode s.fail_point) in
    (kept.mode, kept.data_field)
Step-stable r (disable before after) h = (refl, refl)
Step-stable r (close_block code before after) h = (refl, refl)
Step-stable r (set_mode m v extra) h = (refl, refl)
Step-stable r (end_wait d) h = (refl, refl)
Step-stable r (refuse m) h = (refl, refl)
Step-stable r (put_mode m) h = absurd (omega (arith, (reachable-Inv r).quiet refl))
Step-stable r put_times h = (refl, refl)
Step-stable r put_data h = absurd (omega (arith, (reachable-Inv r).quiet refl))
Step-stable {s} r finish h = elim (Bool-cases (is_off s.fail_point.mode)) [
  | inl e ↦ rw e (refl, refl)
  | inr e ↦ rw e (refl, refl)
]

drained_iff :
    (fp : FailPoint) (n : ℕ)
    → fp.active ≡ false
    → fp.ref_counter ≡ n
    → (drained fp ≡ true) ↔ (n ≡ 0)
unfolding drained
drained_iff fp n h k = ground arith

-- In every reachable state in which `setMode` waits, its wait is over just if no thread is between the
-- increment and the decrement of the counter.
pub reachable-drained :
    {s : System} (m : Mode) (v : ℤ) (extra : List ℕ)
    → Reachable s
    → s.setter ≡ waiting m v extra
    → (drained s.fail_point ≡ true) ↔ (readers s.threads ≡ 0)
reachable-drained {s} m v extra r e =
    let inv = reachable-Inv r in
    drained_iff s.fail_point (readers s.threads) (inv.held (ap is_held e)) inv.counter
