-- ===== src/Util/FailPoint/Threads.antt =====
-- Threads that use a fail point of src/mongo/util/fail_point.cpp, in any interleaving.
pub mod Counts
pub mod Invariant
use mongo_cxx_driver.Base.{
  ◌↔◌, ℕ, zero, suc, ◌+◌, if◌then◌else◌, ◌⊎◌, inl, inr, ◌≡◌, ◌≢◌, ◌≤◌, refl, ap, subst, ◌∙◌, Bool,
  true, false, List, [], ◌∷◌, ◌++◌, arith,
}
use mongo_cxx_driver.Base.Int.{ℤ, pos, ltb_ℤ, ◌-ℤ◌}
use mongo_cxx_driver.Util.FailPoint.{
  Mode, off, always_on, random, n_times, other, RetCode, slow_off, slow_on, used_up, store_mode,
  store_times, store_data, activate, FailPoint, new_fail_point, disable_fail_point,
  should_fail_close_block, count_reader, Decided, decided, fatal_random, fatal_mode, decide,
  decide_in, enable_fail_point, is_mode, drained,
}

-- Where a thread is: outside of the block, behind the test of the bit, behind the increment with what it saw
-- of the bit, about to disable the fail point, or in the block with a return code.
pub data Phase : Type 0 where
  outside entering disabling : Phase
  counted : Bool → Phase
  in_block : RetCode → Phase

-- The thread that holds the mutex in `setMode`, if one does: it has disabled the fail point and waits, has
-- seen no reader, or is about to store the times, to store the data, or to enable the fail point again.
pub data Setter : Type 0 where
  free enabling : Setter
  waiting checked : Mode → ℤ → List ℕ → Setter
  storing_times : ℤ → List ℕ → Setter
  storing_data : List ℕ → Setter

pub record System : Type 0 where
  pub fail_point : FailPoint
  pub threads : List Phase
  pub setter : Setter

-- A step of one thread, between the threads before and behind it, or of `setMode`: one access that the others
-- can see. Readers take no mutex, so that their steps come between any two of `setMode`. A failed assertion
-- of `setMode` gives up the mutex.
pub data Step : System → System → Type 0 where
  look :
      {fp : FailPoint} (before after : List Phase) {s : Setter}
      → fp.active ≡ true
      → Step
          record { fail_point = fp; threads = before ++ outside ∷ after; setter = s }
          record { fail_point = fp; threads = before ++ entering ∷ after; setter = s }
  open_block :
      {fp : FailPoint} (before after : List Phase) {s : Setter}
      → Step
          record { fail_point = fp; threads = before ++ entering ∷ after; setter = s }
          record {
            fail_point = count_reader fp;
            threads = before ++ counted fp.active ∷ after;
            setter = s;
          }
  stay_off :
      {fp : FailPoint} (before after : List Phase) {s : Setter}
      → Step
          record { fail_point = fp; threads = before ++ counted false ∷ after; setter = s }
          record { fail_point = fp; threads = before ++ in_block slow_off ∷ after; setter = s }
  switch :
      {fp : FailPoint} (next : FailPoint) (before after : List Phase) {s : Setter}
      → decide fp ≡ decided next
      → Step
          record { fail_point = fp; threads = before ++ counted true ∷ after; setter = s }
          record { fail_point = next; threads = before ++ in_block slow_on ∷ after; setter = s }
  use_up :
      {fp : FailPoint} (next : FailPoint) (before after : List Phase) {s : Setter}
      → decide fp ≡ used_up next
      → Step
          record { fail_point = fp; threads = before ++ counted true ∷ after; setter = s }
          record { fail_point = next; threads = before ++ disabling ∷ after; setter = s }
  disable :
      {fp : FailPoint} (before after : List Phase) {s : Setter}
      → Step
          record { fail_point = fp; threads = before ++ disabling ∷ after; setter = s }
          record {
            fail_point = disable_fail_point fp;
            threads = before ++ in_block slow_on ∷ after;
            setter = s;
          }
  close_block :
      {fp : FailPoint} (code : RetCode) (before after : List Phase) {s : Setter}
      → Step
          record { fail_point = fp; threads = before ++ in_block code ∷ after; setter = s }
          record {
            fail_point = should_fail_close_block fp;
            threads = before ++ outside ∷ after;
            setter = s;
          }
  set_mode :
      {fp : FailPoint} {threads : List Phase} (m : Mode) (v : ℤ) (extra : List ℕ)
      → Step
          record { fail_point = fp; threads = threads; setter = free }
          record {
            fail_point = disable_fail_point fp;
            threads = threads;
            setter = waiting m v extra;
          }
  end_wait :
      {fp : FailPoint} {threads : List Phase} {m : Mode} {v : ℤ} {extra : List ℕ}
      → drained fp ≡ true
      → Step
          record { fail_point = fp; threads = threads; setter = waiting m v extra }
          record { fail_point = fp; threads = threads; setter = checked m v extra }
  refuse :
      {fp : FailPoint} {threads : List Phase} {m : Mode} {v : ℤ} {extra : List ℕ}
      → is_mode m ≡ false
      → Step
          record { fail_point = fp; threads = threads; setter = checked m v extra }
          record { fail_point = fp; threads = threads; setter = free }
  put_mode :
      {fp : FailPoint} {threads : List Phase} {m : Mode} {v : ℤ} {extra : List ℕ}
      → is_mode m ≡ true
      → Step
          record { fail_point = fp; threads = threads; setter = checked m v extra }
          record { fail_point = store_mode m fp; threads = threads; setter = storing_times v extra }
  put_times :
      {fp : FailPoint} {threads : List Phase} {v : ℤ} {extra : List ℕ}
      → Step
          record { fail_point = fp; threads = threads; setter = storing_times v extra }
          record { fail_point = store_times v fp; threads = threads; setter = storing_data extra }
  put_data :
      {fp : FailPoint} {threads : List Phase} {extra : List ℕ}
      → Step
          record { fail_point = fp; threads = threads; setter = storing_data extra }
          record { fail_point = store_data extra fp; threads = threads; setter = enabling }
  finish :
      {fp : FailPoint} {threads : List Phase}
      → Step
          record { fail_point = fp; threads = threads; setter = enabling }
          record { fail_point = activate fp; threads = threads; setter = free }

abbrev pub idle : ℕ → List Phase
idle zero = []
idle (suc n) = outside ∷ idle n

pub data Reachable : System → Type 0 where
  initial :
      (n : ℕ) → Reachable record { fail_point = new_fail_point; threads = idle n; setter = free }
  further : {s t : System} → Reachable s → Step s t → Reachable t

abbrev pub counts : Phase → ℕ
counts outside = 0
counts entering = 0
counts disabling = 1
counts (counted seen) = 1
counts (in_block code) = 1

-- The threads that have incremented the counter and not yet decremented it.
abbrev pub readers : List Phase → ℕ
readers [] = 0
readers (p ∷ ps) = counts p + readers ps

-- The threads that saw the bit in their increment, up to the end of their block.
abbrev pub uses : Phase → ℕ
uses outside = 0
uses entering = 0
uses disabling = 1
uses (counted true) = 1
uses (counted false) = 0
uses (in_block slow_off) = 0
uses (in_block slow_on) = 1

abbrev pub users : List Phase → ℕ
users [] = 0
users (p ∷ ps) = uses p + users ps
