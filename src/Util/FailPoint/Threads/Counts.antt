-- ===== src/Util/FailPoint/Threads/Counts.antt =====
-- How many threads are readers of a fail point of src/mongo/util/fail_point.cpp, and what every run keeps.
use mongo_cxx_driver.Base.{◌+◌, ◌≡◌, ◌≤◌, refl, Bool, true, false, List, [], ◌∷◌, ◌++◌, arith}
use mongo_cxx_driver.Util.FailPoint.{
  Mode, off, always_on, random, n_times, other, slow_off, is_mode, slow_on,
}
use mongo_cxx_driver.Util.FailPoint.Threads.{
  Phase, outside, entering, counted, in_block, Setter, free, waiting, checked, storing_times,
  storing_data, enabling, System, disabling, counts, readers, uses, users,
}

pub readers_at :
    (before after : List Phase) (p : Phase)
    → readers (before ++ p ∷ after) ≡ counts p + (readers before + readers after)
readers_at [] after p = omega arith
readers_at (b ∷ before) after p = let rest = readers_at before after p in omega arith

pub users_at :
    (before after : List Phase) (p : Phase)
    → users (before ++ p ∷ after) ≡ uses p + (users before + users after)
users_at [] after p = omega arith
users_at (b ∷ before) after p = let rest = users_at before after p in omega arith

pub uses_lem : (p : Phase) → uses p ≤ counts p
uses_lem outside = omega arith
uses_lem entering = omega arith
uses_lem disabling = omega arith
uses_lem (counted true) = omega arith
uses_lem (counted false) = omega arith
uses_lem (in_block slow_off) = omega arith
uses_lem (in_block slow_on) = omega arith

-- A reader that saw the bit is a reader.
pub users_lem : (ps : List Phase) → users ps ≤ readers ps
users_lem [] = omega arith
users_lem (p ∷ ps) = omega (arith, users_lem ps, uses_lem p)

-- The modes that `decide` has a case for.
abbrev pub is_running : Mode → Bool
is_running off = false
is_running always_on = true
is_running random = true
is_running n_times = true
is_running other = false

abbrev pub is_held : Setter → Bool
is_held free = false
is_held s = true

-- It has seen that no reader is left, and gives up the mutex only later.
abbrev pub is_storing : Setter → Bool
is_storing free = false
is_storing (waiting m v extra) = false
is_storing s = true

-- It has stored the mode.
abbrev pub has_stored : Setter → Bool
has_stored (storing_times v extra) = true
has_stored (storing_data extra) = true
has_stored enabling = true
has_stored s = false

-- The counter counts the readers; where the bit is set, or was seen by a reader that is not done, the mode is
-- one that the `switch` has a case for; while `setMode` holds the mutex the bit is not set, and from the end
-- of its wait on no reader saw the bit; the mode that it has stored is one that it supports.
pub record Inv (s : System) : Type 0 where
  pub counter : s.fail_point.ref_counter ≡ readers s.threads
  pub active_mode : s.fail_point.active ≡ true → is_running s.fail_point.mode ≡ true
  pub used_mode : 1 ≤ users s.threads → is_running s.fail_point.mode ≡ true
  pub held : is_held s.setter ≡ true → s.fail_point.active ≡ false
  pub quiet : is_storing s.setter ≡ true → users s.threads ≡ 0
  pub stored : has_stored s.setter ≡ true → is_mode s.fail_point.mode ≡ true

pub storing-held : (s : Setter) → is_storing s ≡ true → is_held s ≡ true
storing-held free e = cc
storing-held enabling e = refl
storing-held (waiting m v extra) e = cc
storing-held (checked m v extra) e = refl
storing-held (storing_times v extra) e = refl
storing-held (storing_data extra) e = refl
