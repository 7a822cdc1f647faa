-- ===== src/Util/FailPoint/Threads/Invariant.antt =====
-- Every step of a thread keeps the invariant of a fail point of src/mongo/util/fail_point.cpp.
use mongo_cxx_driver.Base.{
  ℕ, zero, suc, ◌+◌, if◌then◌else◌, ◌⊎◌, inl, inr, ◌≡◌, ◌≤◌, refl, ap, subst, ◌∙◌, Bool, true,
  false, List, ◌∷◌, ◌++◌, arith, Bool-cases,
}
use mongo_cxx_driver.Base.Int.{ℤ, pos, ltb_ℤ, ◌-ℤ◌}
use mongo_cxx_driver.Util.FailPoint.{
  Mode, off, always_on, random, n_times, other, slow_off, FailPoint, new_fail_point,
  disable_fail_point, should_fail_close_block, count_reader, Decided, decided, fatal_random,
  fatal_mode, decide_in, enable_fail_point, is_mode, drained, used_up, slow_on, is_off, store_mode,
  store_times, store_data, activate,
}
use mongo_cxx_driver.Util.FailPoint.Threads.{
  Phase, outside, entering, counted, in_block, Setter, free, enabling, System, Step, look,
  open_block, stay_off, switch, use_up, disable, disabling, close_block, set_mode, end_wait, refuse,
  put_mode, put_times, put_data, finish, idle, Reachable, initial, further, counts, readers, uses,
  users,
}
use mongo_cxx_driver.Util.FailPoint.Threads.Counts.{
  readers_at, users_at, users_lem, is_running, is_storing, Inv, storing-held,
}

idle-readers : (n : ℕ) → readers (idle n) ≡ 0
idle-readers zero = refl
idle-readers (suc n) = let rest = idle-readers n in omega arith

idle-Inv : (n : ℕ) → Inv record { fail_point = new_fail_point; threads = idle n; setter = free }
idle-Inv n =
    let none = idle-readers n in
    let few = users_lem (idle n) in
    record {
      counter = omega arith;
      active_mode = λ e. cc;
      used_mode = λ e. absurd (omega arith);
      held = λ e. refl;
      quiet = λ e. cc;
      stored = λ e. cc;
    }

-- What the `switch` leaves of the fail point.
pub record IsKept (fp after : FailPoint) : Type 0 where
  pub mode : after.mode ≡ fp.mode
  pub data_field : after.data_field ≡ fp.data_field
  pub count : after.ref_counter ≡ fp.ref_counter
  pub active : after.active ≡ fp.active

abbrev pub Kept : FailPoint → Decided → Type 0
Kept fp (decided after) = IsKept fp after
Kept fp (used_up after) = IsKept fp after
Kept fp fatal_random = Unit {0}
Kept fp fatal_mode = Unit {0}

fewer-Kept :
    (fp : FailPoint) (times : ℤ) (b : Bool)
    → Kept fp (
        if b
        then decided (record fp { times_or_period = times })
        else used_up (record fp { times_or_period = times }))
fewer-Kept fp times true = record { mode = refl; data_field = refl; count = refl; active = refl }
fewer-Kept fp times false = record { mode = refl; data_field = refl; count = refl; active = refl }

pub decide_in-Kept : (m : Mode) (fp : FailPoint) → Kept fp (decide_in m fp)
unfolding decide_in
decide_in-Kept off fp = tt
decide_in-Kept always_on fp = record { mode = refl; data_field = refl; count = refl; active = refl }
decide_in-Kept random fp = tt
decide_in-Kept n_times fp = fewer-Kept fp _ (ltb_ℤ (pos 0) (fp.times_or_period -ℤ pos 1))
decide_in-Kept other fp = tt

-- A thread moves on.
replace-Inv :
    {fp after_fp : FailPoint} {s : Setter} (before after : List Phase) (p q : Phase)
    → Inv record { fail_point = fp; threads = before ++ p ∷ after; setter = s }
    → after_fp.mode ≡ fp.mode
    → after_fp.ref_counter + counts p ≡ fp.ref_counter + counts q
    → (after_fp.active ≡ true → fp.active ≡ true)
    → (fp.active ≡ false → after_fp.active ≡ false)
    → (uses q ≤ uses p) ⊎ (fp.active ≡ true)
    → Inv record { fail_point = after_fp; threads = before ++ q ∷ after; setter = s }
replace-Inv {fp} {after_fp} {s} before after p q i mode count active inactive seen =
    let were = readers_at before after p in
    let are = readers_at before after q in
    let counter = i.counter in
    record {
      counter = omega arith;
      active_mode = λ e. ap is_running mode ∙ i.active_mode (active e);
      used_mode = λ e. ap is_running mode ∙ by_seen seen e;
      held = λ e. inactive (i.held e);
      quiet = λ e. by_quiet seen e;
      stored = λ e. ap is_mode mode ∙ i.stored e;
    }
  where
    by_quiet :
        (uses q ≤ uses p) ⊎ (fp.active ≡ true)
        → is_storing s ≡ true
        → users (before ++ q ∷ after) ≡ 0
    by_quiet (inl less) e =
        let saw = users_at before after p in
        let see = users_at before after q in omega (arith, i.quiet e)
    by_quiet (inr on) e = cc (i.held (storing-held s e))

    by_seen :
        (uses q ≤ uses p) ⊎ (fp.active ≡ true)
        → 1 ≤ users (before ++ q ∷ after)
        → is_running fp.mode ≡ true
    by_seen (inl less) e =
        let saw = users_at before after p in
        let see = users_at before after q in i.used_mode (omega arith)
    by_seen (inr on) e = i.active_mode on

uses_counted : (b : Bool) → (uses (counted b) ≤ 0) ⊎ (b ≡ true)
uses_counted true = inr refl
uses_counted false = inl (omega arith)

drained-users :
    (fp : FailPoint) (threads : List Phase)
    → fp.ref_counter ≡ readers threads
    → drained fp ≡ true
    → users threads ≡ 0
unfolding drained
drained-users fp threads h d = ground (arith, users_lem threads)

running_mode : (m : Mode) → is_mode m ≡ true → is_off m ≡ false → is_running m ≡ true
running_mode off h k = cc
running_mode always_on h k = refl
running_mode random h k = refl
running_mode n_times h k = refl
running_mode other h k = cc

-- `setMode` enables the fail point and is done.
finish-Inv :
    (fp : FailPoint) (threads : List Phase)
    → Inv record { fail_point = fp; threads = threads; setter = enabling }
    → Inv record { fail_point = activate fp; threads = threads; setter = free }
unfolding activate enable_fail_point
finish-Inv fp threads i = elim (Bool-cases (is_off fp.mode)) [
  | inl e ↦ rw e (record {
    counter = i.counter;
    active_mode = i.active_mode;
    used_mode = i.used_mode;
    held = λ h. cc;
    quiet = λ h. cc;
    stored = λ h. cc;
  })
  | inr e ↦ rw e (record {
    counter = i.counter;
    active_mode = λ h. running_mode fp.mode (i.stored refl) e;
    used_mode = i.used_mode;
    held = λ h. cc;
    quiet = λ h. cc;
    stored = λ h. cc;
  })
]

Step-Inv : {s t : System} → Inv s → Step s t → Inv t
unfolding count_reader should_fail_close_block disable_fail_point store_mode store_times store_data
Step-Inv i (look before after active) =
    replace-Inv before after outside entering i refl refl (λ e. e) (λ e. e) (inl (omega arith))
Step-Inv {s} i (open_block before after) =
    replace-Inv before after entering (counted s.fail_point.active) i refl (omega arith) (λ e. e)
      (λ e. e) (uses_counted s.fail_point.active)
Step-Inv i (stay_off before after) =
    replace-Inv before after (counted false) (in_block slow_off) i refl refl (λ e. e) (λ e. e)
      (inl (omega arith))
Step-Inv {s} i (switch next before after e) =
    let kept : IsKept s.fail_point next =
      subst (Kept s.fail_point) e (decide_in-Kept s.fail_point.mode s.fail_point) in
    let count = kept.count in
    replace-Inv before after (counted true) (in_block slow_on) i kept.mode (omega arith)
      (λ h. cc kept.active) (λ h. cc kept.active) (inl (omega arith))
Step-Inv {s} i (use_up next before after e) =
    let kept : IsKept s.fail_point next =
      subst (Kept s.fail_point) e (decide_in-Kept s.fail_point.mode s.fail_point) in
    let count = kept.count in
    replace-Inv before after (counted true) disabling i kept.mode (omega arith)
      (λ h. cc kept.active) (λ h. cc kept.active) (inl (omega arith))
Step-Inv i (disable before after) =
    replace-Inv before after disabling (in_block slow_on) i refl refl (λ e. cc) (λ e. refl)
      (inl (omega arith))
Step-Inv {s} i (close_block code before after) =
    let were = readers_at before after (in_block code) in
    let counter = i.counter in
    replace-Inv before after (in_block code) outside i refl (omega arith) (λ e. e) (λ e. e)
      (inl (omega arith))
Step-Inv i (set_mode m v extra) = record {
  counter = i.counter;
  active_mode = λ e. cc;
  used_mode = i.used_mode;
  held = λ e. refl;
  quiet = λ e. cc;
  stored = λ e. cc;
}
Step-Inv {s} i (end_wait d) = record {
  counter = i.counter;
  active_mode = i.active_mode;
  used_mode = i.used_mode;
  held = λ e. i.held refl;
  quiet = λ e. drained-users s.fail_point s.threads i.counter d;
  stored = λ e. cc;
}
Step-Inv i (refuse m) = record {
  counter = i.counter;
  active_mode = i.active_mode;
  used_mode = i.used_mode;
  held = λ e. cc;
  quiet = λ e. cc;
  stored = λ e. cc;
}
Step-Inv i (put_mode m) = record {
  counter = i.counter;
  active_mode = λ e. cc (i.held refl);
  used_mode = λ e. absurd (omega (arith, i.quiet refl));
  held = λ e. i.held refl;
  quiet = λ e. i.quiet refl;
  stored = λ e. m;
}
Step-Inv i put_times = record {
  counter = i.counter;
  active_mode = i.active_mode;
  used_mode = i.used_mode;
  held = λ e. i.held refl;
  quiet = λ e. i.quiet refl;
  stored = λ e. i.stored refl;
}
Step-Inv i put_data = record {
  counter = i.counter;
  active_mode = i.active_mode;
  used_mode = i.used_mode;
  held = λ e. i.held refl;
  quiet = λ e. i.quiet refl;
  stored = λ e. i.stored refl;
}
Step-Inv {s} i finish = finish-Inv s.fail_point s.threads i

pub reachable-Inv : {s : System} → Reachable s → Inv s
reachable-Inv (initial n) = idle-Inv n
reachable-Inv (further r step) = Step-Inv (reachable-Inv r) step
