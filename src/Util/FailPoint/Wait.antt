-- ===== src/Util/FailPoint/Wait.antt =====
-- The wait of `setMode` of src/mongo/util/fail_point.cpp can end: its readers go on without it.
use mongo_cxx_driver.Base.{
  ℕ, ◌≡◌, ◌≢◌, refl, sym, subst, ◌∙◌, true, false, List, [], ◌∷◌, ◌++◌, append_assoc, arith,
  Bool-cases, inl, inr,
}
use mongo_cxx_driver.Base.Int.{ℤ, pos, ltb_ℤ, ◌-ℤ◌}
use mongo_cxx_driver.Util.FailPoint.{
  Mode, off, always_on, random, n_times, other, RetCode, FailPoint, Decided, decided, used_up,
  fatal_random, fatal_mode, decide, decide_in, drained, slow_on, slow_off, disable_fail_point,
  should_fail_close_block,
}
use mongo_cxx_driver.Util.FailPoint.Threads.{
  Phase, outside, entering, disabling, counted, in_block, Setter, waiting, System, Step, stay_off,
  switch, use_up, disable, close_block, Reachable, further, readers, counts,
}
use mongo_cxx_driver.Util.FailPoint.Threads.Counts.{readers_at}
use mongo_cxx_driver.Util.FailPoint.Threads.Invariant.{Kept, decide_in-Kept}
use mongo_cxx_driver.Util.FailPoint.Runs.{reachable-decide, reachable-drained}

-- A run of steps.
pub data Steps : System → System → Type 0 where
  here : {s : System} → Steps s s
  first : {s t u : System} → Step s t → Steps t u → Steps s u

Steps-trans : {s t u : System} → Steps s t → Steps t u → Steps s u
Steps-trans here k = k
Steps-trans (first a h) k = first a (Steps-trans h k)

reachable-Steps : {s t : System} → Reachable s → Steps s t → Reachable t
reachable-Steps r here = r
reachable-Steps r (first a h) = reachable-Steps (further r a) h

abbrev state : FailPoint → List Phase → Setter → System
state fp threads s = record { fail_point = fp; threads = threads; setter = s }

-- A run to the given threads, which leaves the mode.
record Leads (s : Setter) (fp : FailPoint) (threads left : List Phase) : Type 0 where
  after_fp : FailPoint
  mode : after_fp.mode ≡ fp.mode
  run : Steps (state fp threads s) (state after_fp left s)

module _ (s : Setter) (before after : List Phase) where
  from_block :
      (fp : FailPoint) (code : RetCode)
      → Leads s fp (before ++ in_block code ∷ after) (before ++ outside ∷ after)
  unfolding should_fail_close_block
  from_block fp code = record {
    after_fp = should_fail_close_block fp;
    mode = refl;
    run = first (close_block code before after) here;
  }

  from_disabling :
      (fp : FailPoint) → Leads s fp (before ++ disabling ∷ after) (before ++ outside ∷ after)
  unfolding disable_fail_point should_fail_close_block
  from_disabling fp =
      let rest = from_block (disable_fail_point fp) slow_on in
      record {
        after_fp = rest.after_fp;
        mode = rest.mode;
        run = first (disable before after) rest.run;
      }

  from_decided :
      (fp : FailPoint) (d : Decided)
      → decide fp ≡ d
      → Kept fp d
      → d ≢ fatal_random
      → d ≢ fatal_mode
      → Leads s fp (before ++ counted true ∷ after) (before ++ outside ∷ after)
  from_decided fp (decided next) e k n m =
      let rest = from_block next slow_on in
      record {
        after_fp = rest.after_fp;
        mode = rest.mode ∙ k.mode;
        run = first (switch next before after e) rest.run;
      }
  from_decided fp (used_up next) e k n m =
      let rest = from_disabling next in
      record {
        after_fp = rest.after_fp;
        mode = rest.mode ∙ k.mode;
        run = first (use_up next before after e) rest.run;
      }
  from_decided fp fatal_random e k n m = absurd (n refl)
  from_decided fp fatal_mode e k n m = absurd (m refl)

not_random : (m : Mode) (fp : FailPoint) → m ≢ random → decide_in m fp ≢ fatal_random
unfolding decide_in
not_random off fp n e = cc
not_random always_on fp n e = cc
not_random random fp n e = n refl
not_random n_times fp n e = elim (Bool-cases (ltb_ℤ (pos 0) (fp.times_or_period -ℤ pos 1))) [
  | inl b ↦ cc (rw b at e)
  | inr b ↦ cc (rw b at e)
]
not_random other fp n e = cc

Leads-trans :
    {s : Setter} {fp : FailPoint} {a b c : List Phase} (l : Leads s fp a b)
    → Leads s l.after_fp b c
    → Leads s fp a c
Leads-trans l k = record {
  after_fp = k.after_fp;
  mode = k.mode ∙ l.mode;
  run = Steps-trans l.run k.run;
}

-- The thread, if it is a reader, goes on to the end of its block.
abbrev Left : Setter → FailPoint → List Phase → Phase → List Phase → Type 0
Left s fp before p after =
    (q : Phase) × (counts q ≡ 0) × Leads s fp (before ++ p ∷ after) (before ++ q ∷ after)

stays : (s : Setter) (fp : FailPoint) (threads : List Phase) → Leads s fp threads threads
stays s fp threads = record { after_fp = fp; mode = refl; run = here }

leave_block :
    (s : Setter) (fp : FailPoint) (before : List Phase) (p : Phase) (after : List Phase)
    → Reachable (state fp (before ++ p ∷ after) s)
    → fp.mode ≢ random
    → Left s fp before p after
leave_block s fp before outside after r n = (outside, refl, stays s fp _)
leave_block s fp before entering after r n = (entering, refl, stays s fp _)
leave_block s fp before disabling after r n = (outside, refl, from_disabling s before after fp)
leave_block s fp before (in_block code) after r n =
    (outside, refl, from_block s before after fp code)
leave_block s fp before (counted false) after r n =
    let rest = from_block s before after fp slow_off in
    (
      outside,
      refl,
      record {
        after_fp = rest.after_fp;
        mode = rest.mode;
        run = first (stay_off before after) rest.run;
      },
    )
leave_block s fp before (counted true) after r n = (
  outside,
  refl,
  from_decided s before after fp (decide fp) refl (decide_in-Kept fp.mode fp)
      (not_random fp.mode fp n) (reachable-decide before after r refl),
)

readers_nil : (before : List Phase) → readers (before ++ []) ≡ readers before
readers_nil [] = refl
readers_nil (p ∷ before) = omega (arith, readers_nil before)

-- One after another, the threads behind the first ones go on.
all_leave :
    (s : Setter) (before after : List Phase) (fp : FailPoint)
    → Reachable (state fp (before ++ after) s)
    → fp.mode ≢ random
    → (left : List Phase) × (readers left ≡ readers before) × Leads s fp (before ++ after) left
all_leave s before [] fp r n = (before ++ [], readers_nil before, stays s fp _)
all_leave s before (p ∷ after) fp r n =
    let (q, idle, lead) = leave_block s fp before p after r n in
    let moved : Leads s fp (before ++ p ∷ after) ((before ++ q ∷ []) ++ after) =
      subst (λ l. Leads s fp (before ++ p ∷ after) l) (sym (append_assoc before (q ∷ []) after))
        lead in
    let (left, count, more) =
      all_leave s (before ++ q ∷ []) after moved.after_fp (reachable-Steps r moved.run)
        (λ e. n (sym moved.mode ∙ e)) in
    (left, omega (arith, count, readers_at before [] q, idle), Leads-trans moved more)

-- From every reachable state in which `setMode` waits, some steps lead to a state in which it still holds the
-- mutex and its wait is over. The mode is not `random`, for which a reader ends the process.
pub drained-Steps :
    {s : System} (m : Mode) (v : ℤ) (extra : List ℕ)
    → Reachable s
    → s.setter ≡ waiting m v extra
    → s.fail_point.mode ≢ random
    → (t : System) × Steps s t × (t.setter ≡ waiting m v extra) × (drained t.fail_point ≡ true)
drained-Steps {s} m v extra r e n =
    let (left, count, lead) = all_leave s.setter [] s.threads s.fail_point r n in
    (
      state lead.after_fp left s.setter,
      lead.run,
      e,
      (reachable-drained m v extra (reachable-Steps r lead.run) e).1 count,
    )
