-- ===== src/Sched/History.antt =====
-- Histories of calls on the scheduler of sthread_lib/sthread_user.c: ticks of the clock and calls
-- by whichever thread runs.
use sthreads.Prelude.{ℕ, Bool, List, [], ◌∷◌, ℤ}
use sthreads.Sched.State.{Sched, Run, done, ◌>>=◌, IfDone, IfDone->>=}
use sthreads.Sched.Ops.{nice, exit, dispatcher, yield_now, sleep}
use sthreads.Sched.Join.{join}
use sthreads.Sched.Invariant.{Valid}
use sthreads.Sched.Invariant.Ops.{
  nice-Valid, sleep-Valid, exit-Valid, dispatcher-Valid, yield_now-Valid,
}
use sthreads.Sched.Invariant.Joining.{join-Valid}

pub data Call : Type 0 where
  ticks yields : Call
  sleeps nices : ℤ → Call
  exits : ℕ → Call
  joins : ℕ → Bool → Call

unfoldable pub step : Call → Sched → Run Sched
unfolding dispatcher yield_now sleep nice exit join
step ticks s = dispatcher s
step yields s = yield_now s
step (sleeps time) s = sleep time s
step (nices n) s = done (nice n s).0
step (exits ret) s = exit ret s
step (joins p has_ptr) s = join p has_ptr s >>= λ r. done r.1

unfoldable pub run : List Call → Sched → Run Sched
unfolding step
run [] s = done s
run (c ∷ cs) s = step c s >>= run cs

module _ {total : ℕ → ℕ} (parked : ℕ → ℕ) where
  step-Valid :
      (c : Call) {s : Sched} → Valid total parked s → IfDone (Valid total parked) (step c s)
  unfolding step
  step-Valid ticks v = dispatcher-Valid parked v
  step-Valid yields v = yield_now-Valid parked v
  step-Valid (sleeps time) v = sleep-Valid parked time v
  step-Valid (nices n) v = nice-Valid parked n v
  step-Valid (exits ret) v = exit-Valid parked ret v
  step-Valid (joins p has_ptr) v =
      IfDone->>= (λ r. Valid total parked r.1) (Valid total parked) _ _
        (join-Valid parked p has_ptr v) (λ r h. h)

  -- Every history of ticks, yields, sleeps, nices, exits and joins that ends keeps the
  -- scheduler's invariant with the same population: each thread stands in exactly one place,
  -- each runqueue files its threads by priority, and the control blocks stay in range.
  pub run-Valid :
      (cs : List Call) {s : Sched} → Valid total parked s → IfDone (Valid total parked) (run cs s)
  unfolding run
  run-Valid [] v = v
  run-Valid (c ∷ cs) v =
      IfDone->>= (Valid total parked) (Valid total parked) _ _ (step-Valid c v)
        (λ u h. run-Valid cs h)
