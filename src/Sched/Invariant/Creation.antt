-- ===== src/Sched/Invariant/Creation.antt =====
-- The invariant at the start and under thread creation, for sthread_lib/sthread_user.c.
use sthreads.Prelude.{ℕ, ◌+◌, ◌≡◌, refl, arith, one_if, ℤ}
use sthreads.Sched.Thread.{Thread, Memory}
use sthreads.Sched.Runqueue.{criar_runqueue}
use sthreads.Sched.Runqueue.Filing.{IsFiled-update}
use sthreads.Sched.State.{Sched, set_thread, init}
use sthreads.Sched.Ops.{create_p}
use sthreads.Sched.Invariant.{InRange, Inv, Valid}
use sthreads.Sched.Invariant.Steps.{ready-Inv}
use sthreads.Sched.Invariant.Ranges.{new_thread-InRange}

-- At the start the main thread is the population.
pub init-Valid : (m : Memory) (p : ℕ) → Valid (λ q. one_if q p) (λ q. 0) (init m p)
unfolding init criar_runqueue
init-Valid m p = record {
  placed = λ q. omega arith;
  once = λ q. ground arith;
  in_range = λ q h. ground arith;
  active_size = refl;
  expired_size = refl;
  active_filed = omega arith;
  expired_filed = omega arith;
}

module _ {total : ℕ → ℕ} where
  -- A block that no thread uses becomes that of a new thread, which stands nowhere yet.
  adopt-Inv :
      (k : ℕ → ℕ) (p tid : ℕ) (t : Thread) {s : Sched}
      → Inv total k s
      → total p ≡ 0
      → InRange t
      → Inv
          (λ q. one_if q p + total q)
          (λ q. one_if q p + k q)
          (record (set_thread s p t) { tid_gen = tid })
  unfolding set_thread
  adopt-Inv k p tid t {s} v e r = record {
    placed = λ q. omega (arith, v.placed q);
    once = λ q. ground (arith, v.once q);
    in_range = λ q h. ground (arith, v.in_range q);
    active_size = v.active_size;
    expired_size = v.expired_size;
    active_filed =
        IsFiled-update s.thr 0 p t s.active_rq (omega (arith, v.placed p)) v.active_filed;
    expired_filed =
        IsFiled-update s.thr 0 p t s.expired_rq (omega (arith, v.placed p)) v.expired_filed;
  }

  -- A created thread joins the population, at one place.
  pub create_p-Valid :
      (parked : ℕ → ℕ) (p routine arg : ℕ) (priority : ℤ) {s : Sched}
      → Valid total parked s
      → total p ≡ 0
      → Valid (λ q. one_if q p + total q) parked (create_p p routine arg priority s)
  unfolding create_p
  create_p-Valid parked p routine arg priority {s} v e =
      ready-Inv (λ q. one_if q s.active_thr + parked q) p
        (adopt-Inv _ p (s.tid_gen + 1) _ v e (new_thread-InRange routine arg s.tid_gen priority))
