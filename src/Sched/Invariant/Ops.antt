-- ===== src/Sched/Invariant/Ops.antt =====
-- The invariant over the thread operations of sthread_lib/sthread_user.c.
use sthreads.Prelude.{
  ℕ, ◌+◌, ◌≡◌, true, false, ◌&&◌, [], ◌∷◌, inl, inr, arith, one_if, count-append, if◌then◌else◌,
  Bool-cases, ℤ, pos, ltb_ℤ,
}
use sthreads.Sched.Thread.{recalcular}
use sthreads.Sched.Runqueue.{queue_insert, rq_inserir, rq_vazia}
use sthreads.Sched.Runqueue.Choice.{rq_vazia-insert_at}
use sthreads.Sched.State.{
  Sched, done, exited, IfDone, IfDone-if, set_thread, ready, switch_to_best, dispatch,
}
use sthreads.Sched.Ops.{
  nice, wake_sleepers, exit_woken, exit_listed, exit, tick, outranked, expire, dispatcher,
  yield_now, sleep_ticks, is_zero_ℤ, sleep,
}
use sthreads.Sched.Invariant.{Inv, Valid}
use sthreads.Sched.Invariant.Steps.{
  set_thread-Inv, ready-Inv, expired-Inv, requeue-Inv, switch_to_best-Inv, dispatch-Inv, clock-Inv,
  InRange-elsewhere,
}
use sthreads.Sched.Invariant.Ranges.{clamp_bounds, recalcular-InRange}
use sthreads.Sched.Invariant.Loops.{
  after_sleepers, after_joiners, wake_sleepers-Inv, wake_joiners-Inv,
}

module _ {total : ℕ → ℕ} (parked : ℕ → ℕ) where
  pub nice-Valid : (n : ℤ) {s : Sched} → Valid total parked s → Valid total parked (nice n s).0
  unfolding nice
  nice-Valid n {s} v =
      set_thread-Inv parked s.active_thr _ v
        (ground (arith, InRange-elsewhere parked s.active_thr v, clamp_bounds 0 10 n (omega arith)))

  pub sleep-Valid :
      (time : ℤ) {s : Sched} → Valid total parked s → IfDone (Valid total parked) (sleep time s)
  unfolding sleep
  sleep-Valid time {s} v =
      IfDone-if (Valid total parked) (is_zero_ℤ (sleep_ticks time)) _ _ (λ _. v)
        (λ _. dispatch-Inv parked (
          requeue-Inv _ parked _ _ _ _
            (set_thread-Inv parked s.active_thr _ v
              (ground (arith, InRange-elsewhere parked s.active_thr v)))
            (λ p. omega (arith, count-append p s.sleep_thr_list (s.active_thr ∷ [])))))

  listed-Inv : (ret : ℕ) {s : Sched} → Valid total parked s → Inv total parked (exit_listed ret s)
  unfolding exit_listed exit_woken
  listed-Inv ret {s} v = elim (Bool-cases (exit_woken ret s).is_zombie) [
    | inl e ↦ rw e (
        requeue-Inv _ parked _ _ (queue_insert s.zombie_thr_list s.active_thr) s.dead_thr_list
          joined (λ p. omega (arith, count-append p s.zombie_thr_list (s.active_thr ∷ []))))
    | inr e ↦ rw e (
        requeue-Inv _ parked _ _ s.zombie_thr_list (queue_insert s.dead_thr_list s.active_thr)
          joined (λ p. omega (arith, count-append p s.dead_thr_list (s.active_thr ∷ []))))
  ]
    where
      joined :
          Inv total (λ p. one_if p s.active_thr + parked p) (after_joiners s (exit_woken ret s))
      joined = wake_joiners-Inv _ ret _ s s.join_thr_list _ (
          requeue-Inv _ _ s.sleep_thr_list [] s.zombie_thr_list s.dead_thr_list v
            (λ p. omega arith))

  pub exit-Valid :
      (ret : ℕ) {s : Sched} → Valid total parked s → IfDone (Valid total parked) (exit ret s)
  unfolding exit
  exit-Valid ret {s} v =
      let s' = exit_listed ret s in
      IfDone-if (Valid total parked) (rq_vazia s'.active_rq && rq_vazia s'.expired_rq) exited
        (dispatch s') (λ _. tt) (λ _. dispatch-Inv parked (listed-Inv ret v))

  -- The clock's tick: the sleepers, and the quantum of the running thread.
  pub tick-Valid : {s : Sched} → Valid total parked s → Valid total parked (tick s)
  unfolding tick
  tick-Valid {s} v =
      set_thread-Inv parked s.active_thr _ woken
        (ground (arith, InRange-elsewhere parked s.active_thr woken))
    where
      woken :
          Inv total
            (λ p. one_if p s.active_thr + parked p)
            (after_sleepers
              (record s { clock = s.clock + 1 })
              (wake_sleepers
                (s.clock + 1)
                s.sleep_thr_list
                (record { mem = s.thr; rq = s.active_rq; kept = []; is_zombie = true })))
      woken =
          wake_sleepers-Inv (λ p. one_if p s.active_thr + parked p) (s.clock + 1)
            (record s { clock = s.clock + 1 }) s.sleep_thr_list
            (record { mem = s.thr; rq = s.active_rq; kept = []; is_zombie = true })
            (clock-Inv _ (s.clock + 1) (
              requeue-Inv _ _ [] s.join_thr_list s.zombie_thr_list s.dead_thr_list v
                (λ p. omega arith)))

  pub expire-Inv : {s : Sched} → Valid total parked s → Inv total parked (expire s)
  unfolding expire
  expire-Inv {s} v = expired-Inv parked s.active_thr (
      set_thread-Inv parked s.active_thr _ v
        (recalcular-InRange _ (ground (arith, InRange-elsewhere parked s.active_thr v))))

  pub dispatcher-Valid :
      {s : Sched} → Valid total parked s → IfDone (Valid total parked) (dispatcher s)
  unfolding dispatcher
  dispatcher-Valid {s} v =
      let s' = tick s in
      IfDone-if (Valid total parked) (ltb_ℤ (pos 0) (s'.thr s'.active_thr).quantum)
        (if outranked s' then switch_to_best (ready s' s'.active_thr) else done s')
        (dispatch (expire s'))
        (λ _.
          IfDone-if (Valid total parked) (outranked s') (switch_to_best (ready s' s'.active_thr))
            (done s')
            (λ _. switch_to_best-Inv parked (ready-Inv parked s'.active_thr (tick-Valid v)))
            (λ _. tick-Valid v))
        (λ _. dispatch-Inv parked (expire-Inv (tick-Valid v)))

  pub yield_ready-Inv :
      {s : Sched}
      → Valid total parked s
      → Inv total parked
          (ready (set_thread s s.active_thr (recalcular (s.thr s.active_thr))) s.active_thr)
  yield_ready-Inv {s} v = ready-Inv parked s.active_thr (
      set_thread-Inv parked s.active_thr _ v
        (recalcular-InRange _ (InRange-elsewhere parked s.active_thr v)))

  -- Behind `rq_inserir` the runqueue is not empty.
  pub ready_nonempty :
      (k : ℕ → ℕ) (p : ℕ) {s : Sched}
      → Inv total (λ q. one_if q p + k q) s
      → rq_vazia (ready s p).active_rq ≡ false
  unfolding ready rq_inserir
  ready_nonempty k p {s} v =
      rq_vazia-insert_at _ p s.active_rq
        (omega (arith, v.active_size, (InRange-elsewhere k p v).priority_in))

  pub yield_nonempty :
      {s : Sched}
      → Valid total parked s
      → rq_vazia
          (ready
            (set_thread s s.active_thr (recalcular (s.thr s.active_thr)))
            s.active_thr).active_rq
        ≡ false
  yield_nonempty {s} v = ready_nonempty parked s.active_thr (
      set_thread-Inv parked s.active_thr _ v
        (recalcular-InRange _ (InRange-elsewhere parked s.active_thr v)))

  pub expire_nonempty : {s : Sched} → Valid total parked s → rq_vazia (expire s).expired_rq ≡ false
  unfolding expire rq_inserir
  expire_nonempty {s} v =
      let expired = set_thread-Inv parked s.active_thr _ v (
        recalcular-InRange (record (s.thr s.active_thr) { quantum = pos 0 })
          (ground (arith, InRange-elsewhere parked s.active_thr v))) in
      rq_vazia-insert_at _ s.active_thr s.expired_rq
        (omega (arith, v.expired_size, (InRange-elsewhere parked s.active_thr expired).priority_in))

  pub yield_now-Valid :
      {s : Sched} → Valid total parked s → IfDone (Valid total parked) (yield_now s)
  unfolding yield_now
  yield_now-Valid {s} v = rw (yield_nonempty v) (switch_to_best-Inv parked (yield_ready-Inv v))
