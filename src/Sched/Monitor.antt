-- ===== src/Sched/Monitor.antt =====
-- The monitors of sthread_lib/sthread_user.c: a mutex with a queue of threads that wait.
use sthreads.Prelude.{Bool, [], ◌∷◌, if◌then◌else◌}
use sthreads.Sched.Runqueue.{Queue, queue_insert}
use sthreads.Sched.State.{Sched, Run, done, ◌>>=◌, dispatch}
use sthreads.Sched.Mutex.{
  Mutex, mutex_init, test_and_set, atomic_clear, owned_by, recalc_active, note_blocked,
  note_unblocked, unblock, lock, unlock,
}

pub record Monitor : Type 0 where
  pub mutex : Mutex
  pub queue : Queue

unfoldable pub monitor_init : Monitor
unfolding mutex_init
monitor_init = record { mutex = mutex_init; queue = [] }

unfoldable pub enter : Monitor → Sched → Run (Monitor × Sched)
unfolding lock
enter mon s = lock mon.mutex s >>= λ r. done (record mon { mutex = r.0 }, r.1)

unfoldable pub leave : Monitor → Sched → Run (Monitor × Sched × Bool)
unfolding unlock
leave mon s = unlock mon.mutex s >>= λ r. done (record mon { mutex = r.0 }, r.1, r.2)

-- Where a wait stands when another thread has the processor: it was called outside the monitor
-- and has returned, it has blocked, or the unlock inside it was preempted.
pub data Waiting : Type 0 where
  outside blocked preempted : Waiting

unfoldable pub wait : Monitor → Sched → Run (Monitor × Sched × Waiting)
unfolding recalc_active unlock dispatch
wait mon s =
    if owned_by mon.mutex s.active_thr
    then (unlock mon.mutex (note_blocked (recalc_active s)) >>= λ r.
        let mon' : Monitor = record { mutex = r.0; queue = queue_insert mon.queue s.active_thr } in
        if r.2
        then done (mon', r.1, preempted)
        else (dispatch r.1 >>= λ u. done (mon', u, blocked)))
    else done (mon, s, outside)

-- the rest of a wait whose unlock was preempted, once its thread runs again
unfoldable pub wait_resume : Sched → Run Sched
unfolding dispatch
wait_resume s = dispatch s

-- the branches of signal once the spin lock is taken
unfoldable pub signal_taken : Mutex → Queue → Sched → Monitor × Sched
unfolding unblock
signal_taken m [] s = (record { mutex = atomic_clear m; queue = [] }, s)
signal_taken m (t ∷ q) s = (
  record { mutex = atomic_clear (record m { queue = queue_insert m.queue t }); queue = q },
  note_unblocked s t,
)

unfoldable pub signal : Monitor → Sched → Run (Monitor × Sched)
unfolding test_and_set signal_taken
signal mon s =
    if owned_by mon.mutex s.active_thr
    then (test_and_set mon.mutex >>= λ m'. done (signal_taken m' mon.queue s))
    else done (mon, s)
