-- ===== src/Sched/Mutex.antt =====
-- The mutexes of sthread_lib/sthread_user.c, with the spin lock of
-- sthread_lib/sthread_time_slice.c in the field `l`.
use sthreads.Prelude.{ℕ, Bool, true, false, Option, none, some, [], ◌∷◌, ltb, ◌==◌, if◌then◌else◌}
use sthreads.Sched.Thread.{Memory, recalcular}
use sthreads.Sched.Runqueue.{Queue, queue_insert}
use sthreads.Sched.State.{
  Sched, Run, done, spins, ◌>>=◌, set_thread, ready, switch_to_best, dispatch,
}

-- `owner` is the field `thr`.
pub record Mutex : Type 0 where
  pub l : Bool
  pub owner : Option ℕ
  pub queue : Queue

unfoldable pub mutex_init : Mutex
mutex_init = record { l = false; owner = none; queue = [] }

-- `while (atomic_test_and_set(&(lock->l))) {}`: a lock that is taken is spun on for ever, since the
-- call runs on the only processor.
unfoldable pub test_and_set : Mutex → Run Mutex
test_and_set m = if m.l then spins else done (record m { l = true })

abbrev pub atomic_clear : Mutex → Mutex
atomic_clear m = record m { l = false }

abbrev pub owned_by : Mutex → ℕ → Bool
owned_by m p = elim m.owner [ none ↦ false | some q ↦ q == p ]

-- `recalcular(active_thr)`
unfoldable pub recalc_active : Sched → Sched
unfolding set_thread
recalc_active s = set_thread s s.active_thr (recalcular (s.thr s.active_thr))

-- `queue_insert(blocked_list, active_thr)`
abbrev pub note_blocked : Sched → Sched
note_blocked s = record s { blocked_list = queue_insert s.blocked_list s.active_thr }

-- the branches of lock once the spin lock is taken
unfoldable pub lock_taken : Mutex → Sched → Run (Mutex × Sched)
unfolding recalc_active dispatch
lock_taken m s = elim m.owner [
  | none ↦ done (atomic_clear (record m { owner = some s.active_thr }), s)
  | some o ↦ dispatch (note_blocked (recalc_active s)) >>= λ u.
      done (atomic_clear (record m { queue = queue_insert m.queue s.active_thr }), u)
]

unfoldable pub lock : Mutex → Sched → Run (Mutex × Sched)
unfolding test_and_set lock_taken
lock m s = test_and_set m >>= λ m'. lock_taken m' s

-- The loop that takes a thread off the list of the blocked, by its tid.
unfoldable pub unblock : Memory → ℕ → Queue → Queue
unblock m tid [] = []
unblock m tid (b ∷ q) = let rest = unblock m tid q in if (m b).tid == tid then rest else b ∷ rest

abbrev pub note_unblocked : Sched → ℕ → Sched
note_unblocked s t = record s { blocked_list = unblock s.thr (s.thr t).tid s.blocked_list }

-- `t` is the thread at the head of the mutex's queue and `q` the rest of it. The last component
-- tells whether the processor was given to another thread inside the call.
unfoldable pub hand_over : Mutex → ℕ → Queue → Sched → Run (Mutex × Sched × Bool)
unfolding unblock ready switch_to_best
hand_over m t q s =
    let m' = record m { owner = some t; queue = q } in
    let s' = ready (note_unblocked s t) t in
    if ltb (s'.thr t).priority (s'.thr s'.active_thr).priority
    then (switch_to_best (ready s' s'.active_thr) >>= λ u. done (atomic_clear m', u, true))
    else done (atomic_clear m', s', false)

-- the branches of unlock once the spin lock is taken
unfoldable pub unlock_taken : Mutex → Sched → Run (Mutex × Sched × Bool)
unfolding hand_over
unlock_taken m s = elim m.queue [
  | [] ↦ done (atomic_clear (record m { owner = none }), s, false)
  | t ∷ q ↦ hand_over m t q s
]

unfoldable pub unlock : Mutex → Sched → Run (Mutex × Sched × Bool)
unfolding test_and_set unlock_taken
unlock m s =
    if owned_by m s.active_thr
    then (test_and_set m >>= λ m'. unlock_taken m' s)
    else done (m, s, false)
