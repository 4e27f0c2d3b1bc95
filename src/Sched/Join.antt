-- ===== src/Sched/Join.antt =====
-- `sthread_user_join` of sthread_lib/sthread_user.c, in the part before its sthread_switch and the
-- part after it.
use sthreads.Prelude.{ℕ, Bool, true, false, ◌||◌, Option, none, some, [], ◌∷◌, ◌==◌, if◌then◌else◌}
use sthreads.Sched.Thread.{Memory}
use sthreads.Sched.Runqueue.{Queue, Runqueue, queue_insert}
use sthreads.Sched.State.{Sched, Run, done, fault, ◌>>=◌, set_thread, dispatch}

-- How the first part of a join ends: with the code 0 and a value, with -1, or at the switch.
pub data Joined : Type 0 where
  joined : ℕ → Joined
  not_found : Joined
  waiting : Joined

-- The loop over the zombies: those with the `tid` are dead, and the last one gives the value.
pub record Reaped : Type 0 where
  pub kept : Queue
  pub dead : Queue
  pub value : Option ℕ

unfoldable pub reap : Memory → ℕ → Queue → Reaped → Reaped
reap m tid [] r = r
reap m tid (z ∷ q) r = reap m tid q (
    if (m z).tid == tid
    then record r { dead = queue_insert r.dead z; value = some (m z).join_ret }
    else record r { kept = queue_insert r.kept z })

unfoldable pub has_tid : Memory → ℕ → Queue → Bool
has_tid m tid [] = false
has_tid m tid (t ∷ q) = (m t).tid == tid || has_tid m tid q

unfoldable pub rq_has_tid : Memory → ℕ → Runqueue → Bool
unfolding has_tid
rq_has_tid m tid [] = false
rq_has_tid m tid (q ∷ rq) = has_tid m tid q || rq_has_tid m tid rq

-- the running thread, the two runqueues, the sleepers and the joiners, in this order
unfoldable pub can_join : Sched → ℕ → Bool
unfolding has_tid rq_has_tid
can_join s tid =
    (s.thr s.active_thr).tid == tid
    || (rq_has_tid s.thr tid s.active_rq
        || (rq_has_tid s.thr tid s.expired_rq
            || (has_tid s.thr tid s.sleep_thr_list || has_tid s.thr tid s.join_thr_list)))

-- `*value_ptr = v`, where the caller may have passed NULL
abbrev pub store {ℓ} : {A : Type ℓ} → Bool → A → Run A
store true a = done a
store false a = fault

unfoldable pub join_wait : ℕ → Sched → Run (Joined × Sched)
unfolding set_thread dispatch can_join
join_wait p s =
    let tid = (s.thr p).tid in
    let s' = set_thread s s.active_thr (record (s.thr s.active_thr) { join_tid = tid }) in
    if can_join s tid
    then (dispatch (record s' { join_thr_list = queue_insert s.join_thr_list s.active_thr })
        >>= λ u. done (waiting, u))
    else done (not_found, s)

-- `p` is the thread to wait for, and `has_ptr` tells whether `value_ptr` is not NULL.
unfoldable pub join : ℕ → Bool → Sched → Run (Joined × Sched)
unfolding reap join_wait
join p has_ptr s =
    let r =
      reap s.thr (s.thr p).tid s.zombie_thr_list
        (record { kept = []; dead = s.dead_thr_list; value = none }) in
    let s' = record s { zombie_thr_list = r.kept; dead_thr_list = r.dead } in
    elim r.value [ none ↦ join_wait p s' | some v ↦ store has_ptr (joined v, s') ]

-- behind the switch: `*value_ptr = thread->join_ret`
unfoldable pub join_resume : ℕ → Bool → Sched → Run ℕ
join_resume p has_ptr s = store has_ptr (s.thr p).join_ret
