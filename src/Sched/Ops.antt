-- ===== src/Sched/Ops.antt =====
-- The thread operations of sthread_lib/sthread_user.c: creation, nice, exit, the clock tick, yield,
-- join and sleep. An operation that gives the processor away ends at its sthread_switch; what
-- follows the switch runs when the thread is chosen again, and is `join_resume` where it matters.
use sthreads.Prelude.{
  ℕ, suc, ◌+◌, ◌-◌, ◌*◌, ◌%◌, ◌^◌, Bool, true, false, ◌&&◌, none, some, [], ◌∷◌, ℤ, pos, negsuc,
  ◌+ℤ◌, ◌-ℤ◌, ltb_ℤ, leb_ℤ, div_ℤ, ltb, ◌==◌, if◌then◌else◌,
}
use sthreads.Sched.Thread.{Thread, Memory, update, clamp, quantum_base, dyn_min_prio, recalcular}
use sthreads.Sched.Runqueue.{Queue, Runqueue, queue_insert, rq_inserir, rq_melhor_prio, rq_vazia}
use sthreads.Sched.State.{
  Sched, Run, done, exited, ◌>>=◌, set_thread, ready, switch_to_best, dispatch,
}

abbrev pub new_thread : ℕ → ℕ → ℕ → ℕ → Thread
new_thread routine arg priority tid = record {
  start_routine_ptr = routine;
  args = arg;
  wake_time = pos 0;
  join_tid = 0;
  join_ret = 0;
  tid = tid;
  priority = priority;
  base_priority = priority;
  quantum = pos quantum_base;
  nice = 0;
}

-- `p` is the block that malloc returned.
unfoldable pub create_p : ℕ → ℕ → ℕ → ℤ → Sched → Sched
unfolding set_thread ready
create_p p routine arg priority s =
    ready
      (record (set_thread s p (new_thread routine arg (clamp 0 14 priority) s.tid_gen)) {
        tid_gen = s.tid_gen + 1;
      })
      p

unfoldable pub create : ℕ → ℕ → ℕ → Sched → Sched
unfolding create_p
create p routine arg s = create_p p routine arg (pos 7) s

-- `nova_p` of nice, the second copy of the computation, on the fields of the running thread
unfoldable pub nice_priority : Thread → ℕ → ℤ
nice_priority t nice =
    let nova_p = pos t.base_priority -ℤ t.quantum +ℤ pos nice in
    let raised = if ltb_ℤ nova_p (pos dyn_min_prio) then pos dyn_min_prio else nova_p in
    if ltb_ℤ (pos 14) raised then pos 14 else raised

-- the new state, and the priority that is returned
unfoldable pub nice : ℤ → Sched → Sched × ℤ
unfolding set_thread nice_priority
nice n s =
    let k = clamp 0 10 n in
    let t = s.thr s.active_thr in
    (set_thread s s.active_thr (record t { nice = k }), nice_priority t k)

-- The loop of exit over the joining threads: those that wait for `tid` get `ret` and are ready.
pub record Woken : Type 0 where
  pub mem : Memory
  pub rq : Runqueue
  pub kept : Queue
  pub is_zombie : Bool

abbrev pub given : ℕ → Thread → Thread
given ret t = record t { join_ret = ret }

unfoldable pub wake_joiners : ℕ → ℕ → Queue → Woken → Woken
wake_joiners ret tid [] w = w
wake_joiners ret tid (t ∷ q) w = wake_joiners ret tid q (
    if (w.mem t).join_tid == tid
    then (let m = update w.mem t (given ret (w.mem t)) in
        record w { mem = m; rq = rq_inserir m w.rq t; is_zombie = false })
    else record w { kept = queue_insert w.kept t })

unfoldable pub exit_woken : ℕ → Sched → Woken
unfolding wake_joiners
exit_woken ret s =
    wake_joiners ret (s.thr s.active_thr).tid s.join_thr_list
      (record { mem = s.thr; rq = s.active_rq; kept = []; is_zombie = true })

-- the state once the joiners are woken and the thread is listed as a zombie or as dead
unfoldable pub exit_listed : ℕ → Sched → Sched
unfolding exit_woken
exit_listed ret s =
    let w = exit_woken ret s in
    let s' = record s { thr = w.mem; active_rq = w.rq; join_thr_list = w.kept } in
    if w.is_zombie
    then record s' { zombie_thr_list = queue_insert s.zombie_thr_list s.active_thr }
    else record s' { dead_thr_list = queue_insert s.dead_thr_list s.active_thr }

unfoldable pub exit : ℕ → Sched → Run Sched
unfolding exit_listed dispatch
exit ret s =
    let s' = exit_listed ret s in
    if rq_vazia s'.active_rq && rq_vazia s'.expired_rq then exited else dispatch s'

-- The loop of the tick over the sleeping threads: those whose time has come are ready.
abbrev pub awake : Thread → Thread
awake t = record t { wake_time = pos 0; quantum = pos quantum_base }

unfoldable pub wake_sleepers : ℕ → Queue → Woken → Woken
wake_sleepers clock [] w = w
wake_sleepers clock (t ∷ q) w = wake_sleepers clock q (
    if leb_ℤ (w.mem t).wake_time (pos clock)
    then (let m = update w.mem t (awake (w.mem t)) in
        record w { mem = m; rq = rq_inserir m w.rq t })
    else record w { kept = queue_insert w.kept t })

-- the clock, the sleepers and the quantum of the running thread
unfoldable pub tick : Sched → Sched
unfolding wake_sleepers set_thread
tick s =
    let w =
      wake_sleepers (s.clock + 1) s.sleep_thr_list
        (record { mem = s.thr; rq = s.active_rq; kept = []; is_zombie = true }) in
    let t = w.mem s.active_thr in
    set_thread
      (record s { clock = s.clock + 1; thr = w.mem; active_rq = w.rq; sleep_thr_list = w.kept })
      s.active_thr (record t { quantum = t.quantum -ℤ pos 1 })

-- Preemption: is there a thread of a better priority?
unfoldable pub outranked : Sched → Bool
outranked s = elim (rq_melhor_prio s.active_rq) [
  | none ↦ false
  | some best ↦ ltb best (s.thr s.active_thr).priority
]

-- the quantum is used up: a new epoch for the thread, in the expired runqueue
unfoldable pub expire : Sched → Sched
unfolding set_thread
expire s =
    let t = recalcular (record (s.thr s.active_thr) { quantum = pos 0 }) in
    let s' = set_thread s s.active_thr t in
    record s' { expired_rq = rq_inserir s'.thr s.expired_rq s.active_thr }

unfoldable pub dispatcher : Sched → Run Sched
unfolding tick outranked expire ready dispatch
dispatcher s =
    let s' = tick s in
    if ltb_ℤ (pos 0) (s'.thr s'.active_thr).quantum
    then (if outranked s' then switch_to_best (ready s' s'.active_thr) else done s')
    else dispatch (expire s')

-- `active_thr == old` in the first branch returns at once.
unfoldable pub yield_now : Sched → Run Sched
unfolding ready switch_to_best set_thread
yield_now s =
    let old = s.active_thr in
    let s' = ready (set_thread s old (recalcular (s.thr old))) old in
    if rq_vazia s'.active_rq
    then (switch_to_best s' >>= λ u. if u.active_thr == old then done u else switch_to_best u)
    else switch_to_best s'

-- The number that 32 bits stand for in a `long` of the builds, all with `-m32`.
abbrev pub long_of : ℕ → ℤ
long_of w = if ltb w (2 ^ 31) then pos w else negsuc (2 ^ 32 - w - 1)

-- `10L * time / CLOCK_TICK`: the product is a `long` of 32 bits and wraps around.
unfoldable pub sleep_ticks : ℤ → ℤ
sleep_ticks (pos n) = div_ℤ (long_of (10 * n % 2 ^ 32)) 100
sleep_ticks (negsuc n) = div_ℤ (long_of ((2 ^ 32 - 10 * suc n % 2 ^ 32) % 2 ^ 32)) 100

abbrev pub is_zero_ℤ : ℤ → Bool
is_zero_ℤ (pos n) = n == 0
is_zero_ℤ (negsuc n) = false

unfoldable pub sleep : ℤ → Sched → Run Sched
unfolding sleep_ticks set_thread dispatch
sleep time s =
    let n = sleep_ticks time in
    let t = s.thr s.active_thr in
    let s' = set_thread s s.active_thr (record t { wake_time = pos s.clock +ℤ n }) in
    if is_zero_ℤ n
    then done s
    else dispatch (record s' { sleep_thr_list = queue_insert s.sleep_thr_list s.active_thr })
