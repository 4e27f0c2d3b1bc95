-- ===== src/Sched/Tests.antt =====
-- The theorems on sthread_lib/sthread_user.c at concrete threads: the main thread 0 of priority 7,
-- and a thread 1 of the static priority 3.
use sthreads.Prelude.{
  ℕ, ◌+◌, ◌≤◌, ◌<◌, ◌≡◌, refl, true, false, none, some, [], ◌∷◌, arith, one_if, pos, ◌⊎◌, get_or,
  take, set, ◌/◌, ◌==◌, if◌then◌else◌, replicate,
}
use sthreads.Sched.Thread.{Thread, Memory, recalcular}
use sthreads.Sched.Runqueue.{Queue, rq_retirar, rq_melhor_prio, rq_inserir, insert_at, rq_vazia}
use sthreads.Sched.Runqueue.Choice.{AllEmpty, rq_retirar-rq_melhor_prio}
use sthreads.Sched.State.{Sched, done, fault, IfDone, main_thread, init, dispatch}
use sthreads.Sched.Ops.{create_p, nice, exit, dispatcher}
use sthreads.Sched.Join.{join_resume}
use sthreads.Sched.Mutex.{Mutex, owned_by, lock, unlock}
use sthreads.Sched.Monitor.{Monitor, preempted, wait, signal}
use sthreads.Sched.Invariant.{Valid}
use sthreads.Sched.Invariant.Steps.{Inv-elsewhere}
use sthreads.Sched.Invariant.Creation.{init-Valid, create_p-Valid}
use sthreads.Sched.Invariant.Sync.{ValidWith, lock-Valid, unlock-Valid}
use sthreads.Sched.Invariant.Monitors.{ValidAt, after_signal, signal-Valid}
use sthreads.Sched.Choosing.{
  RunsBest, dispatcher-RunsBest, dispatcher-total, NoneReady, dispatch-cases,
}
use sthreads.Sched.Epoch.{recalcular_lem, nice-recalcular}
use sthreads.Sched.ExitValue.{exit-join_resume}
use sthreads.Sched.Exclusion.{
  Settled, after_lock, after_unlock, lock-after_lock, unlock-after_unlock,
}
use sthreads.Sched.History.{ticks, yields, sleeps, run, run-Valid}

abbrev blank : Memory
blank p = main_thread

abbrev started : Sched
started = init blank 0

abbrev two : Sched
two = create_p 1 70 80 (pos 3) started

abbrev pair : ℕ → ℕ
pair q = one_if q 1 + one_if q 0

abbrev nowhere : ℕ → ℕ
nowhere q = 0

two-Valid : Valid pair nowhere two
two-Valid = create_p-Valid nowhere 1 70 80 (pos 3) (init-Valid blank 0) refl

create_p-Valid_example : Valid (λ q. one_if q 1 + one_if q 0) nowhere two
create_p-Valid_example = create_p-Valid nowhere 1 70 80 (pos 3) (init-Valid blank 0) refl

run-Valid_example : IfDone (Valid pair nowhere) (run (ticks ∷ yields ∷ sleeps (pos 20) ∷ []) two)
run-Valid_example = run-Valid nowhere (ticks ∷ yields ∷ sleeps (pos 20) ∷ []) two-Valid

dispatcher-RunsBest_example : IfDone RunsBest (dispatcher two)
dispatcher-RunsBest_example = dispatcher-RunsBest nowhere two-Valid

dispatcher-total_example : (u : Sched) × (dispatcher two ≡ done u)
dispatcher-total_example = dispatcher-total nowhere two-Valid

exit-join_resume_example :
    IfDone
      (λ u. join_resume two.active_thr true u ≡ done (two.thr two.active_thr).join_ret)
      (exit 42 two)
exit-join_resume_example = exit-join_resume nowhere 42 two-Valid

-- The thread of the better priority gets the processor at the first tick.
tick_preempts : IfDone (λ u. u.active_thr ≡ 1) (dispatcher two)
unfolding dispatcher create_p init rq_melhor_prio rq_inserir insert_at rq_retirar
tick_preempts = refl

-- Thread 0 runs and owns the mutex that thread 1 waits for; thread 2 is ready.
abbrev sample_thread : ℕ → ℕ → Thread
sample_thread tid priority = record main_thread { tid = tid; priority = priority }

abbrev sample_memory : Memory
sample_memory p = sample_thread (p + 1) (if p == 0 then 9 else 3)

abbrev contended : Sched
contended = record {
  thr = sample_memory;
  active_rq = [] ∷ [] ∷ [] ∷ (2 ∷ []) ∷ replicate 11 [];
  expired_rq = replicate 15 [];
  blocked_list = 1 ∷ [];
  dead_thr_list = [];
  sleep_thr_list = [];
  join_thr_list = [];
  zombie_thr_list = [];
  active_thr = 0;
  tid_gen = 4;
  clock = 1;
}

abbrev held : Mutex
held = record { l = false; owner = some 0; queue = 1 ∷ [] }

abbrev trio : ℕ → ℕ
trio q = one_if q 0 + one_if q 1 + one_if q 2

contended-Valid : ValidWith trio nowhere held.queue contended
contended-Valid = record {
  placed = λ p. omega arith;
  once = λ p. ground arith;
  in_range = λ p h. ground arith;
  active_size = refl;
  expired_size = refl;
  active_filed = omega arith;
  expired_filed = omega arith;
}

held-Settled : Settled held
held-Settled = record { spin_free = refl; no_waiter = λ e. cc }

lock-Valid_example : IfDone (λ r. ValidWith trio nowhere r.0.queue r.1) (lock held contended)
lock-Valid_example = lock-Valid nowhere held contended-Valid

unlock-Valid_example : IfDone (λ r. ValidWith trio nowhere r.0.queue r.1) (unlock held contended)
unlock-Valid_example = unlock-Valid nowhere held contended-Valid

lock-after_lock_example : IfDone (λ r. r.0 ≡ after_lock 0 held) (lock held contended)
lock-after_lock_example = lock-after_lock held contended held-Settled

unlock-after_unlock_example :
    IfDone (λ r. r.0 ≡ after_unlock 0 held) (unlock held contended)
    × ((owned_by held 0 ≡ true) ⊎ (unlock held contended ≡ done (held, contended, false)))
unlock-after_unlock_example = unlock-after_unlock held contended held-Settled

abbrev inside : Monitor
inside = record { mutex = held; queue = [] }

abbrev waited : Monitor
waited = record { mutex = record held { queue = [] }; queue = 1 ∷ [] }

signal-Valid_example :
    (r : Monitor × Sched) × (signal waited contended ≡ done r)
    × ValidAt trio nowhere r.0 r.1
    × (r.0 ≡ after_signal 0 waited)
signal-Valid_example =
    signal-Valid nowhere waited refl (Inv-elsewhere _ _ (λ p. omega arith) contended-Valid)

-- The unlock inside the wait wakes a better thread, and the waiter is preempted.
wait_preempted : IfDone (λ r. r.2 ≡ preempted) (wait inside contended)
unfolding wait recalcular rq_retirar rq_inserir insert_at
wait_preempted = refl

rq_retirar-rq_melhor_prio_example :
    (AllEmpty contended.active_rq
      × (rq_melhor_prio contended.active_rq ≡ none)
      × (rq_retirar contended.active_rq ≡ none))
    ⊎ ((i : ℕ) × (t : ℕ) × (q : Queue) × (get_or contended.active_rq i [] ≡ t ∷ q)
        × AllEmpty (take i contended.active_rq)
        × (rq_melhor_prio contended.active_rq ≡ some i)
        × (rq_retirar contended.active_rq ≡ some (t, set contended.active_rq i q)))
rq_retirar-rq_melhor_prio_example = rq_retirar-rq_melhor_prio contended.active_rq

dispatch-cases_example :
    (NoneReady contended × (dispatch contended ≡ fault))
    ⊎ (((rq_vazia contended.active_rq ≡ false) ⊎ (rq_vazia contended.expired_rq ≡ false))
        × ((u : Sched) × (dispatch contended ≡ done u)))
dispatch-cases_example = dispatch-cases contended

recalcular_lem_example :
    (9 ≤ 4 → recalcular (sample_thread 1 9) ≡ sample_thread 1 9)
    × (4 < 9
        → (5 ≤ (recalcular (sample_thread 1 9)).priority)
          × ((recalcular (sample_thread 1 9)).priority ≤ 14)
          × ((recalcular (sample_thread 1 9)).quantum ≡ pos (5 + 5 / 2)))
recalcular_lem_example = recalcular_lem (sample_thread 1 9) 5 refl

nice-recalcular_example :
    (nice (pos 4) contended).1 ≡ pos (recalcular ((nice (pos 4) contended).0.thr 0)).priority
nice-recalcular_example = nice-recalcular (pos 4) contended (omega arith)
