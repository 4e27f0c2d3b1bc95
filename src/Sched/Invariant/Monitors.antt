-- ===== src/Sched/Invariant/Monitors.antt =====
-- The invariant over the monitors of sthread_lib/sthread_user.c. A thread parked at a monitor is in
-- the queue of its mutex or in its own; `k` counts those of other mutexes and monitors.
use sthreads.Prelude.{
  ℕ, ◌+◌, ◌<◌, ◌≡◌, refl, true, false, [], ◌∷◌, ◌++◌, arith, one_if, count, count-append,
  if◌then◌else◌, ap, inl, inr, Bool-cases,
}
use sthreads.Sched.Runqueue.{Queue}
use sthreads.Sched.State.{Sched, done, IfDone, IfDone->>=}
use sthreads.Sched.Mutex.{Mutex, test_and_set, owned_by}
use sthreads.Sched.Monitor.{
  Monitor, Waiting, outside, blocked, preempted, enter, leave, signal_taken, signal,
}
use sthreads.Sched.Exclusion.{pass_on}
use sthreads.Sched.Invariant.{queued, Valid}
use sthreads.Sched.Invariant.Steps.{Inv-elsewhere, blocked-Inv}
use sthreads.Sched.Invariant.Sync.{ValidWith, lock-Valid, unlock-Valid}

abbrev pub ValidAt : (ℕ → ℕ) → (ℕ → ℕ) → Monitor → Sched → Type 0
ValidAt total k mon s = Valid total (λ p. count p mon.mutex.queue + (count p mon.queue + k p)) s

-- Where every thread stands once a wait gives the processor away. The thread that waits stands in
-- the monitor's queue; if the unlock was preempted it stands in the active runqueue too.
abbrev pub Waits : (ℕ → ℕ) → (ℕ → ℕ) → ℕ → Monitor × Sched × Waiting → Type 0
Waits total k waiter (mon, s, preempted) =
    (p : ℕ)
    → queued p s + one_if p s.active_thr + count p mon.mutex.queue + count p mon.queue + k p
      ≡ one_if p waiter + total p
Waits total k waiter (mon, s, outside) = ValidAt total k mon s
Waits total k waiter (mon, s, blocked) = ValidAt total k mon s

-- The monitor once `p` waits in it: last in the monitor's queue, with the mutex passed on.
abbrev pub after_wait : ℕ → Monitor → Monitor
after_wait p mon = record { mutex = pass_on mon.mutex; queue = mon.queue ++ p ∷ [] }

-- What a wait on `mon` in `s` leaves.
abbrev pub WaitsIn : Monitor → Sched → Monitor × Sched × Waiting → Type 0
WaitsIn mon s (mon', u, outside) =
    (owned_by mon.mutex s.active_thr ≡ false) × (mon' ≡ mon) × (u ≡ s)
WaitsIn mon s (mon', u, blocked) =
    (owned_by mon.mutex s.active_thr ≡ true) × (mon' ≡ after_wait s.active_thr mon)
WaitsIn mon s (mon', u, preempted) =
    (owned_by mon.mutex s.active_thr ≡ true)
    × (mon' ≡ after_wait s.active_thr mon)
    × (0 < queued s.active_thr u + one_if s.active_thr u.active_thr)

-- The monitor after `p` signalled: the thread that waited longest at the monitor is the last that
-- waits for the mutex. Nothing changes if no thread waits, or `p` is not in the monitor.
abbrev pub after_signal : ℕ → Monitor → Monitor
after_signal p mon =
    if owned_by mon.mutex p
    then (elim mon.queue [
      | [] ↦ mon
      | t ∷ q ↦ record { mutex = record mon.mutex { queue = mon.mutex.queue ++ t ∷ [] }; queue = q }
    ])
    else mon

module _ {total : ℕ → ℕ} (k : ℕ → ℕ) where
  pub enter-Valid :
      (mon : Monitor) {s : Sched}
      → ValidAt total k mon s
      → IfDone (λ r. ValidAt total k r.0 r.1) (enter mon s)
  unfolding enter
  enter-Valid mon {s} v =
      IfDone->>= (λ r. ValidWith total (λ p. count p mon.queue + k p) r.0.queue r.1)
        (λ r. ValidAt total k r.0 r.1) _ _ (lock-Valid _ mon.mutex v) (λ r h. h)

  pub leave-Valid :
      (mon : Monitor) {s : Sched}
      → ValidAt total k mon s
      → IfDone (λ r. ValidAt total k r.0 r.1) (leave mon s)
  unfolding leave
  leave-Valid mon {s} v =
      IfDone->>= (λ r. ValidWith total (λ p. count p mon.queue + k p) r.0.queue r.1)
        (λ r. ValidAt total k r.0 r.1) _ _ (unlock-Valid _ mon.mutex v) (λ r h. h)

  -- From a state that keeps the invariant with the threads parked at the monitor and with the
  -- spin lock of its mutex free, a monitor signal ends and keeps the invariant; by the owner of
  -- the mutex it moves the thread that waited longest at the monitor to the end of the mutex's
  -- queue, and if no thread waits, or by another thread, it leaves the monitor as it was.
  pub signal-Valid :
      (mon : Monitor) {s : Sched}
      → mon.mutex.l ≡ false
      → ValidAt total k mon s
      → (r : Monitor × Sched) × (signal mon s ≡ done r)
        × ValidAt total k r.0 r.1
        × (r.0 ≡ after_signal s.active_thr mon)
  unfolding signal
  signal-Valid mon {s} f v = elim (Bool-cases (owned_by mon.mutex s.active_thr)) [
    | inl o ↦
        let (a, b) = taken mon.queue refl f v in
        (
          signal_taken (record mon.mutex { l = true }) mon.queue s,
          rw (o, test_and_set, f) refl,
          a,
          rw o b,
        )
    | inr o ↦ ((mon, s), rw o refl, v, rw o refl)
  ]
    where
      taken :
          (q : Queue)
          → mon.queue ≡ q
          → mon.mutex.l ≡ false
          → ValidAt total k mon s
          → let r = signal_taken (record mon.mutex { l = true }) q s in
            ValidAt total k r.0 r.1
            × (r.0 ≡ elim q [
              | [] ↦ mon
              | t ∷ q ↦ record {
                mutex = record mon.mutex { queue = mon.mutex.queue ++ t ∷ [] };
                queue = q;
              }
            ])
      taken [] e f h =
          (Inv-elsewhere _ _ (λ p. omega (arith, ap (count p) e)) h, ground (arith, f, e))
      taken (t ∷ q) e f h = (
        blocked-Inv _ _ (
            Inv-elsewhere _ _
              (λ p. omega (arith, count-append p mon.mutex.queue (t ∷ []), ap (count p) e)) h),
        ground (arith, f),
      )
