-- ===== src/Sched/Invariant/Sync.antt =====
-- The invariant over the mutexes and monitors of sthread_lib/sthread_user.c: the threads in their
-- queues are counted as parked, beside those of other mutexes and monitors.
use sthreads.Prelude.{
  ℕ, ◌+◌, ◌≡◌, refl, true, [], ◌∷◌, arith, one_if, inl, inr, count, count-append, Option-cases, ltb,
  subst, sym,
}
use sthreads.Sched.Runqueue.{Queue, queue_insert}
use sthreads.Sched.State.{Sched, IfDone, IfDone-if, IfDone->>=, ready}
use sthreads.Sched.Mutex.{
  Mutex, test_and_set, owned_by, recalc_active, note_unblocked, lock_taken, lock, hand_over,
  unlock_taken, unlock,
}
use sthreads.Sched.Invariant.{Valid}
use sthreads.Sched.Invariant.Steps.{
  Inv-elsewhere, set_thread-Inv, ready-Inv, blocked-Inv, dispatch-Inv, switch_to_best-Inv,
  InRange-elsewhere,
}
use sthreads.Sched.Invariant.Ranges.{recalcular-InRange}

-- The test-and-set changes nothing but the spin lock, which it takes.
pub test_and_set-IfDone {ℓ} :
    (P : Mutex → Type ℓ) (m : Mutex) → P (record m { l = true }) → IfDone P (test_and_set m)
unfolding test_and_set
test_and_set-IfDone P m h = IfDone-if P m.l _ _ (λ _. tt) (λ _. h)

-- The threads of a mutex's queue are parked, beside those that `k` counts.
abbrev pub ValidWith : (ℕ → ℕ) → (ℕ → ℕ) → Queue → Sched → Type 0
ValidWith total k q s = Valid total (λ p. count p q + k p) s

module _ {total : ℕ → ℕ} where
  pub recalc_active-Valid :
      (parked : ℕ → ℕ) {s : Sched} → Valid total parked s → Valid total parked (recalc_active s)
  unfolding recalc_active
  recalc_active-Valid parked {s} v =
      set_thread-Inv parked s.active_thr _ v
        (recalcular-InRange _ (InRange-elsewhere parked s.active_thr v))

  module _ (k : ℕ → ℕ) where
    lock_taken-Valid :
        (m : Mutex) {s : Sched}
        → ValidWith total k m.queue s
        → IfDone (λ r. ValidWith total k r.0.queue r.1) (lock_taken m s)
    unfolding lock_taken
    lock_taken-Valid m {s} v = elim (Option-cases m.owner) [
      | inl e ↦ rw (e, lock_taken) v
      | inr (o, e) ↦
          rw (e, lock_taken)
            (IfDone->>= (ValidWith total k (queue_insert m.queue s.active_thr))
              (λ r. ValidWith total k r.0.queue r.1) _ _
              (dispatch-Inv _ (
                Inv-elsewhere _ _ (λ p. omega (arith, count-append p m.queue (s.active_thr ∷ [])))
                  (blocked-Inv _ _ (recalc_active-Valid (λ p. count p m.queue + k p) v))))
              (λ u h. h))
    ]

    -- A lock keeps the invariant of the scheduler with the threads parked in the mutex's
    -- queue.
    pub lock-Valid :
        (m : Mutex) {s : Sched}
        → ValidWith total k m.queue s
        → IfDone (λ r. ValidWith total k r.0.queue r.1) (lock m s)
    unfolding lock
    lock-Valid m v =
        IfDone->>= (λ m'. ValidWith total k m'.queue _) _ _ _
          (test_and_set-IfDone (λ m'. ValidWith total k m'.queue _) m v)
          (λ m' h. lock_taken-Valid m' h)

    hand_over-Valid :
        (m : Mutex) (t : ℕ) (q : Queue) {s : Sched}
        → ValidWith total k (t ∷ q) s
        → IfDone (λ r. ValidWith total k r.0.queue r.1) (hand_over m t q s)
    unfolding hand_over
    hand_over-Valid m t q {s} v =
        let s' = ready (note_unblocked s t) t in
        IfDone-if (λ r. ValidWith total k r.0.queue r.1)
          (ltb (s'.thr t).priority (s'.thr s'.active_thr).priority) _ _
          (λ _.
            IfDone->>= (ValidWith total k q) (λ r. ValidWith total k r.0.queue r.1) _ _
              (switch_to_best-Inv _ (ready-Inv (λ p. count p q + k p) s'.active_thr woken))
              (λ u h. h))
          (λ _. woken)
      where
        woken : ValidWith total k q (ready (note_unblocked s t) t)
        woken =
            ready-Inv (λ p. one_if p s.active_thr + (count p q + k p)) t
              (blocked-Inv _ _ (Inv-elsewhere _ _ (λ p. omega arith) v))

    unlock_taken-Valid :
        (m : Mutex) (q : Queue) {s : Sched}
        → m.queue ≡ q
        → ValidWith total k q s
        → IfDone (λ r. ValidWith total k r.0.queue r.1) (unlock_taken m s)
    unfolding unlock_taken
    unlock_taken-Valid m [] {s} e v =
        rw (e, unlock_taken) (subst (λ x. ValidWith total k x s) (sym e) v)
    unlock_taken-Valid m (t ∷ q) e v = rw (e, unlock_taken) (hand_over-Valid m t q v)

    -- An unlock keeps the invariant of the scheduler with the threads parked in the mutex's
    -- queue.
    pub unlock-Valid :
        (m : Mutex) {s : Sched}
        → ValidWith total k m.queue s
        → IfDone (λ r. ValidWith total k r.0.queue r.1) (unlock m s)
    unfolding unlock
    unlock-Valid m {s} v =
        IfDone-if (λ r. ValidWith total k r.0.queue r.1) (owned_by m s.active_thr) _ _
          (λ _.
            IfDone->>= (λ m'. ValidWith total k m'.queue s) _ _ _
              (test_and_set-IfDone (λ m'. ValidWith total k m'.queue s) m v)
              (λ m' h. unlock_taken-Valid m' m'.queue refl h))
          (λ _. v)
