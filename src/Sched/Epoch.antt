-- ===== src/Sched/Epoch.antt =====
-- The epoch computation of sthread_lib/sthread_user.c: `recalcular` and what sthread_user_nice
-- foretells of it.
use sthreads.Prelude.{
  ℕ, ◌+◌, ◌/◌, ◌<◌, ◌≤◌, ◌≡◌, true, arith, ℤ, pos, negsuc, ◌-ℤ◌, ◌+ℤ◌, leb_ℤ, ltb_ℤ, ap, sym, ◌∙◌,
  if◌then◌else◌,
}
use sthreads.Sched.Thread.{Thread, clamp, recalcular, next_priority, next_quantum, update_self}
use sthreads.Sched.State.{Sched, set_thread}
use sthreads.Sched.Ops.{nice_priority, nice}
use sthreads.Sched.Invariant.Ranges.{next_priority_bounds}

-- For a quantum that is not negative, recalcular keeps a thread of static priority as it is, and
-- gives one of dynamic priority a priority from 5 to 14 and the quantum 5 plus half of what was
-- left.
pub recalcular_lem :
    (t : Thread) (left : ℕ)
    → t.quantum ≡ pos left
    → (t.priority ≤ 4 → recalcular t ≡ t)
      × (4 < t.priority
          → (5 ≤ (recalcular t).priority)
            × ((recalcular t).priority ≤ 14)
            × ((recalcular t).quantum ≡ pos (5 + left / 2)))
unfolding recalcular next_quantum
recalcular_lem t left e =
    (λ h. ground arith, λ h. ground (arith, next_priority_bounds t t.quantum t.nice))

clamp_mono : (lo hi : ℕ) (x y : ℤ) → lo ≤ hi → leb_ℤ x y ≡ true → clamp lo hi x ≤ clamp lo hi y
clamp_mono lo hi (pos a) (pos b) h e = ground arith
clamp_mono lo hi (pos a) (negsuc b) h e = ground arith
clamp_mono lo hi (negsuc a) (pos b) h e = ground arith
clamp_mono lo hi (negsuc a) (negsuc b) h e = ground arith

-- Of two epoch computations for one thread, the one with more quantum left and a smaller nice
-- gives no worse a priority.
pub next_priority_mono :
    (t : Thread) (q q' n n' : ℕ)
    → q' ≤ q
    → n ≤ n'
    → next_priority t (pos q) n ≤ next_priority t (pos q') n'
unfolding next_priority
next_priority_mono t q q' n n' h k =
    clamp_mono 5 14 (pos t.base_priority -ℤ pos q +ℤ pos n)
      (pos t.base_priority -ℤ pos q' +ℤ pos n') (omega arith) (ground arith)

recalcular-next_priority :
    (t : Thread) → 4 < t.priority → (recalcular t).priority ≡ next_priority t t.quantum t.nice
unfolding recalcular
recalcular-next_priority t h = ground arith

-- the running thread with its new nice
niced : ℤ → Sched → Thread
niced n s = record (s.thr s.active_thr) { nice = clamp 0 10 n }

-- The two copies of the computation agree.
nice_priority-next_priority :
    (t : Thread) (n : ℕ) → nice_priority t n ≡ pos (next_priority t t.quantum n)
unfolding nice_priority next_priority
nice_priority-next_priority t n = both_limits (pos t.base_priority -ℤ t.quantum +ℤ pos n)
  where
    both_limits :
        (x : ℤ)
        → (let r = if ltb_ℤ x (pos 5) then pos 5 else x in if ltb_ℤ (pos 14) r then pos 14 else r)
          ≡ pos (clamp 5 14 x)
    both_limits (pos a) = ground arith
    both_limits (negsuc a) = ground arith

-- For a thread of dynamic priority, nice returns the priority that recalcular then gives at the
-- present quantum: the two copies of the computation agree.
pub nice-recalcular :
    (n : ℤ) (s : Sched)
    → 4 < (s.thr s.active_thr).priority
    → (nice n s).1 ≡ pos (recalcular ((nice n s).0.thr s.active_thr)).priority
unfolding nice set_thread niced next_priority
nice-recalcular n s h =
    nice_priority-next_priority (s.thr s.active_thr) (clamp 0 10 n)
    ∙ sym (
        ap (λ p. pos p)
          (ap (λ t. (recalcular t).priority) (update_self s.thr s.active_thr (niced n s))
            ∙ recalcular-next_priority (niced n s) h))
