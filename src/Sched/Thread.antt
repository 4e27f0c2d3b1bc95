-- ===== src/Sched/Thread.antt =====
-- The thread control block of sthread_lib/sthread_user.c, its memory, and the epoch computation of
-- quantum and dynamic priority (`recalcular`, `sthread_user_nice`).
-- A `struct _sthread *` is a number, and the memory maps it to the block that it points at. The
-- contexts are left to sthread_switch, the entry point and its argument are opaque numbers, and a
-- `void *` is a number whose 0 is NULL.
use sthreads.Prelude.{
  arith, ℕ, ◌≡◌, ℤ, pos, pos_part, ◌+ℤ◌, ◌-ℤ◌, ltb_ℤ, div_ℤ, leb, ◌==◌, if◌then◌else◌,
}

-- `priority`, `base_priority` and `nice` are clamped before they are stored, so they are never
-- negative; the quantum is decremented below 0 by a tick, and a wake time may lie in the past.
pub record Thread : Type 0 where
  pub start_routine_ptr : ℕ
  pub args : ℕ
  pub wake_time : ℤ
  pub join_tid : ℕ
  pub join_ret : ℕ
  pub tid : ℕ
  pub priority : ℕ
  pub base_priority : ℕ
  pub quantum : ℤ
  pub nice : ℕ

abbrev pub num_priorities : ℕ
num_priorities = 15

abbrev pub quantum_base : ℕ
quantum_base = 5

abbrev pub static_max_prio : ℕ
static_max_prio = 4

abbrev pub dyn_min_prio : ℕ
dyn_min_prio = 5

abbrev pub Memory : Type 0
Memory = ℕ → Thread

abbrev pub update : Memory → ℕ → Thread → Memory
update m p t q = if q == p then t else m q

pub update_self : (m : Memory) (p : ℕ) (t : Thread) → update m p t p ≡ t
update_self m p t = ground arith

-- `if (x < lo) x = lo; if (x > hi) x = hi;`, at limits that are not negative
abbrev pub clamp : ℕ → ℕ → ℤ → ℕ
clamp lo hi x = if ltb_ℤ x (pos lo) then lo else if ltb_ℤ (pos hi) x then hi else pos_part x

-- `nova_p` of `recalcular`, on the quantum that is left
unfoldable pub next_priority : Thread → ℤ → ℕ → ℕ
next_priority t qpu nice = clamp dyn_min_prio 14 (pos t.base_priority -ℤ qpu +ℤ pos nice)

unfoldable pub next_quantum : ℤ → ℤ
next_quantum qpu = let q = pos quantum_base +ℤ div_ℤ qpu 2 in if ltb_ℤ q (pos 1) then pos 1 else q

unfoldable pub recalcular : Thread → Thread
unfolding next_priority next_quantum
recalcular t =
    if leb t.priority static_max_prio
    then t
    else record t { quantum = next_quantum t.quantum; priority = next_priority t t.quantum t.nice }
