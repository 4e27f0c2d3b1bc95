-- ===== src/Server/RwLock.antt =====
-- The readers-writers lock of snfs_server/server.c, on a monitor. The stretch of a function from an
-- enter or a wake-up to the next wait or exit runs inside the monitor, and is one step here. The
-- phase of a thread says where it stands between two steps.
pub mod Exclusion
pub mod Starving
use sthreads.Prelude.{
  ℕ, suc, ◌+◌, ◌-◌, ◌≡◌, Bool, true, false, ◌||◌, List, [], ◌∷◌, ◌++◌, length, ltb, ◌==◌, get_or,
  set, if◌then◌else◌, ◌<◌,
}

pub data Phase : Type 0 where
  idle read_waits read_woken reads write_waits write_woken writes : Phase

pub record RwLock : Type 0 where
  pub readers_active : ℕ
  pub writer_active : Bool
  pub writers_waiting : ℕ
  -- the threads that wait in the monitor, and the phase of every thread
  pub waiting : List ℕ
  pub phases : List Phase

abbrev pub phase : RwLock → ℕ → Phase
phase s p = get_or s.phases p idle

abbrev pub goes : RwLock → ℕ → Phase → RwLock
goes s p x = record s { phases = set s.phases p x }

abbrev pub woken : Phase → Phase
woken read_waits = read_woken
woken write_waits = write_woken
woken x = x

-- sthread_monitor_wait puts the caller at the end of the monitor's queue
abbrev pub wait_in : RwLock → ℕ → Phase → RwLock
wait_in s p x = record (goes s p x) { waiting = s.waiting ++ (p ∷ []) }

-- sthread_monitor_signal wakes the head of the monitor's queue
unfoldable pub signal_one : RwLock → RwLock
signal_one s = elim s.waiting [
  | [] ↦ s
  | t ∷ q ↦ record (goes s t (woken (phase s t))) { waiting = q }
]

-- the loop of rw_read_lock: the thread waits, or reads
unfoldable pub read_test : RwLock → ℕ → RwLock
read_test s p =
    if s.writer_active || ltb 0 s.writers_waiting
    then wait_in s p read_waits
    else record (goes s p reads) { readers_active = s.readers_active + 1 }

unfoldable pub read_unlock : RwLock → ℕ → RwLock
unfolding signal_one
read_unlock s p =
    let s' = record (goes s p idle) { readers_active = s.readers_active - 1 } in
    if s'.readers_active == 0 then signal_one s' else s'

-- the loop of rw_write_lock: the thread waits, or writes
unfoldable pub write_test : RwLock → ℕ → RwLock
write_test s p =
    if s.writer_active || ltb 0 s.readers_active
    then wait_in s p write_waits
    else record (goes s p writes) { writers_waiting = s.writers_waiting - 1; writer_active = true }

unfoldable pub write_lock : RwLock → ℕ → RwLock
unfolding write_test
write_lock s p = write_test (record s { writers_waiting = s.writers_waiting + 1 }) p

unfoldable pub write_unlock : RwLock → ℕ → RwLock
unfolding signal_one
write_unlock s p = signal_one (record (goes s p idle) { writer_active = false })

-- The steps of the threads, in any order. A woken thread tests again.
pub data Step : RwLock → RwLock → Type 0 where
  read_lock_step :
      (s : RwLock) (p : ℕ) → p < length s.phases → phase s p ≡ idle → Step s (read_test s p)
  read_woken_step :
      (s : RwLock) (p : ℕ) → p < length s.phases → phase s p ≡ read_woken → Step s (read_test s p)
  read_unlock_step :
      (s : RwLock) (p : ℕ) → p < length s.phases → phase s p ≡ reads → Step s (read_unlock s p)
  write_lock_step :
      (s : RwLock) (p : ℕ) → p < length s.phases → phase s p ≡ idle → Step s (write_lock s p)
  write_woken_step :
      (s : RwLock) (p : ℕ) → p < length s.phases → phase s p ≡ write_woken → Step s (write_test s p)
  write_unlock_step :
      (s : RwLock) (p : ℕ) → p < length s.phases → phase s p ≡ writes → Step s (write_unlock s p)

pub data Reachable (s : RwLock) : RwLock → Type 0 where
  start : Reachable s s
  later : {t u : RwLock} → Reachable s t → Step t u → Reachable s u
