-- ===== src/Server/RwLock/Starving.antt =====
-- A wake-up of the readers-writers lock of snfs_server/server.c that a reader takes while a writer
-- waits is lost.
use sthreads.Prelude.{
  ℕ, zero, suc, ◌<◌, ◌≡◌, Bool, true, false, ◌||◌, List, [], ◌∷◌, arith, length, ltb, get_or, ap,
}
use sthreads.Server.RwLock.{
  Phase, idle, read_waits, read_woken, write_waits, RwLock, phase, read_test, Step, Reachable,
  read_lock_step, read_woken_step, read_unlock_step, write_lock_step, write_woken_step,
  write_unlock_step, start, later,
}
use sthreads.Server.RwLock.Exclusion.{number, moved}

-- A thread that is not in the monitor's queue and not a woken reader.
abbrev pub is_free : Phase → Bool
is_free read_waits = false
is_free read_woken = false
is_free write_waits = false
is_free x = true

-- Writers wait, nobody holds the lock, and there is no other thread that could take it.
pub record Starving (s : RwLock) : Type 0 where
  pub wanted : 0 < s.writers_waiting
  pub none_free : number is_free s.phases ≡ 0

number-positive :
    (f : Phase → Bool) (xs : List Phase) (p : ℕ)
    → p < length xs
    → f (get_or xs p idle) ≡ true
    → 0 < number f xs
unfolding number
number-positive f [] p h e = absurd (omega arith)
number-positive f (x ∷ xs) zero h e = ground (arith, e)
number-positive f (x ∷ xs) (suc p) h e = omega (arith, number-positive f xs p (omega arith) e)

not_free :
    {A : Type 0} (s : RwLock) (p : ℕ)
    → p < length s.phases
    → is_free (phase s p) ≡ true
    → Starving s
    → A
not_free s p h e v = absurd (omega (arith, number-positive is_free s.phases p h e, v.none_free))

Step-Starving : {s u : RwLock} → Step s u → Starving s → Starving u
unfolding read_test
Step-Starving (read_lock_step s p h e) v = not_free s p h (ap is_free e) v
Step-Starving (read_woken_step s p h e) v =
    let t : (s.writer_active || ltb 0 s.writers_waiting) ≡ true = ground (arith, v.wanted) in
    rw t (record {
      wanted = v.wanted;
      none_free = omega (arith, moved s p h read_woken read_waits e is_free, v.none_free);
    })
Step-Starving (read_unlock_step s p h e) v = not_free s p h (ap is_free e) v
Step-Starving (write_lock_step s p h e) v = not_free s p h (ap is_free e) v
Step-Starving (write_woken_step s p h e) v = not_free s p h (ap is_free e) v
Step-Starving (write_unlock_step s p h e) v = not_free s p h (ap is_free e) v

-- Once writers wait at the readers-writers lock and every thread is in the monitor's queue or a
-- reader that was woken, it stays so whatever the threads do: no request is served again.
pub Reachable-Starving : {s u : RwLock} → Starving s → Reachable s u → Starving u
Reachable-Starving v start = v
Reachable-Starving v (later r t) = Step-Starving t (Reachable-Starving v r)
