-- ===== src/Server/Tests.antt =====
-- The theorems on snfs_server/server.c for three threads: a writer, a reader that waits for it, and
-- a second writer.
use sthreads.Prelude.{ℕ, ◌≡◌, ◌⊎◌, ◌++◌, none, some, refl, false, [], ◌∷◌, arith}
use sthreads.Server.Ring.{Ring, produce, consume}
use sthreads.Server.Ring.Fifo.{IsRing, contents, produce-contents, consume-contents}
use sthreads.Server.RwLock.{
  idle, read_waits, read_woken, write_waits, RwLock, read_test, write_lock, write_test,
  write_unlock, signal_one, Reachable, read_lock_step, read_woken_step, write_lock_step, start,
  later,
}
use sthreads.Server.RwLock.Exclusion.{IsExclusive, number, Reachable-IsExclusive}
use sthreads.Server.RwLock.Starving.{Starving, Reachable-Starving}

abbrev unlocked : RwLock
unlocked = record {
  readers_active = 0;
  writer_active = false;
  writers_waiting = 0;
  waiting = [];
  phases = idle ∷ idle ∷ idle ∷ [];
}

unlocked-IsExclusive : IsExclusive unlocked
unfolding number
unlocked-IsExclusive = record {
  readers = refl;
  writers = refl;
  pending = refl;
  alone = λ h. absurd (cc h);
}

abbrev contended : RwLock
contended = write_lock (read_test (write_lock unlocked 0) 1) 2

contended-Reachable : Reachable unlocked contended
unfolding write_lock write_test read_test
contended-Reachable =
    later
      (later (later start (write_lock_step unlocked 0 (omega arith) refl))
        (read_lock_step (write_lock unlocked 0) 1 (omega arith) refl))
      (write_lock_step (read_test (write_lock unlocked 0) 1) 2 (omega arith) refl)

Reachable-IsExclusive_example : IsExclusive contended
Reachable-IsExclusive_example = Reachable-IsExclusive unlocked-IsExclusive contended-Reachable

-- The first writer leaves, wakes the reader, and asks to read before the reader runs.
abbrev starved : RwLock
starved = record {
  readers_active = 0;
  writer_active = false;
  writers_waiting = 1;
  waiting = 2 ∷ 0 ∷ [];
  phases = read_waits ∷ read_woken ∷ write_waits ∷ [];
}

starved_reached : read_test (write_unlock contended 0) 0 ≡ starved
unfolding write_unlock signal_one write_lock write_test read_test
starved_reached = refl

starved-Starving : Starving starved
unfolding number
starved-Starving = record { wanted = omega arith; none_free = refl }

Reachable-Starving_example : Starving (read_test starved 1)
Reachable-Starving_example =
    Reachable-Starving starved-Starving (later start (read_woken_step starved 1 (omega arith) refl))

-- Two requests, the second at the start of the array.
abbrev ring : Ring ℕ
ring = record {
  ring = 42 ∷ 0 ∷ 0 ∷ 0 ∷ 0 ∷ 0 ∷ 0 ∷ 0 ∷ 0 ∷ 41 ∷ [];
  get_pos = 9;
  put_pos = 1;
  available_reqs = 2;
}

ring-IsRing : IsRing ring
ring-IsRing = record { size = refl; get_in = omega arith; put_at = refl; bounded = omega arith }

produce-contents_example :
    ((ring.available_reqs ≡ 10) × (produce 0 43 ring ≡ none))
    ⊎ ((r : Ring ℕ) × (produce 0 43 ring ≡ some r)
        × IsRing r
        × (contents 0 r ≡ contents 0 ring ++ (43 ∷ [])))
produce-contents_example = produce-contents 0 43 ring ring-IsRing

consume-contents_example :
    ((contents 0 ring ≡ []) × (consume 0 ring ≡ none))
    ⊎ ((x : ℕ) × (r : Ring ℕ) × (consume 0 ring ≡ some (x, r))
        × IsRing r
        × (contents 0 ring ≡ x ∷ contents 0 r))
consume-contents_example = consume-contents 0 ring ring-IsRing
