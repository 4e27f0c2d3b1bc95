-- ===== src/Server/RwLock/Exclusion.antt =====
-- Who may hold the readers-writers lock of snfs_server/server.c at one time.
use sthreads.Prelude.{
  ℕ, zero, suc, ◌+◌, ◌-◌, ◌<◌, ◌≡◌, refl, Bool, true, false, ◌||◌, List, [], ◌∷◌, inl, inr, arith,
  length, ltb, ◌==◌, get_or, set, Bool-cases, ap, ◌∙◌, subst,
}
use sthreads.Server.RwLock.{
  Phase, idle, read_waits, read_woken, reads, write_waits, write_woken, writes, RwLock, phase, goes,
  woken, signal_one, read_test, read_unlock, write_test, write_lock, write_unlock, Step, Reachable,
  read_lock_step, read_woken_step, read_unlock_step, write_lock_step, write_woken_step,
  write_unlock_step, start, later,
}

abbrev pub one : Bool → ℕ
one true = 1
one false = 0

unfoldable pub number : (Phase → Bool) → List Phase → ℕ
number f [] = 0
number f (x ∷ xs) = one (f x) + number f xs

pub number-set :
    (f : Phase → Bool) (xs : List Phase) (p : ℕ) (x : Phase)
    → p < length xs
    → number f (set xs p x) + one (f (get_or xs p idle)) ≡ number f xs + one (f x)
unfolding number
number-set f [] p x h = absurd (omega arith)
number-set f (y ∷ xs) zero x h = omega arith
number-set f (y ∷ xs) (suc p) x h = omega (arith, number-set f xs p x (omega arith))

abbrev pub is_reader : Phase → Bool
is_reader reads = true
is_reader x = false

abbrev pub is_writer : Phase → Bool
is_writer writes = true
is_writer x = false

-- A writer that has asked for the lock and does not hold it.
abbrev pub is_pending : Phase → Bool
is_pending write_waits = true
is_pending write_woken = true
is_pending x = false

-- The counters are exact, and a writer is alone.
pub record IsExclusive (s : RwLock) : Type 0 where
  pub readers : number is_reader s.phases ≡ s.readers_active
  pub writers : number is_writer s.phases ≡ one s.writer_active
  pub pending : number is_pending s.phases ≡ s.writers_waiting
  pub alone : s.writer_active ≡ true → s.readers_active ≡ 0

-- What a thread that goes from one phase to another adds to the counters.
module _ (s : RwLock) (p : ℕ) (h : p < length s.phases) (x y : Phase) (e : phase s p ≡ x) where
  pub moved :
      (f : Phase → Bool) → number f (set s.phases p y) + one (f x) ≡ number f s.phases + one (f y)
  moved f =
      subst (λ x. number f (set s.phases p y) + one (f x) ≡ number f s.phases + one (f y)) e
        (number-set f s.phases p y h)

read_test-IsExclusive :
    (s : RwLock) (p : ℕ) (x : Phase)
    → p < length s.phases
    → phase s p ≡ x
    → is_reader x ≡ false
    → is_writer x ≡ false
    → is_pending x ≡ false
    → IsExclusive s
    → IsExclusive (read_test s p)
unfolding read_test
read_test-IsExclusive s p x h e a b c v =
    elim (Bool-cases (s.writer_active || ltb 0 s.writers_waiting)) [
      | inl t ↦ rw t (record {
        readers = ground (arith, moved s p h x read_waits e is_reader, a, v.readers);
        writers = ground (arith, moved s p h x read_waits e is_writer, b, v.writers);
        pending = ground (arith, moved s p h x read_waits e is_pending, c, v.pending);
        alone = v.alone;
      })
      | inr t ↦ rw t (record {
        readers = ground (arith, moved s p h x reads e is_reader, a, v.readers);
        writers = ground (arith, moved s p h x reads e is_writer, b, v.writers);
        pending = ground (arith, moved s p h x reads e is_pending, c, v.pending);
        alone = λ w. absurd (ground (arith, w, t));
      })
    ]

-- `x` is the phase of a thread whose wish to write is counted, in the phases or not yet.
write_test-IsExclusive :
    (s : RwLock) (p : ℕ) (x : Phase)
    → p < length s.phases
    → phase s p ≡ x
    → is_reader x ≡ false
    → is_writer x ≡ false
    → number is_reader s.phases ≡ s.readers_active
    → number is_writer s.phases ≡ one s.writer_active
    → number is_pending s.phases + 1 ≡ s.writers_waiting + one (is_pending x)
    → (s.writer_active ≡ true → s.readers_active ≡ 0)
    → IsExclusive (write_test s p)
unfolding write_test
write_test-IsExclusive s p x h e a b r w c alone =
    elim (Bool-cases (s.writer_active || ltb 0 s.readers_active)) [
      | inl t ↦ rw t (record {
        readers = ground (arith, moved s p h x write_waits e is_reader, a, r);
        writers = ground (arith, moved s p h x write_waits e is_writer, b, w);
        pending = ground (arith, moved s p h x write_waits e is_pending, c);
        alone = alone;
      })
      | inr t ↦ rw t (record {
        readers = ground (arith, moved s p h x writes e is_reader, a, r);
        writers = ground (arith, moved s p h x writes e is_writer, b, w, t);
        pending = ground (arith, moved s p h x writes e is_pending, c);
        alone = λ _. ground (arith, t);
      })
    ]

woken_same :
    (f : Phase → Bool) (s : RwLock) (t : ℕ)
    → ((x : Phase) → f (woken x) ≡ f x)
    → number f (set s.phases t (woken (phase s t))) ≡ number f s.phases
unfolding number
woken_same f s t h = go s.phases t
  where
    go : (xs : List Phase) (t : ℕ) → number f (set xs t (woken (get_or xs t idle))) ≡ number f xs
    go [] t = refl
    go (x ∷ xs) zero = ap (λ b. one b + number f xs) (h x)
    go (x ∷ xs) (suc t) = ap (λ n. one (f x) + n) (go xs t)

woken_reader : (x : Phase) → is_reader (woken x) ≡ is_reader x
woken_reader idle = refl
woken_reader read_waits = refl
woken_reader read_woken = refl
woken_reader reads = refl
woken_reader write_waits = refl
woken_reader write_woken = refl
woken_reader writes = refl

woken_writer : (x : Phase) → is_writer (woken x) ≡ is_writer x
woken_writer idle = refl
woken_writer read_waits = refl
woken_writer read_woken = refl
woken_writer reads = refl
woken_writer write_waits = refl
woken_writer write_woken = refl
woken_writer writes = refl

woken_pending : (x : Phase) → is_pending (woken x) ≡ is_pending x
woken_pending idle = refl
woken_pending read_waits = refl
woken_pending read_woken = refl
woken_pending reads = refl
woken_pending write_waits = refl
woken_pending write_woken = refl
woken_pending writes = refl

signal_one-IsExclusive : (s : RwLock) → IsExclusive s → IsExclusive (signal_one s)
unfolding signal_one
signal_one-IsExclusive s v = go s.waiting
  where
    go :
        (q : List ℕ)
        → IsExclusive
            (elim q [ [] ↦ s | t ∷ q ↦ record (goes s t (woken (phase s t))) { waiting = q } ])
    go [] = v
    go (t ∷ q) = record {
      readers = woken_same is_reader s t woken_reader ∙ v.readers;
      writers = woken_same is_writer s t woken_writer ∙ v.writers;
      pending = woken_same is_pending s t woken_pending ∙ v.pending;
      alone = v.alone;
    }

read_unlock-IsExclusive :
    (s : RwLock) (p : ℕ)
    → p < length s.phases
    → phase s p ≡ reads
    → IsExclusive s
    → IsExclusive (read_unlock s p)
unfolding read_unlock
read_unlock-IsExclusive s p h e v = elim (Bool-cases ((s.readers_active - 1) == 0)) [
  | inl t ↦ rw t (
      signal_one-IsExclusive (record (goes s p idle) { readers_active = s.readers_active - 1 })
        left)
  | inr t ↦ rw t left
]
  where
    left : IsExclusive (record (goes s p idle) { readers_active = s.readers_active - 1 })
    left = record {
      readers = ground (arith, moved s p h reads idle e is_reader, v.readers);
      writers = ground (arith, moved s p h reads idle e is_writer, v.writers);
      pending = ground (arith, moved s p h reads idle e is_pending, v.pending);
      alone = λ w. omega (arith, v.alone w);
    }

write_unlock-IsExclusive :
    (s : RwLock) (p : ℕ)
    → p < length s.phases
    → phase s p ≡ writes
    → IsExclusive s
    → IsExclusive (write_unlock s p)
unfolding write_unlock
write_unlock-IsExclusive s p h e v =
    signal_one-IsExclusive (record (goes s p idle) { writer_active = false })
      (record {
        readers = ground (arith, moved s p h writes idle e is_reader, v.readers);
        writers = elim (Bool-cases s.writer_active) [
          | inl w ↦ ground (arith, moved s p h writes idle e is_writer, v.writers, w)
          | inr w ↦ ground (arith, moved s p h writes idle e is_writer, v.writers, w)
        ];
        pending = ground (arith, moved s p h writes idle e is_pending, v.pending);
        alone = λ w. absurd (cc w);
      })

pub Step-IsExclusive : {s u : RwLock} → Step s u → IsExclusive s → IsExclusive u
unfolding write_lock
Step-IsExclusive (read_lock_step s p h e) v = read_test-IsExclusive s p idle h e refl refl refl v
Step-IsExclusive (read_woken_step s p h e) v =
    read_test-IsExclusive s p read_woken h e refl refl refl v
Step-IsExclusive (read_unlock_step s p h e) v = read_unlock-IsExclusive s p h e v
Step-IsExclusive (write_lock_step s p h e) v =
    write_test-IsExclusive (record s { writers_waiting = s.writers_waiting + 1 }) p idle h e refl
      refl v.readers v.writers (omega (arith, v.pending)) v.alone
Step-IsExclusive (write_woken_step s p h e) v =
    write_test-IsExclusive s p write_woken h e refl refl v.readers v.writers
      (omega (arith, v.pending)) v.alone
Step-IsExclusive (write_unlock_step s p h e) v = write_unlock-IsExclusive s p h e v

-- From a state of the readers-writers lock with exact counters and a writer alone, every order of
-- the threads' steps leads to such states only: no two writers and no writer with a reader.
pub Reachable-IsExclusive : {s u : RwLock} → IsExclusive s → Reachable s u → IsExclusive u
Reachable-IsExclusive v start = v
Reachable-IsExclusive v (later r t) = Step-IsExclusive t (Reachable-IsExclusive v r)
