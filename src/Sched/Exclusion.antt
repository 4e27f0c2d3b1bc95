-- ===== src/Sched/Exclusion.antt =====
-- What the mutexes of sthread_lib/sthread_user.c promise: one owner, first come first served, and
-- a spin lock that no call leaves taken.
use sthreads.Prelude.{
  ℕ, ◌≡◌, refl, true, false, none, some, [], ◌∷◌, ◌++◌, arith, inl, inr, ltb, Option-cases, ◌⊎◌,
  if◌then◌else◌, Bool-cases,
}
use sthreads.Sched.Runqueue.{Queue}
use sthreads.Sched.State.{
  Sched, done, IfDone, IfDone-if, IfDone->>=, IfDone-all, dispatch, switch_to_best, ready,
}
use sthreads.Sched.Mutex.{
  Mutex, mutex_init, test_and_set, recalc_active, note_blocked, note_unblocked, lock_taken, lock,
  hand_over, unlock_taken, unlock, owned_by,
}

-- The mutex after `p` asked for it: a free one is its own, else it waits behind the others.
abbrev pub after_lock : ℕ → Mutex → Mutex
after_lock p m = elim m.owner [
  | none ↦ record m { owner = some p }
  | some o ↦ record m { queue = m.queue ++ p ∷ [] }
]

-- The mutex after `p` gave it up: the thread that waited longest owns it. Nothing changes if `p`
-- was not the owner.
abbrev pub pass_on : Mutex → Mutex
pass_on m = elim m.queue [
  | [] ↦ record m { owner = none }
  | t ∷ q ↦ record m { owner = some t; queue = q }
]

abbrev pub after_unlock : ℕ → Mutex → Mutex
after_unlock p m = if owned_by m p then pass_on m else m

-- Between two calls the spin lock is free, and nobody waits for a mutex that is free.
pub record Settled (m : Mutex) : Type 0 where
  pub spin_free : m.l ≡ false
  pub no_waiter : m.owner ≡ none → m.queue ≡ []

pub mutex_init-Settled : Settled mutex_init
unfolding mutex_init
mutex_init-Settled = record { spin_free = refl; no_waiter = λ e. refl }

pub after_lock-Settled : (p : ℕ) (m : Mutex) → Settled m → Settled (after_lock p m)
after_lock-Settled p m h = ground (arith, h.no_waiter)

pub after_unlock-Settled : (p : ℕ) (m : Mutex) → Settled m → Settled (after_unlock p m)
after_unlock-Settled p m h = ground (arith, h.no_waiter)

test_and_set-free : (m : Mutex) → m.l ≡ false → test_and_set m ≡ done (record m { l = true })
unfolding test_and_set
test_and_set-free m e = rw e

-- A lock of a settled mutex makes the caller the owner of a free mutex and the last in the queue
-- of a held one, and frees the spin lock.
pub lock-after_lock :
    (m : Mutex) (s : Sched) → Settled m → IfDone (λ r. r.0 ≡ after_lock s.active_thr m) (lock m s)
unfolding lock
lock-after_lock m s h = rw (test_and_set-free m h.spin_free) (elim (Option-cases m.owner) [
  | inl o ↦ rw (o, lock_taken) (ground (arith, h.spin_free))
  | inr (x, o) ↦
      rw (o, lock_taken)
        (IfDone->>= (λ (u : Sched). Unit {0})
          (λ r. r.0 ≡ after_lock s.active_thr (record m { owner = some x }))
          (dispatch (note_blocked (recalc_active s))) _ (IfDone-all _ _ (λ u. tt))
          (λ u _. ground (arith, h.spin_free)))
])

-- A lock on a free mutex returns at once, with the scheduler as it was.
pub lock-free :
    (m : Mutex) (s : Sched)
    → Settled m
    → m.owner ≡ none
    → lock m s ≡ done (after_lock s.active_thr m, s)
unfolding lock
lock-free m s h o =
    rw (test_and_set-free m h.spin_free) (rw (o, lock_taken) (ground (arith, h.spin_free)))

hand_over-after :
    (m : Mutex) (t : ℕ) (q : Queue) (s : Sched)
    → m.l ≡ false
    → IfDone
        (λ r. r.0 ≡ record m { owner = some t; queue = q })
        (hand_over (record m { l = true }) t q s)
unfolding hand_over ready
hand_over-after m t q s h =
    let s' = ready (note_unblocked s t) t in
    IfDone-if (λ r. r.0 ≡ record m { owner = some t; queue = q })
      (ltb (s'.thr t).priority (s'.thr s'.active_thr).priority) _ _
      (λ _.
        IfDone->>= (λ (u : Sched). Unit {0}) (λ r. r.0 ≡ record m { owner = some t; queue = q })
          (switch_to_best (ready s' s'.active_thr)) _ (IfDone-all _ _ (λ u. tt))
          (λ u _. ground arith))
      (λ _. ground arith)

unlock_taken-after :
    (m : Mutex) (q : Queue) (s : Sched)
    → m.queue ≡ q
    → m.l ≡ false
    → IfDone (λ r. r.0 ≡ pass_on m) (unlock_taken (record m { l = true }) s)
unfolding unlock_taken
unlock_taken-after m [] s e h = rw (e, unlock_taken) (ground arith)
unlock_taken-after m (t ∷ q) s e h = rw (e, unlock_taken) (hand_over-after m t q s h)

-- An unlock of a settled mutex that ends has made the longest waiting thread the owner, or freed
-- the mutex, if it was called by the owner, and left the mutex as it was otherwise, with the spin
-- lock free; an unlock by another thread ends, and changes neither the mutex nor the scheduler.
pub unlock-after_unlock :
    (m : Mutex) (s : Sched)
    → Settled m
    → IfDone (λ r. r.0 ≡ after_unlock s.active_thr m) (unlock m s)
      × ((owned_by m s.active_thr ≡ true) ⊎ (unlock m s ≡ done (m, s, false)))
unfolding unlock
unlock-after_unlock m s h = elim (Bool-cases (owned_by m s.active_thr)) [
  | inl o ↦ (
    rw (o, test_and_set-free m h.spin_free) (unlock_taken-after m m.queue s refl h.spin_free),
    inl o,
  )
  | inr o ↦ (rw o refl, inr (rw o refl))
]

-- An unlock that returns has passed the mutex on.
pub unlock-pass_on :
    (m : Mutex) (s : Sched)
    → owned_by m s.active_thr ≡ true
    → IfDone (λ r. r.0 ≡ pass_on m) (unlock m s)
unfolding unlock
unlock-pass_on m s o = elim (Bool-cases m.l) [
  | inl t ↦ rw (o, test_and_set, t) tt
  | inr f ↦ rw (o, test_and_set-free m f) (unlock_taken-after m m.queue s refl f)
]
