-- ===== src/Sched/Runqueue/Filing.antt =====
-- The threads of a runqueue stand in the queues of their priorities.
use sthreads.Prelude.{
  ℕ, zero, suc, ◌+◌, ◌<◌, ◌≤◌, ◌≡◌, refl, inl, inr, none, some, [], ◌∷◌, ◌++◌, arith, count,
  Option-cases,
}
use sthreads.Sched.Thread.{Thread, Memory, update}
use sthreads.Sched.Runqueue.{
  Queue, Runqueue, insert_at, rq_retirar, melhor_prio_from, rq_melhor_prio,
}
use sthreads.Sched.Runqueue.Counting.{rq_count}

abbrev pub HavePriority : Memory → ℕ → Queue → Type 0
HavePriority m i [] = Unit
HavePriority m i (t ∷ q) = ((m t).priority ≡ i) × HavePriority m i q

-- The queues are those of the priorities `i`, `i + 1` and so on.
abbrev pub IsFiled : Memory → ℕ → Runqueue → Type 0
IsFiled m i [] = Unit
IsFiled m i (q ∷ rq) = HavePriority m i q × IsFiled m (suc i) rq

HavePriority-append :
    (m : Memory) (i t : ℕ) (q : Queue)
    → (m t).priority ≡ i
    → HavePriority m i q
    → HavePriority m i (q ++ t ∷ [])
HavePriority-append m i t [] e h = (e, tt)
HavePriority-append m i t (x ∷ q) e h = (h.0, HavePriority-append m i t q e h.1)

HavePriority-update :
    (m : Memory) (i p : ℕ) (t : Thread) (q : Queue)
    → count p q ≡ 0
    → HavePriority m i q
    → HavePriority (update m p t) i q
HavePriority-update m i p t [] e h = tt
HavePriority-update m i p t (x ∷ q) e h =
    (ground (arith, h.0), HavePriority-update m i p t q (omega arith) h.1)

priority_of_count :
    (m : Memory) (i p : ℕ) (q : Queue) → HavePriority m i q → 0 < count p q → (m p).priority ≡ i
priority_of_count m i p [] h n = absurd (omega arith)
priority_of_count m i p (x ∷ q) h n = ground (arith, h.0, priority_of_count m i p q h.1)

pub IsFiled-insert_at :
    (m : Memory) (i j t : ℕ) (rq : Runqueue)
    → (m t).priority ≡ i + j
    → IsFiled m i rq
    → IsFiled m i (insert_at rq j t)
unfolding insert_at
IsFiled-insert_at m i j t [] e h = tt
IsFiled-insert_at m i zero t (q ∷ rq) e h = (HavePriority-append m i t q (omega arith) h.0, h.1)
IsFiled-insert_at m i (suc j) t (q ∷ rq) e h =
    (h.0, IsFiled-insert_at m (suc i) j t rq (omega arith) h.1)

pub IsFiled-update :
    (m : Memory) (i p : ℕ) (t : Thread) (rq : Runqueue)
    → rq_count p rq ≡ 0
    → IsFiled m i rq
    → IsFiled (update m p t) i rq
IsFiled-update m i p t [] e h = tt
IsFiled-update m i p t (q ∷ rq) e h = (
  HavePriority-update m i p t q (omega arith) h.0,
  IsFiled-update m (suc i) p t rq (omega arith) h.1,
)

pub IsFiled-rq_retirar :
    (m : Memory) (i t : ℕ) (rq rq' : Runqueue)
    → rq_retirar rq ≡ some (t, rq')
    → IsFiled m i rq
    → IsFiled m i rq'
unfolding rq_retirar
IsFiled-rq_retirar m i t [] rq' e h = cc
IsFiled-rq_retirar m i t ((x ∷ q) ∷ rq) rq' e h = ground (arith, h.0, h.1)
IsFiled-rq_retirar m i t ([] ∷ rq) rq' e h = elim (Option-cases (rq_retirar rq)) [
  | inl n ↦ ground arith
  | inr ((x, r), n) ↦ ground (arith, IsFiled-rq_retirar m (suc i) x rq r n h.1)
]

priority_from :
    (m : Memory) (i p : ℕ) (rq : Runqueue) → IsFiled m i rq → 0 < rq_count p rq → i ≤ (m p).priority
priority_from m i p [] h n = absurd (omega arith)
priority_from m i p (q ∷ rq) h n =
    ground (arith, priority_of_count m i p q h.0, priority_from m (suc i) p rq h.1)

-- No thread of a filed runqueue has a better priority than the one that is taken.
pub priority-rq_retirar :
    (m : Memory) (i t p : ℕ) (rq rq' : Runqueue)
    → rq_retirar rq ≡ some (t, rq')
    → IsFiled m i rq
    → 0 < rq_count p rq
    → (m t).priority ≤ (m p).priority
unfolding rq_retirar
priority-rq_retirar m i t p [] rq' e h n = absurd (omega arith)
priority-rq_retirar m i t p ((x ∷ q) ∷ rq) rq' e h n =
    ground (arith, h.0.0, priority_of_count m i p (x ∷ q) h.0, priority_from m (suc i) p rq h.1)
priority-rq_retirar m i t p ([] ∷ rq) rq' e h n = elim (Option-cases (rq_retirar rq)) [
  | inl o ↦ ground arith
  | inr ((x, r), o) ↦ ground (arith, priority-rq_retirar m (suc i) x p rq r o h.1 (omega arith))
]

-- The best priority that is reported bounds those of all threads in a filed runqueue.
melhor_prio_from-bound :
    (m : Memory) (j i p : ℕ) (rq : Runqueue)
    → melhor_prio_from j rq ≡ some i
    → IsFiled m j rq
    → 0 < rq_count p rq
    → i ≤ (m p).priority
unfolding melhor_prio_from
melhor_prio_from-bound m j i p [] e h n = absurd (omega arith)
melhor_prio_from-bound m j i p ([] ∷ rq) e h n =
    melhor_prio_from-bound m (suc j) i p rq e h.1 (omega arith)
melhor_prio_from-bound m j i p ((x ∷ q) ∷ rq) e h n =
    ground (arith, e, priority_from m j p ((x ∷ q) ∷ rq) h)

melhor_prio_from-none : (j p : ℕ) (rq : Runqueue) → melhor_prio_from j rq ≡ none → rq_count p rq ≡ 0
unfolding melhor_prio_from
melhor_prio_from-none j p [] e = refl
melhor_prio_from-none j p ([] ∷ rq) e = omega (arith, melhor_prio_from-none (suc j) p rq e)
melhor_prio_from-none j p ((x ∷ q) ∷ rq) e = cc

pub rq_melhor_prio-bound :
    (m : Memory) (i p : ℕ) (rq : Runqueue)
    → rq_melhor_prio rq ≡ some i
    → IsFiled m 0 rq
    → 0 < rq_count p rq
    → i ≤ (m p).priority
unfolding rq_melhor_prio
rq_melhor_prio-bound m i p rq = melhor_prio_from-bound m 0 i p rq

pub rq_melhor_prio-none : (p : ℕ) (rq : Runqueue) → rq_melhor_prio rq ≡ none → rq_count p rq ≡ 0
unfolding rq_melhor_prio
rq_melhor_prio-none p rq = melhor_prio_from-none 0 p rq
