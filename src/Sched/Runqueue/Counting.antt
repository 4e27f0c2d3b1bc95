-- ===== src/Sched/Runqueue/Counting.antt =====
-- How often a thread stands in a runqueue, and what insertion and removal do to it.
use sthreads.Prelude.{
  ℕ, zero, suc, ◌+◌, ◌<◌, ◌≡◌, refl, some, [], ◌∷◌, arith, length, one_if, count, count-append,
  Option-cases, inl, inr,
}
use sthreads.Sched.Runqueue.{Runqueue, insert_at, rq_retirar, criar_runqueue}

abbrev pub rq_count : ℕ → Runqueue → ℕ
rq_count p [] = 0
rq_count p (q ∷ rq) = count p q + rq_count p rq

pub length-insert_at : (rq : Runqueue) (i t : ℕ) → length (insert_at rq i t) ≡ length rq
unfolding insert_at
length-insert_at [] i t = refl
length-insert_at (q ∷ rq) zero t = refl
length-insert_at (q ∷ rq) (suc i) t = omega (arith, length-insert_at rq i t)

pub count-insert_at :
    (p : ℕ) (rq : Runqueue) (i t : ℕ)
    → i < length rq
    → rq_count p (insert_at rq i t) ≡ one_if p t + rq_count p rq
unfolding insert_at
count-insert_at p [] i t h = absurd (omega arith)
count-insert_at p (q ∷ rq) zero t h = omega (arith, count-append p q (t ∷ []))
count-insert_at p (q ∷ rq) (suc i) t h = omega (arith, count-insert_at p rq i t)

-- One thread leaves, and nothing else changes.
pub count-rq_retirar :
    (p : ℕ) (rq : Runqueue) (t : ℕ) (rq' : Runqueue)
    → rq_retirar rq ≡ some (t, rq')
    → (rq_count p rq ≡ one_if p t + rq_count p rq') × (length rq' ≡ length rq)
unfolding rq_retirar
count-rq_retirar p [] t rq' e = cc
count-rq_retirar p ((x ∷ q) ∷ rq) t rq' e = ground arith
count-rq_retirar p ([] ∷ rq) t rq' e = elim (Option-cases (rq_retirar rq)) [
  | inl n ↦ ground arith
  | inr ((x, r), n) ↦ ground (arith, count-rq_retirar p rq x r n)
]

pub count-criar_runqueue : (p : ℕ) → rq_count p criar_runqueue ≡ 0
unfolding criar_runqueue
count-criar_runqueue p = refl
