-- ===== src/Sched/Runqueue/Choice.antt =====
-- Which thread `rq_retirar` takes, against what `rq_melhor_prio` and `rq_vazia` tell.
use sthreads.Prelude.{
  ℕ, zero, suc, ◌+◌, ◌<◌, ◌≡◌, refl, ◌⊎◌, inl, inr, true, false, none, some, ◌≢◌, length, [], ◌∷◌,
  arith, get_or, set, take, ap, ◌∙◌,
}
use sthreads.Sched.Runqueue.{
  Queue, Runqueue, insert_at, rq_retirar, melhor_prio_from, rq_melhor_prio, rq_vazia,
}

abbrev pub AllEmpty : Runqueue → Type 0
AllEmpty [] = Unit
AllEmpty (q ∷ rq) = (q ≡ []) × AllEmpty rq

-- No queue holds a thread, and all three say so.
record Exhausted (j : ℕ) (rq : Runqueue) : Type 0 where
  pub empty : AllEmpty rq
  pub none_best : melhor_prio_from j rq ≡ none
  pub none_taken : rq_retirar rq ≡ none

-- The queue at `i` is the first that holds a thread, and its head is taken.
record TakenAt (j : ℕ) (rq : Runqueue) (i t : ℕ) (q : Queue) : Type 0 where
  pub found : get_or rq i [] ≡ t ∷ q
  pub above : AllEmpty (take i rq)
  pub best : melhor_prio_from j rq ≡ some (i + j)
  pub taken : rq_retirar rq ≡ some (t, set rq i q)

Taken : ℕ → Runqueue → Type 0
Taken j rq = Exhausted j rq ⊎ ((i : ℕ) × (t : ℕ) × (q : Queue) × TakenAt j rq i t q)

Taken-cons : (j : ℕ) (rq : Runqueue) → Taken (suc j) rq → Taken j ([] ∷ rq)
unfolding Taken melhor_prio_from rq_retirar
Taken-cons j rq (inl x) = inl (record {
  empty = (refl, x.empty);
  none_best = x.none_best;
  none_taken = ground (arith, x.none_taken);
})
Taken-cons j rq (inr (i, t, q, x)) = inr (
  suc i,
  t,
  q,
  record {
    found = x.found;
    above = (refl, x.above);
    best = ground (arith, x.best);
    taken = ground (arith, x.taken);
  },
)

retirar_from : (j : ℕ) (rq : Runqueue) → Taken j rq
unfolding Taken melhor_prio_from rq_retirar
retirar_from j [] = inl (record { empty = tt; none_best = refl; none_taken = refl })
retirar_from j ((t ∷ q) ∷ rq) =
    inr (0, t, q, record { found = refl; above = tt; best = ground arith; taken = refl })
retirar_from j ([] ∷ rq) = Taken-cons j rq (retirar_from (suc j) rq)

-- Rq_retirar takes the head of the first queue that is not empty and leaves the rest,
-- rq_melhor_prio gives the index of that queue, and on an empty runqueue both give nothing.
pub rq_retirar-rq_melhor_prio :
    (rq : Runqueue)
    → (AllEmpty rq × (rq_melhor_prio rq ≡ none) × (rq_retirar rq ≡ none))
      ⊎ ((i : ℕ) × (t : ℕ) × (q : Queue) × (get_or rq i [] ≡ t ∷ q)
          × AllEmpty (take i rq)
          × (rq_melhor_prio rq ≡ some i)
          × (rq_retirar rq ≡ some (t, set rq i q)))
unfolding Taken rq_melhor_prio
rq_retirar-rq_melhor_prio rq = elim (retirar_from 0 rq) [
  | inl x ↦ inl (x.empty, x.none_best, x.none_taken)
  | inr (i, t, q, x) ↦ inr (i, t, q, x.found, x.above, x.best ∙ ap some (omega arith), x.taken)
]

-- `rq_vazia` is true exactly where `rq_retirar` returns NULL.
pub rq_vazia-rq_retirar :
    (rq : Runqueue)
    → ((rq_vazia rq ≡ true) × (rq_retirar rq ≡ none))
      ⊎ ((rq_vazia rq ≡ false) × ((t : ℕ) × (rq' : Runqueue) × (rq_retirar rq ≡ some (t, rq'))))
unfolding rq_vazia
rq_vazia-rq_retirar rq = elim (rq_retirar-rq_melhor_prio rq) [
  | inl (_, b, e) ↦ inl (rw (b, rq_vazia), e)
  | inr (i, t, q, _, _, b, e) ↦ inr (rw (b, rq_vazia), (t, set rq i q, e))
]

melhor_prio_from-insert_at :
    (j i t : ℕ) (rq : Runqueue) → i < length rq → melhor_prio_from j (insert_at rq i t) ≢ none
unfolding melhor_prio_from insert_at
melhor_prio_from-insert_at j i t [] h = absurd (omega arith)
melhor_prio_from-insert_at j zero t ([] ∷ rq) h = λ e. cc
melhor_prio_from-insert_at j zero t ((x ∷ q) ∷ rq) h = λ e. cc
melhor_prio_from-insert_at j (suc i) t ([] ∷ rq) h =
    melhor_prio_from-insert_at (suc j) i t rq (omega arith)
melhor_prio_from-insert_at j (suc i) t ((x ∷ q) ∷ rq) h = λ e. cc

-- A runqueue is not empty once a thread is inserted.
pub rq_vazia-insert_at :
    (i t : ℕ) (rq : Runqueue) → i < length rq → rq_vazia (insert_at rq i t) ≡ false
unfolding rq_vazia rq_melhor_prio
rq_vazia-insert_at i t rq h = ground (arith, melhor_prio_from-insert_at 0 i t rq h)
