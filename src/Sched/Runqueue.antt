-- ===== src/Sched/Runqueue.antt =====
-- The runqueues of sthread_lib/sthread_user.c: an array of FIFO queues, one for each priority.
-- A `queue_t` is the list of the threads in it, first to last; the linked cells of queue.c are in
-- Sched.ThreadQueue.
pub mod Counting
pub mod Choice
pub mod Filing
use sthreads.Prelude.{
  ℕ, zero, suc, ◌+◌, ◌≡◌, Bool, true, false, Option, none, some, List, [], ◌∷◌, ◌++◌, replicate,
}
use sthreads.Sched.Thread.{Thread, Memory, num_priorities}

abbrev pub Queue : Type 0
Queue = List ℕ

abbrev pub Runqueue : Type 0
Runqueue = List Queue

abbrev pub queue_insert : Queue → ℕ → Queue
queue_insert q t = q ++ t ∷ []

abbrev pub queue_is_empty : Queue → Bool
queue_is_empty [] = true
queue_is_empty (t ∷ q) = false

unfoldable pub criar_runqueue : Runqueue
criar_runqueue = replicate num_priorities []

-- `queue_insert(rq->filas[i], t)`. Past the array nothing is inserted; `IsFiled` rules that out.
unfoldable pub insert_at : Runqueue → ℕ → ℕ → Runqueue
insert_at [] i t = []
insert_at (q ∷ rq) zero t = queue_insert q t ∷ rq
insert_at (q ∷ rq) (suc i) t = q ∷ insert_at rq i t

unfoldable pub rq_inserir : Memory → Runqueue → ℕ → Runqueue
rq_inserir m rq t = insert_at rq (m t).priority t

-- the thread taken, and the runqueue that it leaves
unfoldable pub rq_retirar : Runqueue → Option (ℕ × Runqueue)
rq_retirar [] = none
rq_retirar ((t ∷ q) ∷ rq) = some (t, q ∷ rq)
rq_retirar ([] ∷ rq) = elim (rq_retirar rq) [ none ↦ none | some (t, rq') ↦ some (t, [] ∷ rq') ]

-- The C function returns -1 where this is `none`.
melhor_prio_from : ℕ → Runqueue → Option ℕ
melhor_prio_from i [] = none
melhor_prio_from i ([] ∷ rq) = melhor_prio_from (suc i) rq
melhor_prio_from i ((t ∷ q) ∷ rq) = some i

unfoldable pub rq_melhor_prio : Runqueue → Option ℕ
unfolding melhor_prio_from
rq_melhor_prio rq = melhor_prio_from 0 rq

unfoldable pub rq_vazia : Runqueue → Bool
rq_vazia rq = elim (rq_melhor_prio rq) [ none ↦ true | some i ↦ false ]
