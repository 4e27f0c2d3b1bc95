-- ===== src/Sched/ThreadQueue/Tests.antt =====
-- The theorems on sthread_lib/queue.c for a queue of two threads with a cell that is kept.
use sthreads.Prelude.{ℕ, ◌≡◌, ◌≢◌, refl, some, none, [], ◌∷◌, arith, ◌==◌, if◌then◌else◌}
use sthreads.Cells.{cell, Heap, done}
use sthreads.Cells.Chain.{Links, ends, links, one_cell, more_cells}
use sthreads.Sched.ThreadQueue.{ThreadQueue, Store, queue_remove}
use sthreads.Sched.ThreadQueue.Refinement.{IsQueue, Spared, a_spare, Keeps, queue_remove-IsQueue}

-- The threads 1 and 2 in the cells 5 and 7; the cell 9 is kept.
abbrev two_cells : Heap
two_cells a =
    if a == 5
    then some (cell 1 7)
    else (if a == 7 then some (cell 2 0) else (if a == 9 then some (cell 0 0) else none))

abbrev two : Store
two = record { heap = two_cells; empty_element_ptr = 9 }

abbrev two_queue : ThreadQueue
two_queue = record { first = 5; last = 7 }

abbrev two_links : Links
two_links = (5, 1) ∷ (7, 2) ∷ []

two-IsQueue : IsQueue two two_queue two_links
two-IsQueue = record {
  chain = links (ground arith) refl refl (links (ground arith) refl refl ends);
  last_at = more_cells one_cell;
}

two-Spared : Spared two two_links
two-Spared = a_spare (cell 0 0) refl refl

queue_remove-IsQueue_example :
    (s' : Store) × (q' : ThreadQueue) × (queue_remove two_queue two ≡ done (s', q', 1))
    × IsQueue s' q' ((7, 2) ∷ [])
    × Spared s' ((7, 2) ∷ [])
    × Keeps 5 two s'
    × ((a : ℕ) → a ≢ 5 → s'.heap a ≡ two_cells a)
queue_remove-IsQueue_example =
    queue_remove-IsQueue two two_queue 5 1 ((7, 2) ∷ []) two-IsQueue two-Spared
