-- ===== src/Sched/ThreadQueue.antt =====
-- sthread_lib/queue.c: queues of threads as linked cells, with one cell kept for the next insert of
-- whatever queue. `fresh` is what malloc returns. Sched.Runqueue has these queues as lists.
pub mod Refinement
pub mod Tests
use sthreads.Prelude.{ℕ, zero, suc, Bool, true, false, Option, none, some, ◌==◌, if◌then◌else◌}
use sthreads.Cells.{Cell, cell, Heap, put, Access, done, fault, out_of_fuel, ◌>>=◌, load}

-- `queue_t`
pub record ThreadQueue : Type 0 where
  pub first : ℕ
  pub last : ℕ

-- the memory and `empty_element_ptr`
pub record Store : Type 0 where
  pub heap : Heap
  pub empty_element_ptr : ℕ

-- The cell that was kept is forgotten here.
unfoldable pub create_queue : Store → Store × ThreadQueue
create_queue s = (record s { empty_element_ptr = 0 }, record { first = 0; last = 0 })

-- the cell that queue_insert takes: the one that was kept, or a new one
unfoldable pub new_element : ℕ → Store → Access ℕ
new_element fresh s =
    if s.empty_element_ptr == 0
    then (if fresh == 0 then fault else done fresh)
    else (load s.heap s.empty_element_ptr >>= λ c. done s.empty_element_ptr)

unfoldable pub queue_insert :
    (fresh thread : ℕ) → ThreadQueue → Store → Access (Store × ThreadQueue)
unfolding new_element
queue_insert fresh thread q s = new_element fresh s >>= λ n.
    let h = put s.heap n (some (cell thread 0)) in
    if q.first == 0
    then done (record { heap = h; empty_element_ptr = 0 }, record { first = n; last = n })
    else (load h q.last >>= λ c. done (
      record { heap = put h q.last (some (cell c.item n)); empty_element_ptr = 0 },
      record q { last = n },
    ))

unfoldable pub queue_is_empty : ThreadQueue → Bool
queue_is_empty q = q.first == 0

unfoldable pub queue_first : ThreadQueue → Store → Access ℕ
queue_first q s = load s.heap q.first >>= λ c. done c.item

-- The cell is kept, or freed if one is kept already. `last` stays.
unfoldable pub queue_remove : ThreadQueue → Store → Access (Store × ThreadQueue × ℕ)
queue_remove q s = load s.heap q.first >>= λ c.
    let h = put s.heap q.first (some (cell 0 0)) in
    let s' : Store =
      if s.empty_element_ptr == 0
      then record { heap = h; empty_element_ptr = q.first }
      else record s { heap = put h q.first none } in
    done (s', record q { first = c.next }, c.item)

-- The loop that frees the cells from `p` on, on fuel. sthread_user_free of the threads is left out.
unfoldable pub delete_cells : (fuel p : ℕ) → Heap → Access Heap
delete_cells zero p h = out_of_fuel
delete_cells (suc fuel) p h =
    let rest = load h p >>= λ c. delete_cells fuel c.next (put h p none) in
    if p == 0 then done h else rest

unfoldable pub delete_queue : ℕ → ThreadQueue → Store → Access Store
unfolding delete_cells
delete_queue fuel q s = delete_cells fuel q.first s.heap >>= λ h. done (record s { heap = h })
