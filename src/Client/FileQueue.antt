-- ===== src/Client/FileQueue.antt =====
-- snfs_lib/queue.c: the list of open files as linked cells. An item is the address of a descriptor,
-- `ids` gives the field `fileId` behind it, and `fresh` is what malloc returns. A queue that is NULL
-- is `none`. Loops run on fuel.
pub mod Removal
use sthreads.Prelude.{
  ℕ, zero, suc, Bool, true, false, ◌||◌, Option, none, some, ◌==◌, if◌then◌else◌,
}
use sthreads.Cells.{Cell, cell, Heap, put, Access, done, fault, out_of_fuel, ◌>>=◌, load}

-- `queue_t`
pub record FileQueue : Type 0 where
  pub first : ℕ
  pub last : ℕ

abbrev pub queue_create : FileQueue
queue_create = record { first = 0; last = 0 }

-- What is returned, and whether the queue was freed.
unfoldable pub queue_destroy : Option FileQueue → Bool
queue_destroy none = true
queue_destroy (some q) = q.first == 0

unfoldable pub queue_enqueue : (fresh fd : ℕ) → FileQueue → Heap → Access (Heap × FileQueue)
queue_enqueue fresh fd q h =
    let h1 = put h fresh (some (cell fd 0)) in
    let behind = load h1 q.last >>= λ c.
    done (put h1 q.last (some (cell c.item fresh)), record q { last = fresh }) in
    if fd == 0
    then done (h, q)
    else (if fresh == 0
        then fault
        else (if q.first == 0 then done (h1, record { first = fresh; last = fresh }) else behind))

unfoldable pub queue_is_empty : Option FileQueue → Bool
queue_is_empty none = true
queue_is_empty (some q) = q.first == 0

unfoldable pub queue_first : Option FileQueue → Heap → Access (Option ℕ)
queue_first none h = done none
queue_first (some q) h =
    if q.first == 0 then done none else (load h q.first >>= λ c. done (some c.item))

unfoldable pub queue_dequeue : FileQueue → Heap → Access (Heap × FileQueue × Option ℕ)
queue_dequeue q h =
    if q.first == 0
    then done (h, q, none)
    else (load h q.first >>= λ c. done (
      put h q.first none,
      if q.first == q.last then queue_create else record q { first = c.next },
      some c.item,
    ))

-- The loop of queue_node_search and queue_node_get from the cell `aux` on.
unfoldable pub find_node : (ids : ℕ → ℕ) → (fuel aux id : ℕ) → Heap → Access (Option ℕ)
find_node ids zero aux id h = out_of_fuel
find_node ids (suc fuel) aux id h =
    let rest = load h aux >>= λ c.
    let more = find_node ids fuel c.next id h in
    if ids c.item == id then done (some c.item) else more in
    if aux == 0 then done none else rest

-- `queue->first` is read before the test of `queue` for NULL.
unfoldable pub queue_node_get : (ids : ℕ → ℕ) → ℕ → Option FileQueue → ℕ → Heap → Access (Option ℕ)
unfolding find_node
queue_node_get ids fuel none id h = fault
queue_node_get ids fuel (some q) id h = find_node ids fuel q.first id h

unfoldable pub queue_node_search : (ids : ℕ → ℕ) → ℕ → Option FileQueue → ℕ → Heap → Access Bool
unfolding find_node
queue_node_search ids fuel none id h = fault
queue_node_search ids fuel (some q) id h =
    find_node ids fuel q.first id h >>= λ r. elim r [ none ↦ done false | some fd ↦ done true ]

-- The cell `aux2` behind `aux1` is taken out.
unfoldable pub unlink_node :
    (aux1 aux2 : ℕ) → Cell → FileQueue → Heap → Access (Heap × FileQueue × Option ℕ)
unlink_node aux1 aux2 c q h = load h aux1 >>= λ d. done (
  put (put h aux1 (some (cell d.item c.next))) aux2 none,
  if q.last == aux2 then record q { last = aux1 } else q,
  some c.item,
)

-- the loop of queue_node_remove
unfoldable pub remove_from :
    (ids : ℕ → ℕ)
    → (fuel aux1 aux2 id : ℕ) → FileQueue
    → Heap
    → Access (Heap × FileQueue × Option ℕ)
unfolding unlink_node
remove_from ids zero aux1 aux2 id q h = out_of_fuel
remove_from ids (suc fuel) aux1 aux2 id q h =
    let rest = load h aux2 >>= λ c.
    let more = remove_from ids fuel aux2 c.next id q h in
    if ids c.item == id then unlink_node aux1 aux2 c q h else more in
    if aux2 == 0 then done (h, q, none) else rest

unfoldable pub queue_node_remove :
    (ids : ℕ → ℕ) → ℕ → Option FileQueue → ℕ → Heap → Access (Heap × Option FileQueue × Option ℕ)
queue_node_remove ids fuel none id h = fault
queue_node_remove ids fuel (some q) id h =
    let rest = load h q.first >>= λ c.
    let more = remove_from ids fuel q.first c.next id q h in
    if ids c.item == id then queue_dequeue q h else more in
    (if q.first == 0 then done (h, q, none) else rest) >>= λ r. done (r.0, some r.1, r.2)
