-- ===== src/Cells.antt =====
-- Linked cells in memory, for the queues of sthread_lib/queue.c and snfs_lib/queue.c: an item and the
-- address of the next cell. The address 0 is NULL.
pub mod Chain
use sthreads.Prelude.{ℕ, Bool, true, false, Option, none, some, ◌==◌, if◌then◌else◌}

pub record Cell : Type 0 where
  pub item : ℕ
  pub next : ℕ

abbrev pub cell : ℕ → ℕ → Cell
cell x q = record { item = x; next = q }

abbrev pub Heap : Type 0
Heap = ℕ → Option Cell

unfoldable pub put : Heap → ℕ → Option Cell → Heap
put h p c a = if a == p then c else h a

-- A run on memory: `fault` is an access through NULL or to a cell that was freed.
pub data Access {ℓ} (A : Type ℓ) : Type ℓ where
  done : A → Access A
  fault out_of_fuel : Access A

infixl 10 ◌>>=◌
abbrev pub ◌>>=◌ {ℓ κ} : {A : Type ℓ} {B : Type κ} → Access A → (A → Access B) → Access B
done a >>= f = f a
fault >>= f = fault
out_of_fuel >>= f = out_of_fuel

unfoldable pub load : Heap → ℕ → Access Cell
load h p = if p == 0 then fault else elim (h p) [ none ↦ fault | some c ↦ done c ]
