-- ===== src/Fs/BlockCache.antt =====
-- The block cache of snfs_server/fs.c. `now` is what time(NULL) returns during the call. A victim
-- that does not exist would be the slot -1, an access out of the array: the result is then `none`.
pub mod Flushing
pub mod Frame
pub mod Fresh
pub mod Reading
pub mod Transfers
pub mod Transparency
pub mod Untouched
pub mod Writing
use sthreads.Prelude.{
  ℕ, zero, suc, Bool, true, false, ◌&&◌, Option, none, some, List, get_or, set, if◌then◌else◌,
}
use sthreads.Block.{Bytes, Blocks, block_read, block_write}
use sthreads.Cache.{Slot, victim, find, holds, expired, next_clock}
use sthreads.Fs.State.{Fs, no_block, block_cache_size}

abbrev pub bslot : Fs → ℕ → Slot Bytes
bslot fs i = get_or fs.bcache i no_block

abbrev pub set_bslot : Fs → ℕ → Slot Bytes → Fs
set_bslot fs i s = record fs { bcache = set fs.bcache i s }

unfoldable pub bc_victim : Fs → Option ℕ
bc_victim fs = victim fs.bcache

-- `block_write(fs->blocks, k, b)`, whose result is not looked at
unfoldable pub disk_write : Fs → ℕ → Bytes → Fs
disk_write fs k b = elim (block_write fs.blocks k b) [
  | none ↦ fs
  | some d ↦ record fs { blocks = d }
]

-- `block_read(fs->blocks, k, old)`: the buffer stays as it was if the read fails
unfoldable pub disk_read : Fs → ℕ → Bytes → Bytes
disk_read fs k old = elim (block_read fs.blocks k) [ none ↦ old | some b ↦ b ]

unfoldable pub bc_flush : Fs → ℕ → Fs
unfolding disk_write
bc_flush fs i =
    let s = bslot fs i in
    if s.valid && s.dirty
    then set_bslot (disk_write fs s.key s.content) i (record s { dirty = false })
    else fs

-- The loop over the slots from `i` on, which flushes those that pass the test.
unfoldable pub bc_flush_if : (Slot Bytes → Bool) → ℕ → ℕ → Fs → Fs
unfolding bc_flush
bc_flush_if t zero i fs = fs
bc_flush_if t (suc n) i fs = bc_flush_if t n (suc i) (if t (bslot fs i) then bc_flush fs i else fs)

unfoldable pub bc_flush_expired : ℕ → Fs → Fs
unfolding bc_flush_if
bc_flush_expired now fs = bc_flush_if (expired now) block_cache_size 0 fs

unfoldable pub bc_flush_all : Fs → Fs
unfolding bc_flush_if
bc_flush_all fs = bc_flush_if (λ s. true) block_cache_size 0 fs

-- the slot `i` is used: its stamp is the next clock
unfoldable pub bc_put : Fs → ℕ → Slot Bytes → Fs
bc_put fs i s =
    let c = next_clock fs.lru_clock in
    record (set_bslot fs i (record s { lru = c })) { lru_clock = c }

-- A miss: the victim is flushed, and takes the block from the disk.
unfoldable pub bc_fill : ℕ → ℕ → Fs → Fs × Bytes
unfolding disk_read bc_put
bc_fill k v fs =
    let s = bslot fs v in
    let b = disk_read fs k s.content in
    (bc_put fs v (record s { valid = true; dirty = false; key = k; content = b }), b)

unfoldable pub bc_read : ℕ → ℕ → Fs → Option (Fs × Bytes)
unfolding bc_flush_expired bc_victim bc_flush bc_put bc_fill
bc_read now k fs =
    let fs' = bc_flush_expired now fs in
    elim (find (holds k) fs'.bcache) [
      | some i ↦ some (bc_put fs' i (bslot fs' i), (bslot fs' i).content)
      | none ↦ elim (bc_victim fs') [ none ↦ none | some v ↦ some (bc_fill k v (bc_flush fs' v)) ]
    ]

-- A hit: the time of the first change since the last write-back is kept.
unfoldable pub bc_overwrite : ℕ → ℕ → Bytes → Fs → Fs
unfolding bc_put
bc_overwrite now i b fs =
    let s = bslot fs i in
    let t : ℕ = if s.dirty then s.dirty_time else now in
    bc_put fs i (record s { dirty = true; dirty_time = t; content = b })

unfoldable pub bc_replace : ℕ → ℕ → Bytes → ℕ → Fs → Fs
unfolding bc_put
bc_replace now k b v fs =
    bc_put fs v
      (record (bslot fs v) { valid = true; dirty = true; dirty_time = now; key = k; content = b })

unfoldable pub bc_write : ℕ → ℕ → Bytes → Fs → Option Fs
unfolding bc_flush_expired bc_victim bc_flush bc_overwrite bc_replace
bc_write now k b fs =
    let fs' = bc_flush_expired now fs in
    elim (find (holds k) fs'.bcache) [
      | some i ↦ some (bc_overwrite now i b fs')
      | none ↦ elim (bc_victim fs') [
        | none ↦ none
        | some v ↦ some (bc_replace now k b v (bc_flush fs' v))
      ]
    ]
