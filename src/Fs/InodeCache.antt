-- ===== src/Fs/InodeCache.antt =====
-- The inode cache of snfs_server/fs.c. A pointer into the cache is the index of a slot. `now` is what
-- time(NULL) returns during the call; `none` is the slot -1, where no victim exists.
pub mod Flushing
pub mod Getting
pub mod Saving
pub mod Transparency
use sthreads.Prelude.{
  ℕ, zero, suc, Bool, true, false, ◌&&◌, Option, none, some, List, get_or, set, if◌then◌else◌,
}
use sthreads.Cache.{Slot, victim, find, holds, expired, next_clock}
use sthreads.Fs.State.{Fs, Inode, null_inode, no_inode, inode_cache_size}

abbrev pub islot : Fs → ℕ → Slot Inode
islot fs i = get_or fs.icache i no_inode

abbrev pub set_islot : Fs → ℕ → Slot Inode → Fs
set_islot fs i s = record fs { icache = set fs.icache i s }

abbrev pub tab_get : Fs → ℕ → Inode
tab_get fs id = get_or fs.inode_tab id null_inode

unfoldable pub ic_victim : Fs → Option ℕ
ic_victim fs = victim fs.icache

unfoldable pub ic_flush : Fs → ℕ → Fs
ic_flush fs i =
    let s = islot fs i in
    if s.valid && s.dirty
    then set_islot (record fs { inode_tab = set fs.inode_tab s.key s.content }) i
        (record s { dirty = false })
    else fs

-- The loop over the slots from `i` on, which flushes those that pass the test.
unfoldable pub ic_flush_if : (Slot Inode → Bool) → ℕ → ℕ → Fs → Fs
unfolding ic_flush
ic_flush_if t zero i fs = fs
ic_flush_if t (suc n) i fs = ic_flush_if t n (suc i) (if t (islot fs i) then ic_flush fs i else fs)

unfoldable pub ic_flush_expired : ℕ → Fs → Fs
unfolding ic_flush_if
ic_flush_expired now fs = ic_flush_if (expired now) inode_cache_size 0 fs

unfoldable pub ic_flush_all : Fs → Fs
unfolding ic_flush_if
ic_flush_all fs = ic_flush_if (λ s. true) inode_cache_size 0 fs

-- the slot `i` is used: its stamp is the next clock
unfoldable pub ic_put : Fs → ℕ → Slot Inode → Fs
ic_put fs i s =
    let c = next_clock fs.lru_clock in
    record (set_islot fs i (record s { lru = c })) { lru_clock = c }

-- a miss: the victim, which was flushed, takes the inode from the table
unfoldable pub ic_fill : ℕ → ℕ → Fs → Fs
unfolding ic_put
ic_fill id v fs =
    ic_put fs v
      (record (islot fs v) { valid = true; dirty = false; key = id; content = tab_get fs id })

unfoldable pub ic_get : ℕ → ℕ → Fs → Option (Fs × ℕ)
unfolding ic_flush_expired ic_victim ic_flush ic_put ic_fill
ic_get now id fs =
    let fs' = ic_flush_expired now fs in
    elim (find (holds id) fs'.icache) [
      | some i ↦ some (ic_put fs' i (islot fs' i), i)
      | none ↦ elim (ic_victim fs') [
        | none ↦ none
        | some v ↦ some (ic_fill id v (ic_flush fs' v), v)
      ]
    ]

-- the slot `i` is marked, after a change through its pointer
unfoldable pub ic_mark : ℕ → ℕ → ℕ → Fs → Fs
ic_mark now id i fs =
    let s = islot fs i in
    let t : ℕ = if s.dirty then s.dirty_time else now in
    set_islot (record fs { inode_tab = set fs.inode_tab id s.content }) i
      (record s { dirty = true; dirty_time = t })

unfoldable pub ic_dirty : ℕ → ℕ → Fs → Fs
unfolding ic_mark
ic_dirty now id fs = elim (find (holds id) fs.icache) [ none ↦ fs | some i ↦ ic_mark now id i fs ]

-- the loop of ic_invalidate over `n` slots from `i` on
unfoldable pub ic_invalidate_from : ℕ → ℕ → ℕ → Fs → Fs
unfolding ic_flush
ic_invalidate_from id zero i fs = fs
ic_invalidate_from id (suc n) i fs =
    let fs' = ic_flush fs i in
    ic_invalidate_from id n (suc i) (
      if holds id (islot fs i)
      then set_islot fs' i (record (islot fs' i) { valid = false })
      else fs)

unfoldable pub ic_invalidate : ℕ → Fs → Fs
unfolding ic_invalidate_from
ic_invalidate id fs = ic_invalidate_from id inode_cache_size 0 fs
