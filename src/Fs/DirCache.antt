-- ===== src/Fs/DirCache.antt =====
-- The directory cache of snfs_server/fs.c: pages of entries, kept by directory and block. It reads
-- and writes back through the block cache. `none` is a slot -1, where no victim exists.
pub mod Flushing
use sthreads.Prelude.{
  ℕ, zero, suc, Bool, true, false, ◌&&◌, Option, none, some, ◌==◌, get_or, set, if◌then◌else◌,
}
use sthreads.Block.{Bytes}
use sthreads.Cache.{Slot, victim, find, expired, next_clock}
use sthreads.Fs.State.{Fs, DirPage, no_page, dir_cache_size}
use sthreads.Fs.BlockCache.{bc_read, bc_write}

infixl 10 ◌>>=◌
abbrev pub ◌>>=◌ {ℓ κ} : {A : Type ℓ} {B : Type κ} → Option A → (A → Option B) → Option B
none >>= f = none
some a >>= f = f a

abbrev pub dslot : Fs → ℕ → Slot DirPage
dslot fs i = get_or fs.dcache i no_page

abbrev pub set_dslot : Fs → ℕ → Slot DirPage → Fs
set_dslot fs i s = record fs { dcache = set fs.dcache i s }

unfoldable pub dc_victim : Fs → Option ℕ
dc_victim fs = victim fs.dcache

unfoldable pub dc_flush : ℕ → Fs → ℕ → Option Fs
unfolding bc_write
dc_flush now fs i =
    let s = dslot fs i in
    if s.valid && s.dirty
    then (bc_write now s.key s.content.entries fs >>= λ u.
        some (set_dslot u i (record s { dirty = false })))
    else some fs

-- The loop over the slots from `i` on, which flushes those that pass the test.
unfoldable pub dc_flush_if : ℕ → (Slot DirPage → Bool) → ℕ → ℕ → Fs → Option Fs
unfolding dc_flush
dc_flush_if now t zero i fs = some fs
dc_flush_if now t (suc n) i fs =
    (if t (dslot fs i) then dc_flush now fs i else some fs) >>= dc_flush_if now t n (suc i)

unfoldable pub dc_flush_expired : ℕ → Fs → Option Fs
unfolding dc_flush_if
dc_flush_expired now fs = dc_flush_if now (expired now) dir_cache_size 0 fs

unfoldable pub dc_flush_all : ℕ → Fs → Option Fs
unfolding dc_flush_if
dc_flush_all now fs = dc_flush_if now (λ s. true) dir_cache_size 0 fs

-- the slot holds the page of this directory and this block
abbrev pub holds_page : ℕ → ℕ → Slot DirPage → Bool
holds_page dir blk s = s.valid && (s.content.dir_inodeid == dir && s.key == blk)

unfoldable pub dc_put : Fs → ℕ → Slot DirPage → Fs
dc_put fs i s =
    let c = next_clock fs.lru_clock in
    record (set_dslot fs i (record s { lru = c })) { lru_clock = c }

-- a miss: the victim, which was flushed, takes the page from the block cache
unfoldable pub dc_fill : ℕ → ℕ → ℕ → ℕ → Fs → Option (Fs × Bytes)
unfolding bc_read dc_put
dc_fill now dir blk v fs = bc_read now blk fs >>= λ r. some (
  dc_put r.0 v (record (dslot fs v) {
    valid = true;
    dirty = false;
    key = blk;
    content = record { dir_inodeid = dir; entries = r.1 };
  }),
  r.1,
)

unfoldable pub dc_read : ℕ → ℕ → ℕ → Fs → Option (Fs × Bytes)
unfolding dc_flush_expired dc_victim dc_flush dc_put dc_fill
dc_read now dir blk fs = dc_flush_expired now fs >>= λ u.
    elim (find (holds_page dir blk) u.dcache) [
      | some i ↦ some (dc_put u i (dslot u i), (dslot u i).content.entries)
      | none ↦ dc_victim u >>= λ v. dc_flush now u v >>= dc_fill now dir blk v
    ]

-- A hit: the time of the first change since the last write-back is kept.
unfoldable pub dc_overwrite : ℕ → ℕ → Bytes → Fs → Fs
unfolding dc_put
dc_overwrite now i page fs =
    let s = dslot fs i in
    let t : ℕ = if s.dirty then s.dirty_time else now in
    dc_put fs i
      (record s { dirty = true; dirty_time = t; content = record s.content { entries = page } })

unfoldable pub dc_replace : ℕ → ℕ → ℕ → Bytes → ℕ → Fs → Fs
unfolding dc_put
dc_replace now dir blk page v fs = dc_put fs v (record (dslot fs v) {
  valid = true;
  dirty = true;
  dirty_time = now;
  key = blk;
  content = record { dir_inodeid = dir; entries = page };
})

unfoldable pub dc_write : ℕ → ℕ → ℕ → Bytes → Fs → Option Fs
unfolding dc_flush_expired dc_victim dc_flush dc_overwrite dc_replace
dc_write now dir blk page fs = dc_flush_expired now fs >>= λ u.
    elim (find (holds_page dir blk) u.dcache) [
      | some i ↦ some (dc_overwrite now i page u)
      | none ↦ dc_victim u >>= λ v. dc_flush now u v >>= λ w. some (dc_replace now dir blk page v w)
    ]
