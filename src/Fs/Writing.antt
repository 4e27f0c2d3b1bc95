-- ===== src/Fs/Writing.antt =====
-- fs_write of snfs_server/fs.c. The pointer `ifile` is the slot `p` of the inode cache. Sizes, offsets
-- and counts are below 2^31. The outer `none` of a result is a cache without a victim.
pub mod Allocating
pub mod Calls
pub mod Contents
pub mod Durable
pub mod Ending
pub mod File
pub mod New
pub mod Old
pub mod Places
pub mod Restart
pub mod Sample
pub mod Steps
pub mod Stored
mod Tests
use sthreads.Prelude.{
  ℕ, zero, suc, ◌+◌, ◌-◌, ◌/◌, ◌%◌, min, max, Bool, true, false, not, Option, none, some, ◌++◌,
  length, ltb, ◌==◌, get_or, set, take, drop, if◌then◌else◌,
}
use sthreads.Block.{Bytes}
use sthreads.Fs.State.{Fs, Inode, block_size, inode_num_blks, fs_file}
use sthreads.Fs.Bitmap.{set_bit, find_free}
use sthreads.Fs.BlockCache.{bc_read, bc_write}
use sthreads.Fs.InodeCache.{ic_get, ic_dirty, islot, set_islot}
use sthreads.Fs.DirCache.{◌>>=◌}
use sthreads.Fs.Metadata.{fsi_store_fsdata}
use sthreads.Fs.Files.{Result, fails, dies, returns, is_refused, offset_to_blocks}

abbrev pub inode_at : Fs → ℕ → Inode
inode_at fs p = (islot fs p).content

-- `*p = x`
abbrev pub put_inode : Fs → ℕ → Inode → Fs
put_inode fs p x = set_islot fs p (record (islot fs p) { content = x })

-- `p->blocks[i] = k`
abbrev pub put_block : Fs → ℕ → ℕ → ℕ → Fs
put_block fs p i k =
    put_inode fs p (record (inode_at fs p) { blocks = set (inode_at fs p).blocks i k })

-- The loop that allocates `n` blocks for the places from `i` on. The flag tells whether all were
-- found: those that were stay allocated.
unfoldable pub alloc_blocks : (p n i : ℕ) → Fs → Fs × Bool
unfolding set_bit find_free
alloc_blocks p zero i fs = (fs, true)
alloc_blocks p (suc n) i fs = elim (find_free fs.blk_bmap fs.blocks.num_blocks) [
  | none ↦ (fs, false)
  | some k ↦
      alloc_blocks p n (suc i) (record (put_block fs p i k) { blk_bmap = set_bit fs.blk_bmap k })
]

-- a block with the bytes from `start` on replaced by those of `data` that fit
abbrev pub patch : Bytes → ℕ → Bytes → Bytes
patch block start bs =
    let num = min (block_size - start) (length bs) in
    take start block ++ (take num bs ++ drop (start + num) block)

-- What the loops of fs_write leave: the state, the local array `block`, the index of the next block
-- and the bytes that are still to be written.
pub record Written : Type 0 where
  pub fs : Fs
  pub block : Bytes
  pub iblock : ℕ
  pub rest : Bytes

-- The loop over the `n` blocks in use from `iblock` on.
unfoldable pub write_old : (now p n start : ℕ) → Written → Option Written
unfolding bc_read bc_write
write_old now p zero start w = some w
write_old now p (suc n) start w =
    let k = get_or (inode_at w.fs p).blocks w.iblock 0 in
    let num = min (block_size - start) (length w.rest) in
    let next = bc_read now k w.fs >>= λ r.
    let b = patch r.1 start w.rest in
    bc_write now k b r.0 >>= λ u.
    write_old now p n 0
      (record { fs = u; block = b; iblock = suc w.iblock; rest = drop num w.rest }) in
    if length w.rest == 0 then some w else next

-- The loop over the `n` blocks that were allocated. What stands in `block` from before fills the
-- rest of a block.
unfoldable pub write_new : (now p n : ℕ) → Written → Option Written
unfolding bc_write
write_new now p zero w = some w
write_new now p (suc n) w =
    let k = get_or (inode_at w.fs p).blocks w.iblock 0 in
    let num = min block_size (length w.rest) in
    let b = patch w.block 0 w.rest in
    let next = bc_write now k b w.fs >>= λ u.
    write_new now p n
      (record { fs = u; block = b; iblock = suc w.iblock; rest = drop num w.rest }) in
    if length w.rest == 0 then some w else next

-- the size and the store behind the loops
unfoldable pub end_write : (now file p top : ℕ) → Written → Option (Fs × Result (Unit {0}))
unfolding ic_dirty fsi_store_fsdata
end_write now file p top w =
    let x = inode_at w.fs p in
    let fs' = ic_dirty now file (put_inode w.fs p (record x { size = max top x.size })) in
    if length w.rest == 0
    then (fsi_store_fsdata now fs' >>= λ u. some (u, returns tt))
    else some (w.fs, dies)

-- `junk` is what stands in the array `block` at the start.
unfoldable pub write_blocks :
    (now file p offset : ℕ) → Bytes → Bytes → (used req : ℕ) → Fs → Option (Fs × Result (Unit {0}))
unfolding write_old write_new end_write
write_blocks now file p offset junk bs used req fs =
    let first = offset / block_size in
    write_old now p (used - first) (offset % block_size)
      (record { fs = fs; block = junk; iblock = first; rest = bs })
    >>= λ w. write_new now p (used + req - w.iblock) w >>= end_write now file p (offset + length bs)

-- the allocation before the loops
unfoldable pub write_file :
    (now file p offset : ℕ) → Bytes → Bytes → Fs → Option (Fs × Result (Unit {0}))
unfolding alloc_blocks write_blocks
write_file now file p offset junk bs fs =
    let used = offset_to_blocks (inode_at fs p).size in
    let req = max (offset_to_blocks (offset + length bs)) used - used in
    let r = alloc_blocks p req used fs in
    if ltb (inode_num_blks - used) req
    then some (fs, fails)
    else (if r.1 then write_blocks now file p offset junk bs used req r.0 else some (r.0, fails))

unfoldable pub fs_write :
    (now file offset : ℕ) → Bytes → Bytes → Fs → Option (Fs × Result (Unit {0}))
unfolding is_refused ic_get write_file
fs_write now file offset junk bs fs =
    if is_refused file fs
    then some (fs, fails)
    else (ic_get now file fs >>= λ r.
        if not ((inode_at r.0 r.1).itype == fs_file)
        then some (r.0, fails)
        else write_file now file r.1 (min offset (inode_at r.0 r.1).size) junk bs r.0)
