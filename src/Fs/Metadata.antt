-- ===== src/Fs/Metadata.antt =====
-- The metadata of snfs_server/fs.c on the disk: the bitmaps in the blocks 0 and 1, and the table of
-- inodes from the block 2 on. `none` is the result of a cache that has no victim.
pub mod Layout
pub mod Loading
pub mod Holding
pub mod Persisting
pub mod Storing
mod Tests
use sthreads.Prelude.{
  ℕ, zero, suc, ◌+◌, ◌*◌, Option, none, some, List, [], ◌++◌, take, drop, get_or, replicate, set,
}
use Layout.{tab_bytes, tab_inodes}
use sthreads.Block.{Bytes, Blocks, block_read, block_write, block_new}
use sthreads.Fs.State.{
  Fs, Inode, null_inode, no_block, no_inode, no_page, block_cache_size, inode_cache_size,
  dir_cache_size, block_size, fs_dir,
}
use sthreads.Fs.Bitmap.{set_bit}
use sthreads.Fs.BlockCache.{disk_write, disk_read, bc_flush_all}
use sthreads.Fs.InodeCache.{ic_flush_all}
use sthreads.Fs.DirCache.{dc_flush_all, ◌>>=◌}

abbrev pub itab_num_blks : ℕ
itab_num_blks = 8

abbrev pub itab_size : ℕ
itab_size = 64

-- the loop over `n` blocks of the table from the block `i` on, into the table's bytes
unfoldable pub load_tab : Fs → ℕ → ℕ → Bytes → Bytes
unfolding disk_read
load_tab fs i zero tab = tab
load_tab fs i (suc n) tab = load_tab fs (suc i) n (
    take (i * block_size) tab
    ++ (disk_read fs (i + 2) (take block_size (drop (i * block_size) tab))
        ++ drop (i * block_size + block_size) tab))

unfoldable pub fsi_load_fsdata : Fs → Fs
unfolding disk_read load_tab
fsi_load_fsdata fs = record fs {
  blk_bmap = disk_read fs 0 fs.blk_bmap;
  inode_bmap = disk_read fs 1 fs.inode_bmap;
  inode_tab = tab_inodes itab_size (load_tab fs 0 itab_num_blks (tab_bytes fs.inode_tab));
}

-- the loop over `n` blocks of the table from the block `i` on, out of the table's bytes
unfoldable pub store_tab : Bytes → ℕ → ℕ → Fs → Fs
unfolding disk_write
store_tab tab i zero fs = fs
store_tab tab i (suc n) fs =
    store_tab tab (suc i) n (disk_write fs (i + 2) (drop (i * block_size) tab))

unfoldable pub fsi_store_fsdata : ℕ → Fs → Option Fs
unfolding ic_flush_all dc_flush_all bc_flush_all disk_write store_tab
fsi_store_fsdata now fs = dc_flush_all now (ic_flush_all fs) >>= λ u.
    let v = bc_flush_all u in
    let w = disk_write (disk_write v 0 v.blk_bmap) 1 v.inode_bmap in
    some (store_tab (tab_bytes w.inode_tab) 0 itab_num_blks w)

-- `fsi_inode_init`, as the value that the inode gets
abbrev pub new_inode : ℕ → Inode
new_inode t = record null_inode { itype = t }

-- `none`: block_new returns NULL, which fsi_load_fsdata dereferences
unfoldable pub fs_new : ℕ → Option Fs
unfolding block_new fsi_load_fsdata
fs_new num_blocks = block_new num_blocks block_size >>= λ d. some (
    fsi_load_fsdata (record {
      blocks = d;
      inode_bmap = replicate block_size 0;
      blk_bmap = replicate block_size 0;
      inode_tab = replicate itab_size null_inode;
      bcache = replicate block_cache_size no_block;
      icache = replicate inode_cache_size no_inode;
      dcache = replicate dir_cache_size no_page;
      lru_clock = 0;
    }))

-- the loop that clears `n` blocks from the block `i` on
unfoldable pub clear_blocks : ℕ → ℕ → Fs → Fs
unfolding disk_write
clear_blocks i zero fs = fs
clear_blocks i (suc n) fs = clear_blocks (suc i) n (disk_write fs i (replicate block_size 0))

-- the loop that marks the `n` bits from `i` on
unfoldable pub mark_bits : ℕ → ℕ → Bytes → Bytes
unfolding set_bit
mark_bits i zero bmap = bmap
mark_bits i (suc n) bmap = mark_bits (suc i) n (set_bit bmap i)

-- The number of blocks is below 2^31, where the source's comparison of an `int` is that of numbers.
unfoldable pub fs_format : ℕ → Fs → Option Fs
unfolding clear_blocks mark_bits fsi_store_fsdata
fs_format now fs =
    let u = clear_blocks 0 fs.blocks.num_blocks fs in
    fsi_store_fsdata now (record u {
      blk_bmap = mark_bits 2 itab_num_blks (mark_bits 0 2 u.blk_bmap);
      inode_bmap = mark_bits 0 2 u.inode_bmap;
      inode_tab = set u.inode_tab 1 (new_inode fs_dir);
    })
