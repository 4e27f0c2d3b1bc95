-- ===== src/Fs/State.antt =====
-- The structures of snfs_server/fs.c: inodes, the caches' slots and the file system itself.
use sthreads.Prelude.{ℕ, List, [], replicate}
use sthreads.Block.{Bytes, Blocks}
use sthreads.Cache.{Slot, empty_slot}

abbrev pub block_size : ℕ
block_size = 512

abbrev pub block_cache_size : ℕ
block_cache_size = 10

abbrev pub inode_cache_size : ℕ
inode_cache_size = 4

abbrev pub dir_cache_size : ℕ
dir_cache_size = 4

abbrev pub inode_num_blks : ℕ
inode_num_blks = 10

-- `fs_itype_t`: the numbers are those of FS_DIR and FS_FILE; an inode that was never set up has 0.
abbrev pub fs_dir : ℕ
fs_dir = 1

abbrev pub fs_file : ℕ
fs_file = 2

-- The field `reserved` is set to 0 and not used.
pub record Inode : Type 0 where
  pub itype : ℕ
  pub size : ℕ
  pub blocks : List ℕ

abbrev pub null_inode : Inode
null_inode = record { itype = 0; size = 0; blocks = replicate inode_num_blks 0 }

-- A page of directory entries in the directory cache: the directory and the 512 bytes.
pub record DirPage : Type 0 where
  pub dir_inodeid : ℕ
  pub entries : Bytes

abbrev pub null_page : DirPage
null_page = record { dir_inodeid = 0; entries = [] }

pub record Fs : Type 0 where
  pub blocks : Blocks
  pub inode_bmap : Bytes
  pub blk_bmap : Bytes
  pub inode_tab : List Inode
  pub bcache : List (Slot Bytes)
  pub icache : List (Slot Inode)
  pub dcache : List (Slot DirPage)
  pub lru_clock : ℕ

-- The slots at an index. An index past the array gives an empty slot.
abbrev pub no_block : Slot Bytes
no_block = empty_slot []

abbrev pub no_inode : Slot Inode
no_inode = empty_slot null_inode

abbrev pub no_page : Slot DirPage
no_page = empty_slot null_page
