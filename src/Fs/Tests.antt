-- ===== src/Fs/Tests.antt =====
-- The theorems on snfs_server/block.c and on the caches of snfs_server/fs.c, at a disk of four
-- blocks of two bytes.
use sthreads.Prelude.{
  ℕ, zero, suc, ◌<◌, ◌≡◌, ◌≢◌, ◌∙◌, refl, sym, subst, true, false, some, List, [], ◌∷◌, arith,
  get_or, replicate,
}
use sthreads.Block.{Blocks, block_new, block_read, block_write}
use sthreads.Block.Access.{IsWhole, block_write-block_read, block_new-IsWhole}
use sthreads.Cache.{Slot, victim, ulong_max}
use sthreads.Cache.Evicting.{MayEvict, victim-MayEvict}
use sthreads.Fs.State.{Fs, Inode, null_inode, no_inode, no_block, block_cache_size}
use sthreads.Fs.InodeCache.{islot, tab_get, ic_dirty}
use sthreads.Fs.InodeCache.Transparency.{HasInodes, inode_shown, assign, ic_dirty-assign}
use sthreads.Fs.Metadata.Layout.{IsInode, AllWords, all_none, all_more}
use sthreads.Fs.BlockCache.{bc_read, bc_write, bc_flush_all}
use sthreads.Fs.BlockCache.Transparency.{IsSound, SameView, Shows, shown, stored}
use sthreads.Fs.BlockCache.Transfers.{IsStamped}
use sthreads.Fs.BlockCache.Fresh.{fresh-IsSound, fresh-IsStamped}
use sthreads.Fs.BlockCache.Flushing.{bc_flush_all-stored}
use sthreads.Fs.BlockCache.Reading.{bc_read-shown}
use sthreads.Fs.BlockCache.Writing.{bc_write-Shows}

abbrev disk : Blocks
disk = record { block_size = 2; num_blocks = 4; bytes = replicate 8 0 }

disk-IsWhole : IsWhole disk
unfolding block_new
disk-IsWhole = block_new-IsWhole 4 2 (omega arith) refl

block_write-block_read_example :
    (d : Blocks) × (block_write disk 1 (7 ∷ 9 ∷ []) ≡ some d)
    × IsWhole d
    × (d.num_blocks ≡ 4)
    × (d.block_size ≡ 2)
    × (block_read d 1 ≡ some (7 ∷ 9 ∷ []))
    × ((j : ℕ) → j < 4 → j ≢ 1 → block_read d j ≡ block_read disk j)
block_write-block_read_example =
    block_write-block_read disk-IsWhole 1 (7 ∷ 9 ∷ []) (omega arith) refl

abbrev files : Fs
files = record {
  blocks = disk;
  inode_bmap = [];
  blk_bmap = [];
  inode_tab = [];
  bcache = replicate block_cache_size no_block;
  icache = [];
  dcache = [];
  lru_clock = 0;
}

files-IsSound : IsSound files
files-IsSound = fresh-IsSound files refl disk-IsWhole

files-IsStamped : IsStamped files 1
files-IsStamped = fresh-IsStamped files refl 1 (omega arith)

bc_read-shown_example :
    (fs' : Fs) × (bc_read 30 2 files ≡ some (fs', shown files 2))
    × IsSound fs'
    × SameView files fs'
    × IsStamped fs' 0
bc_read-shown_example = bc_read-shown 30 2 0 files files-IsSound files-IsStamped (omega arith)

bc_write-Shows_example :
    (fs' : Fs) × (bc_write 30 2 (7 ∷ 9 ∷ []) files ≡ some fs')
    × Shows files 2 (7 ∷ 9 ∷ []) fs'
    × IsStamped fs' 0
bc_write-Shows_example =
    bc_write-Shows 30 2 0 (7 ∷ 9 ∷ []) files files-IsSound files-IsStamped (omega arith) refl

changed :
    (fs' : Fs) × (bc_write 30 2 (7 ∷ 9 ∷ []) files ≡ some fs')
    × Shows files 2 (7 ∷ 9 ∷ []) fs'
    × IsStamped fs' 0
changed = bc_write-Shows 30 2 0 (7 ∷ 9 ∷ []) files files-IsSound files-IsStamped (omega arith) refl

bc_flush_all-stored_example :
    IsSound (bc_flush_all changed.0)
    × ((k : ℕ)
        → k < changed.0.blocks.num_blocks
        → (shown (bc_flush_all changed.0) k ≡ shown changed.0 k)
          × (stored (bc_flush_all changed.0).blocks k ≡ shown changed.0 k))
bc_flush_all-stored_example = bc_flush_all-stored changed.0 changed.2.sound

abbrev slot : ℕ → ℕ → Slot ℕ
slot k t = record { valid = true; dirty = false; key = k; dirty_time = 0; lru = t; content = 0 }

abbrev used : List (Slot ℕ)
used = slot 4 9 ∷ slot 6 3 ∷ []

used-lru : (x : ℕ) → (get_or used x (slot 0 0)).lru < ulong_max
used-lru zero = omega arith
used-lru (suc zero) = omega arith
used-lru (suc (suc x)) = omega arith

victim-MayEvict_example : (i : ℕ) × (victim used ≡ some i) × MayEvict used (slot 0 0) i
victim-MayEvict_example = victim-MayEvict used (slot 0 0) (omega arith) used-lru

-- The inode 3 in the first slot.
abbrev cached : Slot Inode
cached = record (no_inode) { valid = true; key = 3; lru = 1 }

abbrev inodes : Fs
inodes = record files {
  inode_tab = replicate 64 null_inode;
  icache = cached ∷ no_inode ∷ no_inode ∷ no_inode ∷ [];
}

first_slot : (i : ℕ) → (islot inodes i).valid ≡ true → i ≡ 0
first_slot zero h = refl
first_slot (suc zero) h = cc h
first_slot (suc (suc zero)) h = cc h
first_slot (suc (suc (suc zero))) h = cc h
first_slot (suc (suc (suc (suc i)))) h = cc h

inodes-HasInodes : HasInodes inodes
inodes-HasInodes = record {
  table = refl;
  slots = refl;
  coherent = record {
    distinct = λ i j h h' _. first_slot i h ∙ sym (first_slot j h');
    inside = λ i h. subst (λ i. (islot inodes i).key < 64) (sym (first_slot i h)) (omega arith);
    saved = λ i h _.
        subst (λ i. (islot inodes i).content ≡ tab_get inodes (islot inodes i).key)
          (sym (first_slot i h)) refl;
  };
}

abbrev grown : Inode
grown = record null_inode { itype = 2; size = 700 }

ic_dirty-assign_example :
    HasInodes (ic_dirty 30 3 (assign inodes 0 grown))
    × (inode_shown (ic_dirty 30 3 (assign inodes 0 grown)) 3 ≡ grown)
    × (tab_get (ic_dirty 30 3 (assign inodes 0 grown)) 3 ≡ grown)
    × ((k : ℕ)
        → k < 64
        → k ≢ 3
        → inode_shown (ic_dirty 30 3 (assign inodes 0 grown)) k ≡ inode_shown inodes k)
ic_dirty-assign_example = ic_dirty-assign 30 3 0 grown inodes inodes-HasInodes refl refl

grown-IsInode : IsInode grown
grown-IsInode = record {
  itype_fits = omega arith;
  size_fits = omega arith;
  blocks_fit = zeros 10;
  ten = refl;
}
  where
    zeros : (n : ℕ) → AllWords (replicate n 0)
    zeros zero = all_none
    zeros (suc n) = all_more (omega arith) (zeros n)

-- A file in the blocks 1 and 2 of a disk of four blocks, whose bytes 500 to 599 are read.
abbrev big_disk : Blocks
big_disk = record { block_size = 512; num_blocks = 4; bytes = replicate 2048 0 }

big_disk-IsWhole : IsWhole big_disk
unfolding block_new
big_disk-IsWhole = block_new-IsWhole 4 512 (omega arith) refl

abbrev big : Fs
big = record files { blocks = big_disk }

big-IsSound : IsSound big
big-IsSound = fresh-IsSound big refl big_disk-IsWhole

abbrev file_blocks : List ℕ
file_blocks = 1 ∷ 2 ∷ []

file_blocks_in : (j : ℕ) → get_or file_blocks j 0 < 4
file_blocks_in zero = omega arith
file_blocks_in (suc zero) = omega arith
file_blocks_in (suc (suc j)) = omega arith
