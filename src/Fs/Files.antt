-- ===== src/Fs/Files.antt =====
-- The attributes and the reading of files of snfs_server/fs.c. The outer `none` is a cache without a
-- victim; a `fails` is the result -1. Pointers are not NULL, and counts and sizes are below 2^31.
pub mod Contents
pub mod Reading
pub mod Calls
pub mod Whole
use sthreads.Prelude.{
  ℕ, zero, suc, ◌+◌, ◌-◌, ◌*◌, ◌/◌, ◌%◌, min, Bool, Option, none, some, List, [], ◌++◌, ltb, leb,
  ◌==◌, not, ◌||◌, get_or, take, drop, if◌then◌else◌,
}
use sthreads.Block.{Bytes}
use sthreads.Fs.State.{Fs, Inode, block_size, fs_dir, fs_file}
use sthreads.Fs.Bitmap.{is_set}
use sthreads.Fs.BlockCache.{bc_read}
use sthreads.Fs.InodeCache.{ic_get, islot}
use sthreads.Fs.DirCache.{◌>>=◌}
use sthreads.Fs.Metadata.{itab_size}

-- `dies` is exit(-1).
pub data Result {ℓ} (A : Type ℓ) : Type ℓ where
  fails dies : Result A
  returns : A → Result A

-- `num_entries` is `none` for the -1 of a file; an entry of a directory has 16 bytes.
pub record Attrs : Type 0 where
  pub inodeid : ℕ
  pub itype : ℕ
  pub size : ℕ
  pub num_entries : Option ℕ

abbrev pub dentry_size : ℕ
dentry_size = 16

-- the checks before the inode is fetched
unfoldable pub is_refused : ℕ → Fs → Bool
unfolding is_set
is_refused file fs = leb itab_size file || not (is_set fs.inode_bmap file)

unfoldable pub attrs_of : ℕ → Inode → Result Attrs
attrs_of file x =
    let a : Attrs = record { inodeid = file; itype = x.itype; size = x.size; num_entries = none } in
    if x.itype == fs_dir
    then returns (record a { num_entries = some (x.size / dentry_size) })
    else (if x.itype == fs_file then returns a else dies)

unfoldable pub fs_get_attrs : ℕ → ℕ → Fs → Option (Fs × Result Attrs)
unfolding is_refused ic_get attrs_of
fs_get_attrs now file fs =
    if is_refused file fs
    then some (fs, fails)
    else (ic_get now file fs >>= λ r. some (r.0, attrs_of file (islot r.0 r.1).content))

-- `OFFSET_TO_BLOCKS`
abbrev pub offset_to_blocks : ℕ → ℕ
offset_to_blocks pos = pos / block_size + (if ltb 0 (pos % block_size) then 1 else 0)

-- The loop over the `n` blocks that the file has left from `iblock` on: `start` is where the part
-- that is read begins in the block, and `left` how much is to be read.
unfoldable pub read_loop : ℕ → List ℕ → ℕ → ℕ → ℕ → ℕ → Bytes → Fs → Option (Fs × Bytes)
unfolding bc_read
read_loop now blk zero iblock start left buffer fs = some (fs, buffer)
read_loop now blk (suc n) iblock start zero buffer fs = some (fs, buffer)
read_loop now blk (suc n) iblock start (suc left) buffer fs =
    let num = min (block_size - start) (suc left) in
    bc_read now (get_or blk iblock 0) fs >>= λ r.
    read_loop now blk n (suc iblock) 0 (suc left - num) (buffer ++ take num (drop start r.1)) r.0

-- The blocks of an inode are ten, so that a file has at most 5120 bytes.
unfoldable pub read_file : ℕ → ℕ → ℕ → Inode → Fs → Option (Fs × Result Bytes)
unfolding read_loop
read_file now offset count x fs =
    let first = offset / block_size in
    let more =
      read_loop now x.blocks (offset_to_blocks x.size - first) first (offset % block_size)
        (min count (x.size - offset)) [] fs in
    if not (x.itype == fs_file)
    then some (fs, fails)
    else (if leb x.size offset
        then some (fs, returns [])
        else (more >>= λ r. some (r.0, returns r.1)))

unfoldable pub fs_read : ℕ → ℕ → ℕ → ℕ → Fs → Option (Fs × Result Bytes)
unfolding is_refused ic_get read_file
fs_read now file offset count fs =
    if is_refused file fs
    then some (fs, fails)
    else (ic_get now file fs >>= λ r. read_file now offset count (islot r.0 r.1).content r.0)
