-- ===== src/Fs/Naming.antt =====
-- fs_create, fs_mkdir and fs_readdir of snfs_server/fs.c. The pointer `idir` is the slot `p` of the
-- inode cache. The outer `none` of a result is a cache without a victim.
pub mod Entries
pub mod Finding
pub mod Tests
use sthreads.Prelude.{
  ℕ, zero, suc, ◌+◌, ◌-◌, ◌*◌, ◌/◌, ◌%◌, min, ◌||◌, not, Option, none, some, List, [], ◌∷◌, ◌++◌,
  length, ltb, ◌==◌, get_or, set, take, drop, if◌then◌else◌,
}
use sthreads.Block.{Bytes}
use sthreads.Fs.State.{Fs, block_size, fs_dir, fs_file}
use sthreads.Fs.Bitmap.{set_bit, find_free}
use sthreads.Fs.InodeCache.{ic_get, ic_dirty, ic_invalidate}
use sthreads.Fs.DirCache.{dc_read, dc_write, ◌>>=◌}
use sthreads.Fs.Metadata.{itab_size, new_inode, fsi_store_fsdata}
use sthreads.Fs.Files.{Result, fails, returns, is_refused, dentry_size}
use sthreads.Fs.Directory.{fsi_dir_search, entry_name, entry_id, dir_page_entries, num_pages}
use sthreads.Fs.Writing.{inode_at, put_inode, put_block}

abbrev pub max_fname_sz : ℕ
max_fname_sz = 14

-- the bytes `bs` written over an array from `at` on
abbrev pub poke : Bytes → ℕ → Bytes → Bytes
poke page at bs = take at page ++ (bs ++ drop (at + length bs) page)

-- `strcpy(entry->name, file)` and `entry->inodeid = id`, for the entry `i` of a page
unfoldable pub put_entry : Bytes → ℕ → Bytes → ℕ → Bytes
put_entry page i file id =
    poke (poke page (i * dentry_size) (file ++ 0 ∷ [])) (i * dentry_size + 14)
      (id % 256 ∷ id / 256 % 256 ∷ [])

-- A directory whose pages are full gets a block. `none` inside is a disk without a free one.
unfoldable pub grow_dir : (now dir p : ℕ) → Fs → Option (Fs × Option ℕ)
unfolding set_bit find_free ic_dirty ic_get
grow_dir now dir p fs =
    let at = (inode_at fs p).size / block_size in
    if (inode_at fs p).size % block_size == 0
    then elim (find_free fs.blk_bmap fs.blocks.num_blocks) [
      | none ↦ some (fs, none)
      | some k ↦
          ic_get now dir
            (ic_dirty now dir (record (put_block fs p at k) { blk_bmap = set_bit fs.blk_bmap k }))
          >>= λ r. some (r.0, some r.1)
    ]
    else some (fs, some p)

-- the new entry in the last page of the directory, and the new inode
unfoldable pub add_entry : (now t dir : ℕ) → Bytes → (finode p : ℕ) → Fs → Option (Fs × Result ℕ)
unfolding dc_read dc_write put_entry ic_dirty set_bit ic_invalidate fsi_store_fsdata
add_entry now t dir file finode p fs =
    let x = inode_at fs p in
    let blkno = get_or x.blocks (x.size / block_size) 0 in
    dc_read now dir blkno fs >>= λ r.
    dc_write now dir blkno (put_entry r.1 (x.size % block_size / dentry_size) file finode) r.0
    >>= λ u.
        let y = inode_at u p in
        let v = ic_dirty now dir (put_inode u p (record y { size = y.size + dentry_size })) in
        let w = ic_invalidate finode (record v {
          inode_bmap = set_bit v.inode_bmap finode;
          inode_tab = set v.inode_tab finode (new_inode t);
        }) in
        fsi_store_fsdata now w >>= λ z. some (z, returns finode)

-- the rest of the two functions once the name is known to be new
unfoldable pub fs_add_new : (now t dir : ℕ) → Bytes → (p : ℕ) → Fs → Option (Fs × Result ℕ)
unfolding find_free grow_dir add_entry
fs_add_new now t dir file p fs = elim (find_free fs.inode_bmap itab_size) [
  | none ↦ some (fs, fails)
  | some finode ↦ grow_dir now dir p fs >>= λ r. elim r.1 [
    | none ↦ some (r.0, fails)
    | some q ↦ add_entry now t dir file finode q r.0
  ]
]

-- The text of fs_create and fs_mkdir, which differ in the type of the new inode.
unfoldable pub fs_add : (now t dir : ℕ) → Bytes → Fs → Option (Fs × Result ℕ)
unfolding is_refused ic_get fsi_dir_search fs_add_new
fs_add now t dir file fs =
    if length file == 0 || (ltb max_fname_sz (length file + 1) || is_refused dir fs)
    then some (fs, fails)
    else (ic_get now dir fs >>= λ r.
        if not ((inode_at r.0 r.1).itype == fs_dir)
        then some (r.0, fails)
        else (fsi_dir_search now dir file r.0 >>= λ q. elim q.1 [
          | some id ↦ some (q.0, fails)
          | none ↦ fs_add_new now t dir file r.1 q.0
        ]))

unfoldable pub fs_create : (now dir : ℕ) → Bytes → Fs → Option (Fs × Result ℕ)
unfolding fs_add
fs_create now = fs_add now fs_file

unfoldable pub fs_mkdir : (now dir : ℕ) → Bytes → Fs → Option (Fs × Result ℕ)
unfolding fs_add
fs_mkdir now = fs_add now fs_dir

-- `fs_file_name_t`
pub record FileName : Type 0 where
  pub name : Bytes
  pub itype : ℕ

-- The loop over `n` entries of a page from the entry `i` on. The inodes of the entries are fetched
-- through the inode cache, which may give up the slot of the directory.
unfoldable pub list_page : ℕ → Bytes → (n i : ℕ) → Fs → Option (Fs × List FileName)
unfolding entry_name entry_id ic_get
list_page now page zero i fs = some (fs, [])
list_page now page (suc n) i fs = ic_get now (entry_id page i) fs >>= λ r.
    list_page now page n (suc i) r.0 >>= λ q.
    some (q.0, record { name = entry_name page i; itype = (inode_at r.0 r.1).itype } ∷ q.1)

-- The loop over `n` pages, of which `num` entries are to be listed.
unfoldable pub list_pages : (now dir p n num iblock : ℕ) → Fs → Option (Fs × List FileName)
unfolding dc_read list_page
list_pages now dir p zero num iblock fs = some (fs, [])
list_pages now dir p (suc n) num iblock fs =
    dc_read now dir (get_or (inode_at fs p).blocks iblock 0) fs >>= λ r.
    list_page now r.1 (min dir_page_entries num) 0 r.0 >>= λ q.
    list_pages now dir p n (num - dir_page_entries) (suc iblock) q.0 >>= λ s. some (s.0, q.1 ++ s.1)

-- `maxentries` is not negative.
unfoldable pub fs_readdir : (now dir maxentries : ℕ) → Fs → Option (Fs × Result (List FileName))
unfolding is_refused ic_get list_pages
fs_readdir now dir maxentries fs =
    if is_refused dir fs
    then some (fs, fails)
    else (ic_get now dir fs >>= λ r.
        let num = min ((inode_at r.0 r.1).size / dentry_size) maxentries in
        if not ((inode_at r.0 r.1).itype == fs_dir)
        then some (r.0, fails)
        else (list_pages now dir r.1 (num_pages num) num 0 r.0 >>= λ q. some (q.0, returns q.1)))

-- the stub that always returns -1
unfoldable pub fs_copy : Bytes → Bytes → Fs → Fs × Result (Unit {0})
fs_copy srcpath tgtpath fs = (fs, fails)
