-- ===== src/Fs/Metadata/Persisting.antt =====
-- What a restart finds on a disk after fsi_store_fsdata of snfs_server/fs.c.
use sthreads.Prelude.{
  ℕ, ◌<◌, ◌≤◌, ◌≡◌, ◌≢◌, refl, sym, ap, ◌∙◌, subst, true, some, arith, length, get_or,
}
use sthreads.Fs.State.{Fs, null_inode, no_page, dir_cache_size, block_cache_size}
use sthreads.Fs.BlockCache.{bc_flush_all}
use sthreads.Fs.BlockCache.Frame.{bc_flush_all-SameRest}
use sthreads.Fs.BlockCache.Transparency.{shown, stored, stored-same, IsSound, SameView}
use sthreads.Fs.BlockCache.Transfers.{IsStamped}
use sthreads.Fs.BlockCache.Flushing.{bc_flush_all-stored, bc_flush_if-IsSound}
use sthreads.Fs.InodeCache.{tab_get, ic_flush_all}
use sthreads.Fs.InodeCache.Transparency.{inode_shown, HasInodes}
use sthreads.Fs.InodeCache.Saving.{ic_flush_all-saved}
use sthreads.Fs.DirCache.{dslot, dc_flush_all}
use sthreads.Fs.DirCache.Flushing.{HasPages, PagesSaved, dc_flush_if-PagesSaved}
use sthreads.Fs.Files.Contents.{shown-same, IsSound-same, IsStamped-same}
use sthreads.Fs.Metadata.{fsi_load_fsdata, fsi_store_fsdata}
use sthreads.Fs.Metadata.Layout.{IsInode, AllInodes}
use sthreads.Fs.Metadata.Holding.{
  unloaded, AllInodes-each, meta_written, meta_written-Holds, load-Holds,
}

-- The caches are in order, with four steps of the clock to go, the blocks have 512 bytes and are
-- ten at least, the bitmaps take a block each, and the inodes have numbers that fit.
pub record IsStorable (fs : Fs) : Type 0 where
  pub sound : IsSound fs
  pub stamped : IsStamped fs 4
  pub sized : fs.blocks.block_size ≡ 512
  pub enough : 10 ≤ fs.blocks.num_blocks
  pub has_pages : HasPages fs
  pub inodes : HasInodes fs
  pub fit : (k : ℕ) → k < 64 → IsInode (inode_shown fs k)
  pub blk_bits : length fs.blk_bmap ≡ 512
  pub inode_bits : length fs.inode_bmap ≡ 512

-- What is loaded from the disk of `gs` is what `fs` had, and the blocks of data that are no pages
-- in the directory cache stand on the disk as they were shown.
pub record Persists (fs gs : Fs) : Type 0 where
  pub blk_bmap_back : (fsi_load_fsdata (unloaded gs.blocks)).blk_bmap ≡ fs.blk_bmap
  pub inode_bmap_back : (fsi_load_fsdata (unloaded gs.blocks)).inode_bmap ≡ fs.inode_bmap
  pub inodes_back :
      (k : ℕ) → k < 64 → tab_get (fsi_load_fsdata (unloaded gs.blocks)) k ≡ inode_shown fs k
  pub data_back :
      (k : ℕ)
      → 10 ≤ k
      → k < fs.blocks.num_blocks
      → ((j : ℕ) → (dslot fs j).valid ≡ true → (dslot fs j).key ≢ k)
      → stored gs.blocks k ≡ shown fs k

store_is :
    (now : ℕ) (fs u : Fs)
    → dc_flush_all now (ic_flush_all fs) ≡ some u
    → fsi_store_fsdata now fs ≡ some (meta_written (bc_flush_all u))
unfolding fsi_store_fsdata meta_written
store_is now fs u e = rw (e, fsi_store_fsdata) refl

HasPages-same :
    (fs gs : Fs) → gs.blocks ≡ fs.blocks → gs.dcache ≡ fs.dcache → HasPages fs → HasPages gs
HasPages-same fs gs d c v =
    let w =
      subst (λ c. HasPages (record fs { blocks = gs.blocks; dcache = c })) (sym c)
        (subst (λ d. HasPages (record fs { blocks = d })) (sym d) v) in
    record { inside = w.inside; whole = w.whole }

-- The write-backs of the block cache.
bc_flush_all-view :
    (fs : Fs) → IsSound fs → IsSound (bc_flush_all fs) × SameView fs (bc_flush_all fs)
unfolding bc_flush_all
bc_flush_all-view fs v = bc_flush_if-IsSound (λ s. true) block_cache_size 0 fs v

pages_written :
    (now : ℕ) (fs : Fs)
    → IsSound fs
    → IsStamped fs 4
    → HasPages fs
    → (u : Fs) × (dc_flush_all now fs ≡ some u) × IsSound u × PagesSaved fs u
unfolding dc_flush_all
pages_written now fs v t p =
    let (u, e, w, _, s) =
      dc_flush_if-PagesSaved now dir_cache_size 0 0 fs v
        (record { behind = t.behind; room = omega (arith, t.room) }) p in
    (u, e, w, s)

-- If the caches are in order with four steps of the clock to go, the blocks have 512 bytes and
-- are ten at least, the bitmaps take a block each, and the inodes have numbers of 32 bits,
-- fsi_store_fsdata returns, and fsi_load_fsdata on the disk that it leaves, from the state in
-- which fs_new begins, gives the bitmaps and the inodes that were shown; the blocks behind the
-- first ten that are no pages of the directory cache stand on the disk as they were shown.
pub fsi_store_fsdata-Persists :
    (now : ℕ) (fs : Fs)
    → IsStorable fs
    → (gs : Fs) × (fsi_store_fsdata now fs ≡ some gs) × Persists fs gs
fsi_store_fsdata-Persists now fs s =
    let a : Fs = ic_flush_all fs in
    let (i, j, tab) = ic_flush_all-saved fs s.inodes in
    let d = i.disk in
    let (u, e, v, p) =
      pages_written now a (IsSound-same fs a d.blocks_same d.bcache_same s.sound)
        (IsStamped-same fs a 4 d.bcache_same j.clock s.stamped)
        (HasPages-same fs a d.blocks_same d.dcache_same s.has_pages) in
    let b : Fs = bc_flush_all u in
    let (w, view) = bc_flush_all-view u v in
    let (_, on_disk) = bc_flush_all-stored u v in
    let r = bc_flush_all-SameRest u in
    let tab_same : b.inode_tab ≡ a.inode_tab = r.inode_tab_same ∙ p.inode_tab_same in
    let count : b.blocks.num_blocks ≡ fs.blocks.num_blocks =
      view.blocks_same ∙ p.blocks_same ∙ ap (λ d. d.num_blocks) d.blocks_same in
    let count_u : u.blocks.num_blocks ≡ fs.blocks.num_blocks =
      p.blocks_same ∙ ap (λ d. d.num_blocks) d.blocks_same in
    let size : b.blocks.block_size ≡ 512 =
      view.size_same ∙ p.size_same ∙ ap (λ d. d.block_size) d.blocks_same ∙ s.sized in
    let blk : b.blk_bmap ≡ fs.blk_bmap = r.blk_bmap_same ∙ p.blk_bmap_same ∙ d.blk_bmap_same in
    let ino : b.inode_bmap ≡ fs.inode_bmap =
      r.inode_bmap_same ∙ p.inode_bmap_same ∙ d.inode_bmap_same in
    let len : length b.inode_tab ≡ 64 = ap length tab_same ∙ i.has.table in
    let shown_tab : (k : ℕ) → k < 64 → tab_get b k ≡ inode_shown fs k =
      λ k h. ap (λ t. get_or t k null_inode) tab_same ∙ tab k h in
    let ok : AllInodes b.inode_tab = AllInodes-each b.inode_tab (λ k h.
      subst IsInode (sym (shown_tab k (omega (arith, h, len))))
        (s.fit k (omega (arith, h, len)))) in
    let h =
      meta_written-Holds b
        (record { whole = w.whole; sized = size; enough = omega (arith, s.enough, count) })
        (ap length blk ∙ s.blk_bits) (ap length ino ∙ s.inode_bits) ok len in
    let (x, y, z) = load-Holds b (meta_written b).blocks h ok len in
    (
      meta_written b,
      store_is now fs u e,
      record {
        blk_bmap_back = x ∙ blk;
        inode_bmap_back = y ∙ ino;
        inodes_back = λ k l. ap (λ t. get_or t k null_inode) z ∙ shown_tab k l;
        data_back = λ k l l' f.
            let (_, written) = on_disk k (omega (arith, l', count_u)) in
            stored-same b.blocks (meta_written b).blocks k (h.others k l (omega (arith, l', count)))
            ∙ written
            ∙ p.outside k (omega (arith, l', ap (λ d. d.num_blocks) d.blocks_same)) (λ j ok e.
              f j (sym (ap (λ c. (get_or c j no_page).valid) d.dcache_same) ∙ ok)
                (sym (ap (λ c. (get_or c j no_page).key) d.dcache_same) ∙ e))
            ∙ shown-same fs a k d.blocks_same d.bcache_same;
      },
    )
