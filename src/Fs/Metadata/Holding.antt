-- ===== src/Fs/Metadata/Holding.antt =====
-- The metadata of snfs_server/fs.c on the disk, as fsi_store_fsdata writes and fsi_load_fsdata reads it.
use sthreads.Prelude.{
  ℕ, suc, ◌+◌, ◌*◌, ◌<◌, ◌≤◌, ◌≡◌, refl, sym, ap, ◌∙◌, some, List, [], ◌∷◌, arith, length, get_or,
  replicate, take, drop, take_all, length-append,
}
use sthreads.Block.{Blocks, block_read}
use sthreads.Fs.State.{
  Fs, Inode, null_inode, no_block, no_inode, no_page, block_cache_size, inode_cache_size,
  dir_cache_size, block_size,
}
use sthreads.Fs.BlockCache.{disk_write}
use sthreads.Fs.BlockCache.Frame.{disk_write-SameRest, SameRest-trans}
use sthreads.Fs.Metadata.{itab_size, store_tab, load_tab, fsi_load_fsdata}
use sthreads.Fs.Metadata.Layout.{
  inode_bytes, tab_bytes, tab_inodes, IsInode, AllInodes, no_inodes, more_inodes,
  length-inode_bytes, tab_inodes-tab_bytes,
}
use sthreads.Fs.Metadata.Loading.{disk_read-some, load_tab-reads}
use sthreads.Fs.Metadata.Storing.{IsFormatted, disk_write-Puts, store_tab-TabStored}

-- The state from which fs_new loads the disk.
abbrev pub unloaded : Blocks → Fs
unloaded d = record {
  blocks = d;
  inode_bmap = replicate block_size 0;
  blk_bmap = replicate block_size 0;
  inode_tab = replicate itab_size null_inode;
  bcache = replicate block_cache_size no_block;
  icache = replicate inode_cache_size no_inode;
  dcache = replicate dir_cache_size no_page;
  lru_clock = 0;
}

length-tab_bytes : (xs : List Inode) → AllInodes xs → length (tab_bytes xs) ≡ length xs * 64
unfolding tab_bytes
length-tab_bytes [] no_inodes = refl
length-tab_bytes (x ∷ xs) (more_inodes v vs) =
    length-append (inode_bytes x) (tab_bytes xs)
    ∙ omega (arith, length-inode_bytes x v, length-tab_bytes xs vs)

length-unloaded : length (tab_bytes (replicate itab_size null_inode)) ≡ 4096
unfolding tab_bytes
length-unloaded = refl

pub AllInodes-each :
    (xs : List Inode) → ((k : ℕ) → k < length xs → IsInode (get_or xs k null_inode)) → AllInodes xs
AllInodes-each [] h = no_inodes
AllInodes-each (x ∷ xs) h =
    more_inodes (h 0 (omega arith)) (AllInodes-each xs (λ k l. h (suc k) (omega arith)))

-- The metadata of `v` written to the disk.
unfoldable pub meta_written : Fs → Fs
meta_written v =
    let w = disk_write (disk_write v 0 v.blk_bmap) 1 v.inode_bmap in
    store_tab (tab_bytes w.inode_tab) 0 8 w

-- The disk `d` holds the metadata of `v` in its first ten blocks, and in the others what it held.
pub record Holds (v : Fs) (d : Blocks) : Type 0 where
  pub count_same : d.num_blocks ≡ v.blocks.num_blocks
  pub blk_bmap_there : block_read d 0 ≡ some v.blk_bmap
  pub inode_bmap_there : block_read d 1 ≡ some v.inode_bmap
  pub tab_there :
      (j : ℕ)
      → 0 ≤ j
      → j < 8
      → block_read d (j + 2) ≡ some (take 512 (drop (j * 512) (tab_bytes v.inode_tab)))
  pub others : (k : ℕ) → 10 ≤ k → k < v.blocks.num_blocks → block_read d k ≡ block_read v.blocks k

pub meta_written-Holds :
    (v : Fs)
    → IsFormatted v.blocks
    → length v.blk_bmap ≡ 512
    → length v.inode_bmap ≡ 512
    → AllInodes v.inode_tab
    → length v.inode_tab ≡ 64
    → Holds v (meta_written v).blocks
unfolding meta_written
meta_written-Holds v f b b' ok l =
    let w = disk_write v 0 v.blk_bmap in
    let w' = disk_write w 1 v.inode_bmap in
    let p = disk_write-Puts v 0 v.blk_bmap f (omega (arith, f.enough)) (omega (arith, b)) in
    let p' =
      disk_write-Puts w 1 v.inode_bmap p.formatted (omega (arith, f.enough, p.count_same))
        (omega (arith, b')) in
    let rest =
      SameRest-trans (disk_write-SameRest v 0 v.blk_bmap) (disk_write-SameRest w 1 v.inode_bmap) in
    let len : length (tab_bytes w'.inode_tab) ≡ 4096 =
      ap (λ t. length (tab_bytes t)) rest.inode_tab_same
      ∙ length-tab_bytes v.inode_tab ok
      ∙ omega (arith, l) in
    let t = store_tab-TabStored (tab_bytes w'.inode_tab) 0 8 w' p'.formatted (omega arith) len in
    record {
      count_same = t.count_same ∙ p'.count_same ∙ p.count_same;
      blk_bmap_there =
          t.others 0 (omega (arith, f.enough, p.count_same, p'.count_same))
            (λ j _ _ q. omega (arith, q))
          ∙ p'.others 0 (omega (arith, f.enough, p.count_same)) (λ q. omega (arith, q))
          ∙ p.here
          ∙ ap some (take_all 512 v.blk_bmap (omega (arith, b)));
      inode_bmap_there =
          t.others 1 (omega (arith, f.enough, p.count_same, p'.count_same))
            (λ j _ _ q. omega (arith, q))
          ∙ p'.here
          ∙ ap some (take_all 512 v.inode_bmap (omega (arith, b')));
      tab_there = λ j x y.
          t.there j x (omega (arith, y))
          ∙ ap (λ t. some (take 512 (drop (j * 512) (tab_bytes t)))) rest.inode_tab_same;
      others = λ k x y.
          t.others k (omega (arith, y, p.count_same, p'.count_same))
            (λ j _ z q. omega (arith, x, z, q))
          ∙ p'.others k (omega (arith, y, p.count_same)) (λ q. omega (arith, x, q))
          ∙ p.others k y (λ q. omega (arith, x, q));
    }

-- The metadata that are loaded from a disk are those that it holds.
pub load-Holds :
    (v : Fs) (d : Blocks)
    → Holds v d
    → AllInodes v.inode_tab
    → length v.inode_tab ≡ 64
    → ((fsi_load_fsdata (unloaded d)).blk_bmap ≡ v.blk_bmap)
      × ((fsi_load_fsdata (unloaded d)).inode_bmap ≡ v.inode_bmap)
      × ((fsi_load_fsdata (unloaded d)).inode_tab ≡ v.inode_tab)
unfolding fsi_load_fsdata
load-Holds v d h ok l =
    let u : Fs = unloaded d in
    let t : load_tab u 0 8 (tab_bytes u.inode_tab) ≡ tab_bytes v.inode_tab =
      load_tab-reads u 0 8 (tab_bytes u.inode_tab) (tab_bytes v.inode_tab) refl length-unloaded
        (length-tab_bytes v.inode_tab ok ∙ omega (arith, l)) refl h.tab_there in
    (
      disk_read-some u 0 u.blk_bmap v.blk_bmap h.blk_bmap_there,
      disk_read-some u 1 u.inode_bmap v.inode_bmap h.inode_bmap_there,
      ap (tab_inodes 64) t
          ∙ ap (λ n. tab_inodes n (tab_bytes v.inode_tab)) (sym l)
          ∙ tab_inodes-tab_bytes v.inode_tab ok,
    )
