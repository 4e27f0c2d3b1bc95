-- ===== src/Fs/BlockCache/Frame.antt =====
-- What the block cache of snfs_server/fs.c leaves alone: the bitmaps, the inodes and the directories.
use sthreads.Prelude.{
  ℕ, zero, suc, ◌≡◌, refl, ◌∙◌, subst, Bool, true, ◌&&◌, none, some, inl, inr, List, Bool-cases,
  Option-cases,
}
use sthreads.Block.{Bytes, block_write}
use sthreads.Cache.{Slot, find, holds, expired}
use sthreads.Fs.State.{Fs, block_cache_size}
use sthreads.Fs.BlockCache.{
  bslot, bc_victim, disk_write, bc_flush, bc_flush_if, bc_flush_expired, bc_flush_all, bc_put,
  bc_fill, bc_read, bc_overwrite, bc_replace, bc_write,
}
use sthreads.Fs.BlockCache.Reading.{bc_read_hit, bc_read_miss}
use sthreads.Fs.BlockCache.Writing.{bc_write_hit, bc_write_miss}

-- `fs'` differs from `fs` in the disk, the block cache and the clock only.
pub record SameRest (fs fs' : Fs) : Type 0 where
  pub inode_bmap_same : fs'.inode_bmap ≡ fs.inode_bmap
  pub blk_bmap_same : fs'.blk_bmap ≡ fs.blk_bmap
  pub inode_tab_same : fs'.inode_tab ≡ fs.inode_tab
  pub icache_same : fs'.icache ≡ fs.icache
  pub dcache_same : fs'.dcache ≡ fs.dcache

pub SameRest-refl : (fs : Fs) → SameRest fs fs
SameRest-refl fs = record {
  inode_bmap_same = refl;
  blk_bmap_same = refl;
  inode_tab_same = refl;
  icache_same = refl;
  dcache_same = refl;
}

pub SameRest-trans : {fs gs hs : Fs} → SameRest fs gs → SameRest gs hs → SameRest fs hs
SameRest-trans v w = record {
  inode_bmap_same = w.inode_bmap_same ∙ v.inode_bmap_same;
  blk_bmap_same = w.blk_bmap_same ∙ v.blk_bmap_same;
  inode_tab_same = w.inode_tab_same ∙ v.inode_tab_same;
  icache_same = w.icache_same ∙ v.icache_same;
  dcache_same = w.dcache_same ∙ v.dcache_same;
}

pub disk_write-SameRest : (fs : Fs) (k : ℕ) (b : Bytes) → SameRest fs (disk_write fs k b)
unfolding disk_write
disk_write-SameRest fs k b = elim (Option-cases (block_write fs.blocks k b)) [
  | inl e ↦ rw (e, disk_write) (SameRest-refl fs)
  | inr (d, e) ↦
      rw (e, disk_write)
        (record {
          inode_bmap_same = refl;
          blk_bmap_same = refl;
          inode_tab_same = refl;
          icache_same = refl;
          dcache_same = refl;
        })
]

bc_flush-SameRest : (fs : Fs) (i : ℕ) → SameRest fs (bc_flush fs i)
unfolding bc_flush
bc_flush-SameRest fs i = elim (Bool-cases ((bslot fs i).valid && (bslot fs i).dirty)) [
  | inr e ↦ rw (e, bc_flush) (SameRest-refl fs)
  | inl e ↦
      let v = disk_write-SameRest fs (bslot fs i).key (bslot fs i).content in
      rw (e, bc_flush)
        (record {
          inode_bmap_same = v.inode_bmap_same;
          blk_bmap_same = v.blk_bmap_same;
          inode_tab_same = v.inode_tab_same;
          icache_same = v.icache_same;
          dcache_same = v.dcache_same;
        })
]

bc_flush_if-SameRest :
    (t : Slot Bytes → Bool) (n i : ℕ) (fs : Fs) → SameRest fs (bc_flush_if t n i fs)
unfolding bc_flush_if
bc_flush_if-SameRest t zero i fs = SameRest-refl fs
bc_flush_if-SameRest t (suc n) i fs = elim (Bool-cases (t (bslot fs i))) [
  | inl e ↦
      rw e
        (SameRest-trans (bc_flush-SameRest fs i) (bc_flush_if-SameRest t n (suc i) (bc_flush fs i)))
  | inr e ↦ rw e (bc_flush_if-SameRest t n (suc i) fs)
]

pub bc_flush_all-SameRest : (fs : Fs) → SameRest fs (bc_flush_all fs)
unfolding bc_flush_all
bc_flush_all-SameRest fs = bc_flush_if-SameRest (λ s. true) block_cache_size 0 fs

bc_flush_expired-SameRest : (now : ℕ) (fs : Fs) → SameRest fs (bc_flush_expired now fs)
unfolding bc_flush_expired
bc_flush_expired-SameRest now fs = bc_flush_if-SameRest (expired now) block_cache_size 0 fs

moved-SameRest :
    (fs : Fs) (c : List (Slot Bytes)) (k : ℕ)
    → SameRest fs (record fs { bcache = c; lru_clock = k })
moved-SameRest fs c k = record {
  inode_bmap_same = refl;
  blk_bmap_same = refl;
  inode_tab_same = refl;
  icache_same = refl;
  dcache_same = refl;
}

bc_put-SameRest : (fs : Fs) (i : ℕ) (s : Slot Bytes) → SameRest fs (bc_put fs i s)
unfolding bc_put
bc_put-SameRest fs i s = moved-SameRest fs _ _

bc_overwrite-SameRest : (now i : ℕ) (b : Bytes) (fs : Fs) → SameRest fs (bc_overwrite now i b fs)
unfolding bc_overwrite bc_put
bc_overwrite-SameRest now i b fs = moved-SameRest fs _ _

bc_replace-SameRest :
    (now k : ℕ) (b : Bytes) (v : ℕ) (fs : Fs) → SameRest fs (bc_replace now k b v fs)
unfolding bc_replace bc_put
bc_replace-SameRest now k b v fs = moved-SameRest fs _ _

bc_fill-SameRest : (k v : ℕ) (fs : Fs) → SameRest fs (bc_fill k v fs).0
unfolding bc_fill bc_put
bc_fill-SameRest k v fs = moved-SameRest fs _ _

bc_read_no_victim :
    (now k : ℕ) (fs : Fs)
    → find (holds k) (bc_flush_expired now fs).bcache ≡ none
    → bc_victim (bc_flush_expired now fs) ≡ none
    → bc_read now k fs ≡ none
unfolding bc_read
bc_read_no_victim now k fs e e' = rw (e, e', bc_read) refl

pub bc_read-SameRest :
    (now k : ℕ) (fs fs' : Fs) (b : Bytes) → bc_read now k fs ≡ some (fs', b) → SameRest fs fs'
bc_read-SameRest now k fs fs' b h =
    let gs = bc_flush_expired now fs in
    let v = bc_flush_expired-SameRest now fs in
    elim (Option-cases (find (holds k) gs.bcache)) [
      | inr (i, e) ↦
          let q : bc_put gs i (bslot gs i) ≡ fs' = cc (h, bc_read_hit now k i fs e) in
          subst (SameRest fs) q (SameRest-trans v (bc_put-SameRest gs i (bslot gs i)))
      | inl e ↦ elim (Option-cases (bc_victim gs)) [
        | inl n ↦ absurd (cc (h, bc_read_no_victim now k fs e n))
        | inr (i, e') ↦
            let q : (bc_fill k i (bc_flush gs i)).0 ≡ fs' = cc (h, bc_read_miss now k i fs e e') in
            subst (SameRest fs) q (
              SameRest-trans v
                (SameRest-trans (bc_flush-SameRest gs i) (bc_fill-SameRest k i (bc_flush gs i))))
      ]
    ]

bc_write_no_victim :
    (now k : ℕ) (b : Bytes) (fs : Fs)
    → find (holds k) (bc_flush_expired now fs).bcache ≡ none
    → bc_victim (bc_flush_expired now fs) ≡ none
    → bc_write now k b fs ≡ none
unfolding bc_write
bc_write_no_victim now k b fs e e' = rw (e, e', bc_write) refl

pub bc_write-SameRest :
    (now k : ℕ) (b : Bytes) (fs fs' : Fs) → bc_write now k b fs ≡ some fs' → SameRest fs fs'
bc_write-SameRest now k b fs fs' h =
    let gs = bc_flush_expired now fs in
    let v = bc_flush_expired-SameRest now fs in
    elim (Option-cases (find (holds k) gs.bcache)) [
      | inr (i, e) ↦
          let q : bc_overwrite now i b gs ≡ fs' = cc (h, bc_write_hit now k i b fs e) in
          subst (SameRest fs) q (SameRest-trans v (bc_overwrite-SameRest now i b gs))
      | inl e ↦ elim (Option-cases (bc_victim gs)) [
        | inl n ↦ absurd (cc (h, bc_write_no_victim now k b fs e n))
        | inr (i, e') ↦
            let q : bc_replace now k b i (bc_flush gs i) ≡ fs' =
              cc (h, bc_write_miss now k i b fs e e') in
            subst (SameRest fs) q (
              SameRest-trans v (
                SameRest-trans (bc_flush-SameRest gs i)
                  (bc_replace-SameRest now k b i (bc_flush gs i))))
      ]
    ]
