-- ===== src/Fs/DirCache/Flushing.antt =====
-- The write-backs of the directory cache of snfs_server/fs.c, through the block cache.
use sthreads.Prelude.{
  ℕ, zero, suc, ◌+◌, ◌<◌, ◌≡◌, ◌≢◌, inl, inr, refl, sym, ap, ◌∙◌, subst, true, false, ◌&&◌, some,
  arith, length, get_or, get_or-set_self, get_or-set_ne, set, Bool-cases,
}
use native.Mathlib.Decide.{ℕ_discrete}
use sthreads.Cache.{Slot}
use sthreads.Cache.Coherence.{valid-lt}
use sthreads.Fs.State.{Fs, DirPage, null_page, no_page}
use sthreads.Fs.BlockCache.{bc_write}
use sthreads.Fs.BlockCache.Transparency.{shown, IsSound}
use sthreads.Fs.BlockCache.Transfers.{IsStamped}
use sthreads.Fs.BlockCache.Writing.{bc_write-Shows}
use sthreads.Fs.BlockCache.Frame.{bc_write-SameRest}
use sthreads.Fs.DirCache.{◌>>=◌, dslot, set_dslot, dc_flush, dc_flush_if}

-- The pages are whole blocks of the disk.
pub record HasPages (fs : Fs) : Type 0 where
  pub inside : (j : ℕ) → (dslot fs j).valid ≡ true → (dslot fs j).key < fs.blocks.num_blocks
  pub whole :
      (j : ℕ)
      → (dslot fs j).valid ≡ true
      → length (dslot fs j).content.entries ≡ fs.blocks.block_size

-- What write-backs of pages leave: the bitmaps and the inodes, the sizes of the disk, what is shown of
-- the blocks of no page, and the pages.
pub record PagesSaved (fs gs : Fs) : Type 0 where
  pub inode_bmap_same : gs.inode_bmap ≡ fs.inode_bmap
  pub blk_bmap_same : gs.blk_bmap ≡ fs.blk_bmap
  pub inode_tab_same : gs.inode_tab ≡ fs.inode_tab
  pub blocks_same : gs.blocks.num_blocks ≡ fs.blocks.num_blocks
  pub size_same : gs.blocks.block_size ≡ fs.blocks.block_size
  pub outside :
      (k : ℕ)
      → k < fs.blocks.num_blocks
      → ((j : ℕ) → (dslot fs j).valid ≡ true → (dslot fs j).key ≢ k)
      → shown gs k ≡ shown fs k
  pub valids : (j : ℕ) → (dslot gs j).valid ≡ (dslot fs j).valid
  pub keys : (j : ℕ) → (dslot gs j).key ≡ (dslot fs j).key
  pub pages : (j : ℕ) → (dslot gs j).content ≡ (dslot fs j).content

PagesSaved-refl : (fs : Fs) → PagesSaved fs fs
PagesSaved-refl fs = record {
  inode_bmap_same = refl;
  blk_bmap_same = refl;
  inode_tab_same = refl;
  blocks_same = refl;
  size_same = refl;
  outside = λ k h f. refl;
  valids = λ j. refl;
  keys = λ j. refl;
  pages = λ j. refl;
}

PagesSaved-trans : {fs gs hs : Fs} → PagesSaved fs gs → PagesSaved gs hs → PagesSaved fs hs
PagesSaved-trans v w = record {
  inode_bmap_same = w.inode_bmap_same ∙ v.inode_bmap_same;
  blk_bmap_same = w.blk_bmap_same ∙ v.blk_bmap_same;
  inode_tab_same = w.inode_tab_same ∙ v.inode_tab_same;
  blocks_same = w.blocks_same ∙ v.blocks_same;
  size_same = w.size_same ∙ v.size_same;
  outside = λ k h f.
      w.outside k (omega (arith, h, v.blocks_same))
        (λ j ok e. f j (sym (v.valids j) ∙ ok) (sym (v.keys j) ∙ e))
      ∙ v.outside k h f;
  valids = λ j. w.valids j ∙ v.valids j;
  keys = λ j. w.keys j ∙ v.keys j;
  pages = λ j. w.pages j ∙ v.pages j;
}

PagesSaved-HasPages : {fs gs : Fs} → PagesSaved fs gs → HasPages fs → HasPages gs
PagesSaved-HasPages w v = record {
  inside = λ j ok. omega (arith, w.keys j, w.blocks_same, v.inside j (sym (w.valids j) ∙ ok));
  whole = λ j ok.
      ap (λ p. length p.entries) (w.pages j) ∙ v.whole j (sym (w.valids j) ∙ ok) ∙ sym w.size_same;
}

dc_flush_clean :
    (now i : ℕ) (fs : Fs)
    → ((dslot fs i).valid && (dslot fs i).dirty) ≡ false
    → dc_flush now fs i ≡ some fs
unfolding dc_flush
dc_flush_clean now i fs e = rw (e, dc_flush) refl

dc_flush_dirty :
    (now i : ℕ) (fs u : Fs)
    → ((dslot fs i).valid && (dslot fs i).dirty) ≡ true
    → bc_write now (dslot fs i).key (dslot fs i).content.entries fs ≡ some u
    → dc_flush now fs i ≡ some (set_dslot u i (record (dslot fs i) { dirty = false }))
unfolding dc_flush
dc_flush_dirty now i fs u e r = rw (e, r, dc_flush) refl

-- a slot of the cache after its write-back
slot_after :
    {A : Type 0} (f : Slot DirPage → A) (i j : ℕ) (fs u : Fs)
    → (dslot fs i).valid ≡ true
    → u.dcache ≡ fs.dcache
    → f (record (dslot fs i) { dirty = false }) ≡ f (dslot fs i)
    → f (dslot (set_dslot u i (record (dslot fs i) { dirty = false })) j) ≡ f (dslot fs j)
slot_after f i j fs u h c e =
    ap (λ c. f (get_or (set c i (record (dslot fs i) { dirty = false })) j no_page)) c
    ∙ elim (ℕ_discrete i j) [
      | no ne ↦ ap f (get_or-set_ne fs.dcache i j _ no_page ne)
      | yes q ↦
          subst
            (λ j.
              f (get_or (set fs.dcache i (record (dslot fs i) { dirty = false })) j no_page)
              ≡ f (dslot fs j))
            q (ap f (get_or-set_self fs.dcache i _ no_page (valid-lt null_page fs.dcache i h)) ∙ e)
    ]

shown_slot : (fs : Fs) (i : ℕ) (s : Slot DirPage) (k : ℕ) → shown (set_dslot fs i s) k ≡ shown fs k
unfolding shown
shown_slot fs i s k = refl

pub dc_flush-PagesSaved :
    (now i n : ℕ) (fs : Fs)
    → IsSound fs
    → IsStamped fs (suc n)
    → HasPages fs
    → (gs : Fs) × (dc_flush now fs i ≡ some gs) × IsSound gs × IsStamped gs n × PagesSaved fs gs
dc_flush-PagesSaved now i n fs v t p =
    elim (Bool-cases ((dslot fs i).valid && (dslot fs i).dirty)) [
      | inr e ↦ (
        fs,
        dc_flush_clean now i fs e,
        v,
        record { behind = t.behind; room = omega (arith, t.room) },
        PagesSaved-refl fs,
      )
      | inl e ↦
          let h : (dslot fs i).valid ≡ true = ground (arith, e) in
          let k = (dslot fs i).key in
          let (u, r, sh, t') =
            bc_write-Shows now k n (dslot fs i).content.entries fs v t (p.inside i h)
              (p.whole i h) in
          let s = bc_write-SameRest now k (dslot fs i).content.entries fs u r in
          (
            set_dslot u i (record (dslot fs i) { dirty = false }),
            dc_flush_dirty now i fs u e r,
            record {
              whole = sh.sound.whole;
              coherent = sh.sound.coherent;
              slots = sh.sound.slots;
              sized = sh.sound.sized;
            },
            record { behind = t'.behind; room = t'.room },
            record {
              inode_bmap_same = s.inode_bmap_same;
              blk_bmap_same = s.blk_bmap_same;
              inode_tab_same = s.inode_tab_same;
              blocks_same = sh.blocks_same;
              size_same = sh.size_same;
              outside = λ c lt f. shown_slot u i _ c ∙ sh.elsewhere c lt (λ q. f i h (sym q));
              valids = λ j. slot_after (λ s. s.valid) i j fs u h s.dcache_same refl;
              keys = λ j. slot_after (λ s. s.key) i j fs u h s.dcache_same refl;
              pages = λ j. slot_after (λ s. s.content) i j fs u h s.dcache_same refl;
            },
          )
    ]

pub dc_flush_if-PagesSaved :
    (now n i m : ℕ) (fs : Fs)
    → IsSound fs
    → IsStamped fs (n + m)
    → HasPages fs
    → (gs : Fs) × (dc_flush_if now (λ s. true) n i fs ≡ some gs)
      × IsSound gs
      × IsStamped gs m
      × PagesSaved fs gs
unfolding dc_flush_if
dc_flush_if-PagesSaved now zero i m fs v t p =
    (fs, refl, v, record { behind = t.behind; room = omega (arith, t.room) }, PagesSaved-refl fs)
dc_flush_if-PagesSaved now (suc n) i m fs v t p =
    let (gs, r, v', t', s) =
      dc_flush-PagesSaved now i (n + m) fs v
        (record { behind = t.behind; room = omega (arith, t.room) }) p in
    let (hs, r', v'', t'', s') =
      dc_flush_if-PagesSaved now n (suc i) m gs v' t' (PagesSaved-HasPages s p) in
    (
      hs,
      ap (λ o. o >>= dc_flush_if now (λ s. true) n (suc i)) r ∙ r',
      v'',
      t'',
      PagesSaved-trans s s',
    )
