-- ===== src/Fs/Writing/Restart.antt =====
-- What a restart finds on the disk that fs_write of snfs_server/fs.c leaves.
use sthreads.Prelude.{
  ℕ, zero, suc, ◌<◌, ◌≤◌, ◌≡◌, ◌≢◌, refl, sym, ap, ◌∙◌, subst, true, arith, length, length-set,
  get_or, take, replicate,
}
use native.Mathlib.Decide.{dec_lt}
use sthreads.Block.{Blocks}
use sthreads.Cache.Coherence.{view_missing}
use sthreads.Fs.State.{
  Fs, null_inode, no_inode, no_block, no_page, inode_cache_size, block_cache_size,
}
use sthreads.Fs.Bitmap.{is_set}
use sthreads.Fs.DirCache.{dslot}
use sthreads.Fs.InodeCache.{islot, tab_get}
use sthreads.Fs.InodeCache.Transparency.{inode_shown}
use sthreads.Fs.InodeCache.Getting.{Got}
use sthreads.Fs.BlockCache.Transparency.{shown, stored, shown_missing}
use sthreads.Fs.Files.{offset_to_blocks}
use sthreads.Fs.Files.Contents.{contents_of, file_contents, file_bytes-kept, shown-same}
use sthreads.Fs.Metadata.{fsi_load_fsdata}
use sthreads.Fs.Metadata.Holding.{unloaded}
use sthreads.Fs.Metadata.Persisting.{Persists}
use sthreads.Fs.Writing.{inode_at}
use sthreads.Fs.Writing.Places.{block_at}
use sthreads.Fs.Writing.File.{Settled, sized_to, file_contents-sized_to}
use sthreads.Fs.Writing.Ending.{new_inode_is, ended, ended-inodes, ended-SameDisk}

-- The file's blocks lie behind the metadata, whose blocks are marked, and apart from the pages of
-- directories, whose blocks are marked too.
pub record IsApart (file : ℕ) (fs : Fs) : Type 0 where
  pub reserved : (k : ℕ) → k < 10 → is_set fs.blk_bmap k ≡ true
  pub behind :
      (j : ℕ)
      → j < offset_to_blocks (inode_shown fs file).size
      → 10 ≤ get_or (inode_shown fs file).blocks j 0
  pub page_marked : (i : ℕ) → (dslot fs i).valid ≡ true → is_set fs.blk_bmap (dslot fs i).key ≡ true
  pub page_apart :
      (i j : ℕ)
      → (dslot fs i).valid ≡ true
      → j < offset_to_blocks (inode_shown fs file).size
      → (dslot fs i).key ≢ get_or (inode_shown fs file).blocks j 0

fresh_slot : (n i : ℕ) → get_or (replicate n no_block) i no_block ≡ no_block
fresh_slot zero i = refl
fresh_slot (suc n) zero = refl
fresh_slot (suc n) (suc i) = fresh_slot n i

fresh_inode : (n i : ℕ) → get_or (replicate n no_inode) i no_inode ≡ no_inode
fresh_inode zero i = refl
fresh_inode (suc n) zero = refl
fresh_inode (suc n) (suc i) = fresh_inode n i

-- the state after a restart from the disk `d`
abbrev pub restarted : Blocks → Fs
restarted d = fsi_load_fsdata (unloaded d)

restarted-shown : (d : Blocks) (k : ℕ) → shown (restarted d) k ≡ stored d k
unfolding fsi_load_fsdata
restarted-shown d k =
    shown_missing (restarted d) k
      (λ j ok. absurd (cc (ap (λ s. s.valid) (fresh_slot block_cache_size j), ok)))

restarted-inode : (d : Blocks) (k : ℕ) → inode_shown (restarted d) k ≡ tab_get (restarted d) k
unfolding fsi_load_fsdata inode_shown
restarted-inode d k =
    view_missing null_inode (tab_get (restarted d)) (restarted d).icache k
      (λ j ok. absurd (cc (ap (λ s. s.valid) (fresh_inode inode_cache_size j), ok)))

module _ (now file p top : ℕ) (fs gs ws : Fs) (lt : file < 64) (g : Got file fs gs p)
    (s : Settled p (offset_to_blocks (inode_at gs p).size) (offset_to_blocks top) gs ws)
    (a : IsApart file fs) where
  x_same : inode_at gs p ≡ inode_shown fs file
  x_same = g.is_shown

  bits : (k : ℕ) → is_set fs.blk_bmap k ≡ true → is_set gs.blk_bmap k ≡ true
  bits k e = ap (λ b. is_set b k) g.inodes.disk.blk_bmap_same ∙ e

  -- A block of the file at the end lies behind the metadata and is no page of a directory.
  data_block :
      (j : ℕ)
      → j < offset_to_blocks top
      → (10 ≤ block_at ws p j)
        × ((i : ℕ) → (dslot fs i).valid ≡ true → (dslot fs i).key ≢ block_at ws p j)
  data_block j h = elim (dec_lt j (offset_to_blocks (inode_at gs p).size)) [
    | yes q ↦
        let q' : j < offset_to_blocks (inode_shown fs file).size =
          subst (λ x. j < offset_to_blocks x.size) x_same q in
        let e : block_at ws p j ≡ get_or (inode_shown fs file).blocks j 0 =
          s.earlier_same j q ∙ ap (λ x. get_or x.blocks j 0) x_same in
        (omega (arith, e, a.behind j q'), λ i ok k. a.page_apart i j ok q' (k ∙ e))
    | no q ↦
        let free = s.were_free j (omega (arith, q)) h in
        (
          elim (dec_lt (block_at ws p j) 10) [
            | yes l ↦ absurd (cc (bits (block_at ws p j) (a.reserved (block_at ws p j) l), free))
            | no l ↦ omega (arith, l)
          ],
          λ i ok k.
              absurd
                (cc (bits (dslot fs i).key (a.page_marked i ok), ap (is_set gs.blk_bmap) k, free)),
        )
  ]

  module _ (hs : Fs)
      (b : Persists
        (ended now file p (offset_to_blocks (inode_at gs p).size) top fs gs ws lt g s)
        hs) where
    end_state : Fs
    end_state = ended now file p (offset_to_blocks (inode_at gs p).size) top fs gs ws lt g s

    block_back :
        (j : ℕ)
        → j < offset_to_blocks top
        → shown (restarted hs.blocks) (block_at ws p j) ≡ shown ws (block_at ws p j)
    unfolding end_state
    block_back j h =
        let d =
          ended-SameDisk now file p (offset_to_blocks (inode_at gs p).size) top fs gs ws lt g s in
        let c : end_state.dcache ≡ fs.dcache =
          d.dcache_same ∙ s.dcache_same ∙ g.inodes.disk.dcache_same in
        let k = block_at ws p j in
        let (behind, no_page_is) = data_block j h in
        restarted-shown hs.blocks k
        ∙ b.data_back k behind
            (omega (arith, s.inside j h, ap (λ d. d.num_blocks) d.blocks_same, s.blocks_same))
            (λ i ok e.
              no_page_is i (sym (ap (λ c. (get_or c i no_page).valid) c) ∙ ok)
                (sym (ap (λ c. (get_or c i no_page).key) c) ∙ e))
        ∙ shown-same ws end_state k d.blocks_same d.bcache_same

    inode_back : inode_shown (restarted hs.blocks) file ≡ record (inode_at ws p) { size = top }
    unfolding new_inode_is
    inode_back =
        let (_, e, _) =
          ended-inodes now file p (offset_to_blocks (inode_at gs p).size) top fs gs ws lt g s in
        restarted-inode hs.blocks file ∙ b.inodes_back file lt ∙ e

    pub contents_back :
        contents_of (restarted hs.blocks) (inode_shown (restarted hs.blocks) file)
        ≡ file_contents (sized_to p top ws) p
    unfolding contents_of
    contents_back =
        let (x, e) = s.slot_is in
        let l : p < length ws.icache = omega (
          arith,
          g.in_cache,
          ap length e,
          length-set gs.icache p (record (islot gs p) { content = x }),
        ) in
        ap (contents_of (restarted hs.blocks)) inode_back
        ∙ ap (take top) (
            file_bytes-kept ws (restarted hs.blocks) (inode_at ws p).blocks (offset_to_blocks top) 0
              (λ j _ h. block_back j (omega arith)))
        ∙ sym (file_contents-sized_to p top ws l)

    pub others_back :
        (k : ℕ) → k < 64 → k ≢ file → inode_shown (restarted hs.blocks) k ≡ inode_shown fs k
    others_back k h ne =
        let (_, _, f) =
          ended-inodes now file p (offset_to_blocks (inode_at gs p).size) top fs gs ws lt g s in
        restarted-inode hs.blocks k ∙ b.inodes_back k h ∙ f k h ne
