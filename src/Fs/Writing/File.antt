-- ===== src/Fs/Writing/File.antt =====
-- write_file, the part of fs_write of snfs_server/fs.c behind its checks, over the contents of a file.
use sthreads.Prelude.{
  ℕ, ◌+◌, ◌-◌, ◌<◌, ◌≤◌, ◌≡◌, ◌≢◌, refl, ap, ◌∙◌, max, true, false, Option, some, [], arith, length,
  ◌==◌, ltb, get_or-set_self, set, take, written_at,
}
use sthreads.Block.{Bytes}
use sthreads.Fs.State.{Fs, Inode, no_inode}
use sthreads.Fs.Bitmap.{is_set}
use sthreads.Fs.Bitmap.Clear.{Suffices}
use sthreads.Fs.BlockCache.Transparency.{shown, IsSound}
use sthreads.Fs.BlockCache.Transfers.{IsStamped}
use sthreads.Fs.DirCache.{◌>>=◌}
use sthreads.Fs.InodeCache.{islot, ic_dirty}
use sthreads.Fs.Metadata.{fsi_store_fsdata}
use sthreads.Fs.Files.{Result, fails, returns, offset_to_blocks}
use sthreads.Fs.Files.Reading.{file_bytes}
use sthreads.Fs.Files.Contents.{
  file_bytes-kept, contents_of, file_contents, shown-same, IsSound-same, IsStamped-same,
  offset_to_blocks_up,
}
use sthreads.Fs.Writing.{
  inode_at, put_inode, alloc_blocks, Written, end_write, write_blocks, write_file,
}
use sthreads.Fs.Writing.Steps.{IsWriting}
use sthreads.Fs.Writing.Old.{AreBlocks}
use sthreads.Fs.Writing.Places.{block_at, InUse, HasPlaces, Allocated}

-- The file in the slot `p` may be written: the caches are sound, the blocks have 512 bytes, and those
-- that the file uses are its own.
pub record IsWritable (p : ℕ) (fs : Fs) : Type 0 where
  pub sound : IsSound fs
  pub stamped : IsStamped fs 30
  pub sized : fs.blocks.block_size ≡ 512
  pub has_places : HasPlaces p fs
  pub suffices : Suffices 10 fs.blocks.num_blocks fs.blk_bmap
  pub fits : (inode_at fs p).size ≤ 5120
  pub in_use : InUse p (offset_to_blocks (inode_at fs p).size) fs

pub Allocated-IsWriting :
    (p i m t : ℕ) (fs gs : Fs)
    → IsWritable p fs
    → Allocated p i m fs gs
    → t ≤ 30
    → IsWriting p (inode_at gs p).blocks fs.blocks.num_blocks t gs
Allocated-IsWriting p i m t fs gs v c h =
    let s = IsStamped-same fs gs 30 c.cache_same c.clock_same v.stamped in
    record {
      sound = IsSound-same fs gs c.disk_same c.cache_same v.sound;
      stamped = record { behind = s.behind; room = omega (arith, h, s.room) };
      sized = ap (λ d. d.block_size) c.disk_same ∙ v.sized;
      counted = ap (λ d. d.num_blocks) c.disk_same;
      blocks_are = refl;
    }

pub InUse-AreBlocks :
    (p n : ℕ) (fs : Fs) → InUse p n fs → AreBlocks (inode_at fs p).blocks fs.blocks.num_blocks n
InUse-AreBlocks p n fs u = record { inside = u.inside; distinct = u.distinct }

-- The blocks that fs_write adds to a file that is to have bytes up to `top`.
abbrev pub required : (size top : ℕ) → ℕ
required size top = max (offset_to_blocks top) (offset_to_blocks size) - offset_to_blocks size

pub required_are :
    (size top : ℕ) → offset_to_blocks size + required size top ≡ offset_to_blocks (max top size)
required_are size top =
    omega
      (arith, offset_to_blocks_up size, offset_to_blocks_up top, offset_to_blocks_up (max top size))

pub required-le :
    (size top : ℕ)
    → size ≤ 5120
    → ltb (10 - offset_to_blocks size) (required size top) ≡ false
    → offset_to_blocks size + required size top ≤ 10
required-le size top h e =
    let l : required size top ≤ 10 - offset_to_blocks size = ground (arith, e) in
    omega (arith, offset_to_blocks_up size, h, l)

pub required-gt :
    (size top : ℕ) → ltb (10 - offset_to_blocks size) (required size top) ≡ true → 5120 < top
required-gt size top e =
    let l : 10 - offset_to_blocks size < required size top = ground (arith, e) in
    omega (arith, offset_to_blocks_up size, offset_to_blocks_up top, l)

-- `p->size = size`
abbrev pub sized_to : ℕ → ℕ → Fs → Fs
sized_to p size fs = put_inode fs p (record (inode_at fs p) { size = size })

-- The state `ws` before the end of the call: the inode in the slot `p` has `total` blocks, those that
-- it had and others that were free, and all else but the disk, the bitmap of the blocks and the clock
-- is as in `fs`.
pub record Settled (p used total : ℕ) (fs ws : Fs) : Type 0 where
  pub sound : IsSound ws
  pub stamped : IsStamped ws 8
  pub slot_is : (x : Inode) × (ws.icache ≡ set fs.icache p (record (islot fs p) { content = x }))
  pub inode_tab_same : ws.inode_tab ≡ fs.inode_tab
  pub inode_bmap_same : ws.inode_bmap ≡ fs.inode_bmap
  pub dcache_same : ws.dcache ≡ fs.dcache
  pub bits_same : length ws.blk_bmap ≡ length fs.blk_bmap
  pub blocks_same : ws.blocks.num_blocks ≡ fs.blocks.num_blocks
  pub size_same : ws.blocks.block_size ≡ fs.blocks.block_size
  pub itype_same : (inode_at ws p).itype ≡ (inode_at fs p).itype
  pub total_fits : total ≤ 10
  pub places : length (inode_at ws p).blocks ≡ 10
  pub inside : (j : ℕ) → j < total → block_at ws p j < fs.blocks.num_blocks
  pub earlier_same : (j : ℕ) → j < used → block_at ws p j ≡ block_at fs p j
  pub later_same : (j : ℕ) → total ≤ j → block_at ws p j ≡ block_at fs p j
  pub were_free : (j : ℕ) → used ≤ j → j < total → is_set fs.blk_bmap (block_at ws p j) ≡ false

-- What write_file does with `bs` at `offset`, in its three branches.
pub data FileWritten (now file p offset : ℕ) (bs : Bytes) (fs : Fs)
    : Option (Fs × Result (Unit {0})) → Type 0 where
  too_long : 5120 < offset + length bs → FileWritten now file p offset bs fs (some (fs, fails))
  disk_full :
      (fs' : Fs)
      → ((k : ℕ) → k < fs'.blocks.num_blocks → is_set fs'.blk_bmap k ≡ true)
      → ((k : ℕ) → shown fs' k ≡ shown fs k)
      → FileWritten now file p offset bs fs (some (fs', fails))
  stored_all :
      (w : Written)
      → Settled p
          (offset_to_blocks (inode_at fs p).size)
          (offset_to_blocks (max (offset + length bs) (inode_at fs p).size))
          fs
          w.fs
      → file_contents (sized_to p (max (offset + length bs) (inode_at fs p).size) w.fs) p
        ≡ written_at (file_contents fs p) offset bs
      → ((k : ℕ)
          → k < fs.blocks.num_blocks
          → is_set fs.blk_bmap k ≡ true
          → ((j : ℕ) → j < offset_to_blocks (inode_at fs p).size → k ≢ block_at fs p j)
          → shown w.fs k ≡ shown fs k)
      → FileWritten now file p offset bs fs (
          fsi_store_fsdata now
            (ic_dirty now file (sized_to p (max (offset + length bs) (inode_at fs p).size) w.fs))
          >>= λ u. some (u, returns tt))

pub end_write_all :
    (now file p top size : ℕ) (w : Written)
    → w.rest ≡ []
    → (inode_at w.fs p).size ≡ size
    → end_write now file p top w ≡ (
        fsi_store_fsdata now (ic_dirty now file (sized_to p (max top size) w.fs)) >>= λ u.
        some (u, returns tt))
unfolding end_write
end_write_all now file p top size w e h =
    let q : (length w.rest == 0) ≡ true = ap (λ ys. length ys == 0) e in
    rw (q, end_write)
      (ap
        (λ n. fsi_store_fsdata now (ic_dirty now file (sized_to p (max top n) w.fs)) >>= λ u.
          some (u, returns tt))
        h)

pub write_file_too_long :
    (now file p offset : ℕ) (junk bs : Bytes) (fs : Fs)
    → ltb
        (10 - offset_to_blocks (inode_at fs p).size)
        (required (inode_at fs p).size (offset + length bs))
      ≡ true
    → write_file now file p offset junk bs fs ≡ some (fs, fails)
unfolding write_file
write_file_too_long now file p offset junk bs fs e = rw (e, write_file) refl

pub write_file_full :
    (now file p offset : ℕ) (junk bs : Bytes) (fs fs' : Fs)
    → ltb
        (10 - offset_to_blocks (inode_at fs p).size)
        (required (inode_at fs p).size (offset + length bs))
      ≡ false
    → alloc_blocks p
        (required (inode_at fs p).size (offset + length bs))
        (offset_to_blocks (inode_at fs p).size)
        fs
      ≡ (fs', false)
    → write_file now file p offset junk bs fs ≡ some (fs', fails)
unfolding write_file
write_file_full now file p offset junk bs fs fs' e r = rw (e, r, write_file) refl

pub write_file_goes_on :
    (now file p offset : ℕ) (junk bs : Bytes) (fs fs' : Fs)
    → ltb
        (10 - offset_to_blocks (inode_at fs p).size)
        (required (inode_at fs p).size (offset + length bs))
      ≡ false
    → alloc_blocks p
        (required (inode_at fs p).size (offset + length bs))
        (offset_to_blocks (inode_at fs p).size)
        fs
      ≡ (fs', true)
    → write_file now file p offset junk bs fs
      ≡ write_blocks now file p offset junk bs
          (offset_to_blocks (inode_at fs p).size)
          (required (inode_at fs p).size (offset + length bs))
          fs'
unfolding write_file
write_file_goes_on now file p offset junk bs fs fs' e r = rw (e, r, write_file) refl

pub file_contents-sized_to :
    (p size : ℕ) (fs : Fs)
    → p < length fs.icache
    → file_contents (sized_to p size fs) p
      ≡ take size (file_bytes fs (inode_at fs p).blocks (offset_to_blocks size) 0)
unfolding contents_of
file_contents-sized_to p size fs h =
    let e : inode_at (sized_to p size fs) p ≡ record (inode_at fs p) { size = size } =
      ap (λ s. s.content) (get_or-set_self fs.icache p _ no_inode h) in
    ap (λ x. take x.size (file_bytes (sized_to p size fs) x.blocks (offset_to_blocks x.size) 0)) e
    ∙ ap (take size) (
        file_bytes-kept fs (sized_to p size fs) (inode_at fs p).blocks (offset_to_blocks size) 0
          (λ j a b. shown-same fs (sized_to p size fs) _ refl refl))
