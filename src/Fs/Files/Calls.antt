-- ===== src/Fs/Files/Calls.antt =====
-- fs_read of snfs_server/fs.c over the contents of the files that the caches show.
use sthreads.Prelude.{
  ℕ, suc, ◌<◌, ◌≤◌, ◌≡◌, ◌≢◌, refl, ap, ◌∙◌, true, false, some, arith, length, get_or, take, drop,
}
use sthreads.Cache.Coherence.{view}
use sthreads.Fs.State.{Fs, Inode, null_inode, fs_file}
use sthreads.Fs.Bitmap.{is_set}
use sthreads.Fs.InodeCache.{islot, ic_get}
use sthreads.Fs.InodeCache.Transparency.{inode_shown, HasInodes}
use sthreads.Fs.InodeCache.Getting.{IsTimed, Got, ic_get-Got}
use sthreads.Fs.BlockCache.Frame.{SameRest}
use sthreads.Fs.BlockCache.Transparency.{shown, IsSound, SameView}
use sthreads.Fs.BlockCache.Transfers.{IsStamped}
use sthreads.Fs.Files.{returns, is_refused, offset_to_blocks, read_file, fs_read}
use sthreads.Fs.Files.Contents.{
  contents_of, file_bytes-kept, shown-same, IsSound-same, IsStamped-same, offset_to_blocks_up,
}
use sthreads.Fs.Files.Whole.{read_file-contents}

-- The inode `x` is that of a file: it has ten places for blocks, and those in use hold different
-- blocks of the disk, which are marked.
pub record IsFile (fs : Fs) (x : Inode) : Type 0 where
  pub is_file : x.itype ≡ fs_file
  pub fits : x.size ≤ 5120
  pub places : length x.blocks ≡ 10
  pub inside : (j : ℕ) → j < offset_to_blocks x.size → get_or x.blocks j 0 < fs.blocks.num_blocks
  pub distinct :
      (i j : ℕ)
      → i < offset_to_blocks x.size
      → j < offset_to_blocks x.size
      → i ≢ j
      → get_or x.blocks i 0 ≢ get_or x.blocks j 0
  pub marked :
      (j : ℕ) → j < offset_to_blocks x.size → is_set fs.blk_bmap (get_or x.blocks j 0) ≡ true

-- The file `file` exists, and the caches are in order, with 31 steps of the clock to go.
pub record IsReady (file : ℕ) (fs : Fs) : Type 0 where
  pub sound : IsSound fs
  pub stamped : IsStamped fs 31
  pub sized : fs.blocks.block_size ≡ 512
  pub inodes : HasInodes fs
  pub timed : IsTimed fs
  pub in_table : file < 64
  pub exists : is_set fs.inode_bmap file ≡ true
  pub file_is : IsFile fs (inode_shown fs file)

pub not_refused : {file : ℕ} {fs : Fs} → IsReady file fs → is_refused file fs ≡ false
unfolding is_refused
not_refused v = ground (arith, v.in_table, v.exists)

-- What ic_get leaves of the block cache.
pub Got-shown :
    {file : ℕ} {fs gs : Fs} {p : ℕ} → Got file fs gs p → (k : ℕ) → shown gs k ≡ shown fs k
Got-shown {fs = fs} {gs = gs} g k =
    shown-same fs gs k g.inodes.disk.blocks_same g.inodes.disk.bcache_same

pub Got-IsSound : {file : ℕ} {fs gs : Fs} {p : ℕ} → Got file fs gs p → IsSound fs → IsSound gs
Got-IsSound {fs = fs} {gs = gs} g v =
    IsSound-same fs gs g.inodes.disk.blocks_same g.inodes.disk.bcache_same v

pub Got-IsStamped :
    {file : ℕ} {fs gs : Fs} {p n : ℕ} → Got file fs gs p → IsStamped fs (suc n) → IsStamped gs n
Got-IsStamped {fs = fs} {gs = gs} {n = n} g s =
    let w =
      IsStamped-same (record fs { lru_clock = suc fs.lru_clock }) gs n g.inodes.disk.bcache_same
        g.clock
        (record { behind = λ i. omega (arith, s.behind i); room = omega (arith, s.room) }) in
    record { behind = w.behind; room = w.room }

pub Got-IsFile :
    {file : ℕ} {fs gs : Fs} {p : ℕ} {x : Inode} → Got file fs gs p → IsFile fs x → IsFile gs x
Got-IsFile {fs = fs} {gs = gs} {x = x} g v =
    let n : gs.blocks.num_blocks ≡ fs.blocks.num_blocks =
      ap (λ d. d.num_blocks) g.inodes.disk.blocks_same in
    record {
      is_file = v.is_file;
      fits = v.fits;
      places = v.places;
      inside = λ j h. omega (arith, n, v.inside j h);
      distinct = v.distinct;
      marked = λ j h.
          ap (λ b. is_set b (get_or x.blocks j 0)) g.inodes.disk.blk_bmap_same ∙ v.marked j h;
    }

pub contents_of-same :
    (fs gs : Fs) (x : Inode)
    → ((k : ℕ) → shown gs k ≡ shown fs k)
    → contents_of gs x ≡ contents_of fs x
unfolding contents_of
contents_of-same fs gs x h =
    ap (take x.size) (
      file_bytes-kept fs gs x.blocks (offset_to_blocks x.size) 0 (λ j a b. h (get_or x.blocks j 0)))

fs_read_goes_on :
    (now file offset count p : ℕ) (fs gs : Fs)
    → is_refused file fs ≡ false
    → ic_get now file fs ≡ some (gs, p)
    → fs_read now file offset count fs ≡ read_file now offset count (islot gs p).content gs
unfolding fs_read
fs_read_goes_on now file offset count p fs gs e r = rw (e, r, fs_read) refl

inodes-SameRest : (fs gs : Fs) (k : ℕ) → SameRest fs gs → inode_shown gs k ≡ inode_shown fs k
unfolding inode_shown
inodes-SameRest fs gs k s =
    ap (λ t. view null_inode (λ k. get_or t k null_inode) gs.icache k) s.inode_tab_same
    ∙ ap (λ c. view null_inode (λ k. get_or fs.inode_tab k null_inode) c k) s.icache_same

-- If the caches are in order with 31 steps of the clock to go, and the file exists and uses
-- different marked blocks, fs_read returns the bytes that its contents, as the caches show them,
-- have from the offset on, as many as are asked for and there are, and keeps the block cache
-- sound, the blocks that it shows, and the inodes that are shown.
pub fs_read-contents :
    (now file offset count : ℕ) (fs : Fs)
    → IsReady file fs
    → (fs' : Fs) × (fs_read now file offset count fs
        ≡ some (fs', returns (take count (drop offset (contents_of fs (inode_shown fs file))))))
      × IsSound fs'
      × SameView fs fs'
      × ((k : ℕ) → k < 64 → inode_shown fs' k ≡ inode_shown fs k)
fs_read-contents now file offset count fs v =
    let x = inode_shown fs file in
    let (gs, p, r, g) = ic_get-Got now file fs v.inodes v.timed v.in_table in
    let f = Got-IsFile g v.file_is in
    let (hs, e, w, same, rest) =
      read_file-contents now offset count x gs (Got-IsSound g v.sound)
        (let s = Got-IsStamped {n = 30} g v.stamped in
          record {
            behind = s.behind;
            room = omega (arith, s.room, offset_to_blocks_up x.size, f.fits);
          })
        (ap (λ d. d.block_size) g.inodes.disk.blocks_same ∙ v.sized) f.inside f.is_file in
    (
      hs,
      fs_read_goes_on now file offset count p fs gs (not_refused v) r
          ∙ ap (λ x. read_file now offset count x gs) g.is_shown
          ∙ e
          ∙ ap (λ b. some (hs, returns (take count (drop offset b))))
              (contents_of-same fs gs x (Got-shown g)),
      w,
      record {
        same = λ k h.
            same.same k (omega (arith, h, ap (λ d. d.num_blocks) g.inodes.disk.blocks_same))
            ∙ Got-shown g k;
        blocks_same = same.blocks_same ∙ ap (λ d. d.num_blocks) g.inodes.disk.blocks_same;
        size_same = same.size_same ∙ ap (λ d. d.block_size) g.inodes.disk.blocks_same;
      },
      λ k h. inodes-SameRest gs hs k rest ∙ g.inodes.same k h,
    )
