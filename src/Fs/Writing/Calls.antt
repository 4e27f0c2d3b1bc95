-- ===== src/Fs/Writing/Calls.antt =====
-- fs_write of snfs_server/fs.c over the contents of the files that the caches show.
use sthreads.Prelude.{ℕ, ◌≡◌, refl, sym, ap, ◌∙◌, subst, min, false, some, not, arith, length, ◌==◌}
use sthreads.Block.{Bytes}
use sthreads.Fs.State.{Fs, fs_file}
use sthreads.Fs.Bitmap.Clear.{Suffices}
use sthreads.Fs.InodeCache.{ic_get}
use sthreads.Fs.InodeCache.Transparency.{inode_shown}
use sthreads.Fs.InodeCache.Getting.{Got, ic_get-Got}
use sthreads.Fs.BlockCache.Transparency.{shown}
use sthreads.Fs.Files.{is_refused}
use sthreads.Fs.Files.Contents.{contents_of, file_contents}
use sthreads.Fs.Files.Calls.{
  IsFile, IsReady, not_refused, Got-shown, Got-IsSound, Got-IsStamped, Got-IsFile, contents_of-same,
}
use sthreads.Fs.Writing.{inode_at, write_file, fs_write}
use sthreads.Fs.Writing.File.{IsWritable, FileWritten}
use sthreads.Fs.Writing.Stored.{write_file-FileWritten}

fs_write_goes_on :
    (now file offset p : ℕ) (junk bs : Bytes) (fs gs : Fs)
    → is_refused file fs ≡ false
    → ic_get now file fs ≡ some (gs, p)
    → (inode_at gs p).itype ≡ fs_file
    → fs_write now file offset junk bs fs
      ≡ write_file now file p (min offset (inode_at gs p).size) junk bs gs
unfolding fs_write
fs_write_goes_on now file offset p junk bs fs gs e r t =
    let q : not ((inode_at gs p).itype == fs_file) ≡ false = ground (arith, t) in
    rw (e, r, q, fs_write) refl

Got-IsWritable :
    {file : ℕ} {fs gs : Fs} {p : ℕ}
    → Got file fs gs p
    → IsReady file fs
    → Suffices 10 fs.blocks.num_blocks fs.blk_bmap
    → IsWritable p gs
Got-IsWritable {fs = fs} {gs = gs} {p = p} g v h =
    let f : IsFile gs (inode_at gs p) =
      subst (IsFile gs) (sym g.is_shown) (Got-IsFile g v.file_is) in
    record {
      sound = Got-IsSound g v.sound;
      stamped = Got-IsStamped g v.stamped;
      sized = ap (λ d. d.block_size) g.inodes.disk.blocks_same ∙ v.sized;
      has_places = record { in_cache = g.in_cache; places = f.places };
      suffices =
          subst (λ b. Suffices 10 gs.blocks.num_blocks b) (sym g.inodes.disk.blk_bmap_same)
            (subst (λ d. Suffices 10 d.num_blocks fs.blk_bmap) (sym g.inodes.disk.blocks_same) h);
      fits = f.fits;
      in_use = record { inside = f.inside; distinct = f.distinct; marked = f.marked };
    }

-- If the caches are in order with 31 steps of the clock to go, the bitmap has a bit for each
-- block or ten clear bits of blocks, and the file exists and uses different marked blocks,
-- fs_write works from an offset at most at the end of the file, on the contents that the caches
-- show: a file that would be longer than 5120 bytes is refused and nothing is changed; if no
-- block is free for what is missing the call fails, all blocks are marked, and the cache shows
-- the blocks as before; otherwise the contents, with the size raised, are the old ones with the
-- data written over them, the other marked blocks are shown as before, the inode has the blocks
-- that it had and others that were free, and the call goes on to mark the inode and to store the
-- metadata.
pub fs_write-FileWritten :
    (now file offset : ℕ) (junk bs : Bytes) (fs : Fs)
    → IsReady file fs
    → Suffices 10 fs.blocks.num_blocks fs.blk_bmap
    → length junk ≡ 512
    → (gs : Fs) × (p : ℕ) × Got file fs gs p
      × ((k : ℕ) → shown gs k ≡ shown fs k)
      × (file_contents gs p ≡ contents_of fs (inode_shown fs file))
      × FileWritten now file p
          (min offset (inode_shown fs file).size)
          bs
          gs
          (fs_write now file offset junk bs fs)
fs_write-FileWritten now file offset junk bs fs v h j =
    let (gs, p, r, g) = ic_get-Got now file fs v.inodes v.timed v.in_table in
    let size_same : (inode_at gs p).size ≡ (inode_shown fs file).size =
      ap (λ x. x.size) g.is_shown in
    (
      gs,
      p,
      g,
      Got-shown g,
      ap (contents_of gs) g.is_shown ∙ contents_of-same fs gs (inode_shown fs file) (Got-shown g),
      subst (λ o. FileWritten now file p (min offset (inode_shown fs file).size) bs gs o)
          (sym (
            fs_write_goes_on now file offset p junk bs fs gs (not_refused v) r
              (ap (λ x. x.itype) g.is_shown ∙ v.file_is.is_file)
            ∙ ap (λ n. write_file now file p (min offset n) junk bs gs) size_same))
          (write_file-FileWritten now file p (min offset (inode_shown fs file).size) junk bs gs
            (Got-IsWritable g v h) (omega (arith, size_same)) j),
    )
