-- ===== src/Fs/Writing/Durable.antt =====
-- What a restart finds of a file that fs_write of snfs_server/fs.c has written.
use sthreads.Prelude.{
  ℕ, ◌+◌, ◌<◌, ◌≡◌, ◌≢◌, sym, ap, ◌∙◌, subst, min, max, true, Option, some, length, written_at,
}
use sthreads.Block.{Bytes}
use sthreads.Fs.State.{Fs}
use sthreads.Fs.Bitmap.{is_set}
use sthreads.Fs.DirCache.{◌>>=◌}
use sthreads.Fs.InodeCache.{ic_dirty}
use sthreads.Fs.InodeCache.Transparency.{inode_shown}
use sthreads.Fs.InodeCache.Getting.{Got}
use sthreads.Fs.Files.{Result, fails, returns, offset_to_blocks}
use sthreads.Fs.Files.Contents.{contents_of, file_contents}
use sthreads.Fs.Files.Calls.{IsReady}
use sthreads.Fs.Metadata.{fsi_store_fsdata}
use sthreads.Fs.Metadata.Persisting.{fsi_store_fsdata-Persists}
use sthreads.Fs.Writing.{inode_at, fs_write}
use sthreads.Fs.Writing.File.{Settled, sized_to, FileWritten, too_long, disk_full, stored_all}
use sthreads.Fs.Writing.Ending.{IsStorageOf, ended, ended-IsStorable}
use sthreads.Fs.Writing.Calls.{fs_write-FileWritten}
use sthreads.Fs.Writing.Restart.{IsApart, restarted, contents_back, others_back}

-- What fs_write of `bs` at `offset` comes to.
pub data WriteOutcome (file offset : ℕ) (bs : Bytes) (fs : Fs)
    : Option (Fs × Result (Unit {0})) → Type 0 where
  refused :
      (fs' : Fs) → 5120 < offset + length bs → WriteOutcome file offset bs fs (some (fs', fails))
  no_room :
      (fs' : Fs)
      → ((k : ℕ) → k < fs'.blocks.num_blocks → is_set fs'.blk_bmap k ≡ true)
      → WriteOutcome file offset bs fs (some (fs', fails))
  durable :
      (fs' : Fs)
      → contents_of (restarted fs'.blocks) (inode_shown (restarted fs'.blocks) file)
        ≡ written_at (contents_of fs (inode_shown fs file)) offset bs
      → ((k : ℕ) → k < 64 → k ≢ file → inode_shown (restarted fs'.blocks) k ≡ inode_shown fs k)
      → WriteOutcome file offset bs fs (some (fs', returns tt))

abbrev returned : Fs → Option (Fs × Result (Unit {0}))
returned u = some (u, returns tt)

ends :
    (now file p used top : ℕ) (fs gs ws : Fs) (lt : file < 64) (g : Got file fs gs p)
    (s : Settled p used (offset_to_blocks top) gs ws) (hs : Fs)
    → fsi_store_fsdata now (ended now file p used top fs gs ws lt g s) ≡ some hs
    → (fsi_store_fsdata now (ic_dirty now file (sized_to p top ws)) >>= returned) ≡ returned hs
unfolding ended
ends now file p used top fs gs ws lt g s hs e = ap (λ o. o >>= returned) e

outcome_of :
    (now file p offset : ℕ) (bs : Bytes) (fs gs : Fs) (o : Option (Fs × Result (Unit {0})))
    → file < 64
    → Got file fs gs p
    → IsApart file fs
    → IsStorageOf fs
    → fs.blocks.block_size ≡ 512
    → file_contents gs p ≡ contents_of fs (inode_shown fs file)
    → FileWritten now file p offset bs gs o
    → WriteOutcome file offset bs fs o
outcome_of now file p offset bs fs gs _ lt g a v z e (too_long h) = refused gs h
outcome_of now file p offset bs fs gs _ lt g a v z e (disk_full fs' all _) = no_room fs' all
outcome_of now file p offset bs fs gs _ lt g a v z e (stored_all w s c _) =
    let top : ℕ = max (offset + length bs) (inode_at gs p).size in
    let used : ℕ = offset_to_blocks (inode_at gs p).size in
    let (hs, r, b) =
      fsi_store_fsdata-Persists now (ended now file p used top fs gs w.fs lt g s)
        (ended-IsStorable now file p used top fs gs w.fs lt g s z v) in
    subst (WriteOutcome file offset bs fs) (sym (ends now file p used top fs gs w.fs lt g s hs r)) (
      durable hs
        (contents_back now file p top fs gs w.fs lt g s a hs b
          ∙ c
          ∙ ap (λ xs. written_at xs offset bs) e)
        (others_back now file p top fs gs w.fs lt g s a hs b))

-- If the caches are in order with 31 steps of the clock to go, the file exists and uses different
-- marked blocks behind the metadata and apart from the pages of directories, whose blocks are
-- marked as those of the metadata are, the disk has at least 10 blocks, the bitmaps take a block
-- each, that of the blocks has a bit for each block or ten clear bits of blocks, and the numbers
-- of the inodes fit 32 bits, then fs_write from an offset at most at the end of the file ends in
-- one of three ways: it fails since the file would be longer than 5120 bytes, it fails with every
-- block marked, or it returns; then what fsi_load_fsdata loads from the disk, into the state in
-- which fs_new begins, shows for the file the old contents with the data written over them, and
-- for the other numbers the inodes that were shown.
pub fs_write-WriteOutcome :
    (now file offset : ℕ) (junk bs : Bytes) (fs : Fs)
    → IsReady file fs
    → IsStorageOf fs
    → IsApart file fs
    → length junk ≡ 512
    → WriteOutcome file
        (min offset (inode_shown fs file).size)
        bs
        fs
        (fs_write now file offset junk bs fs)
fs_write-WriteOutcome now file offset junk bs fs v st a j =
    let (gs, p, g, _, e, w) = fs_write-FileWritten now file offset junk bs fs v st.suffices j in
    outcome_of now file p (min offset (inode_shown fs file).size) bs fs gs
      (fs_write now file offset junk bs fs) v.in_table g a st v.sized e w
