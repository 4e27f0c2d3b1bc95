-- ===== src/Fs/Writing/Tests.antt =====
-- The theorems on fs_read and fs_write of snfs_server/fs.c at the file of Sample.
use sthreads.Prelude.{
  ℕ, zero, suc, ◌<◌, ◌≤◌, ◌≡◌, refl, sym, subst, get_or, Bool, true, some, min, arith, set,
  replicate, take, drop,
}
use sthreads.Fs.State.{Fs, no_inode}
use sthreads.Fs.InodeCache.{ic_get}
use sthreads.Fs.InodeCache.Transparency.{inode_shown}
use sthreads.Fs.InodeCache.Getting.{Got, ic_get-Got}
use sthreads.Fs.BlockCache.Transparency.{shown, IsSound, SameView}
use sthreads.Fs.Bitmap.{is_set}
use sthreads.Fs.Bitmap.Clear.{Suffices-le}
use sthreads.Fs.Files.{returns, fs_read, offset_to_blocks}
use sthreads.Fs.Files.Contents.{contents_of, file_contents}
use sthreads.Fs.Files.Calls.{fs_read-contents}
use sthreads.Fs.Writing.{alloc_blocks, fs_write}
use sthreads.Fs.Writing.Places.{InUse, HasPlaces, Allocated}
use sthreads.Fs.Writing.Allocating.{Outcome, alloc_blocks-Outcome}
use sthreads.Fs.Writing.Durable.{WriteOutcome, fs_write-WriteOutcome}
use sthreads.Fs.Writing.Restart.{IsApart}
use sthreads.Fs.Writing.Ending.{IsStorageOf}
use sthreads.Fs.Writing.File.{FileWritten}
use sthreads.Fs.Writing.Calls.{fs_write-FileWritten}
use sthreads.Fs.Writing.Sample.{
  file_inode, ready, ready-HasInodes, sample-IsFile, ready-IsReady, ready-Suffices, no_pages,
  each-IsInode, two_places, file_is_shown,
}

fs_read-contents_example :
    (fs' : Fs) × (fs_read 30 3 500 200 ready
      ≡ some (fs', returns (take 200 (drop 500 (contents_of ready (inode_shown ready 3))))))
    × IsSound fs'
    × SameView ready fs'
    × ((k : ℕ) → k < 64 → inode_shown fs' k ≡ inode_shown ready k)
fs_read-contents_example = fs_read-contents 30 3 500 200 ready ready-IsReady

fs_write-FileWritten_example :
    (gs : Fs) × (p : ℕ) × Got 3 ready gs p
    × ((k : ℕ) → shown gs k ≡ shown ready k)
    × (file_contents gs p ≡ contents_of ready (inode_shown ready 3))
    × FileWritten 30 3 p
        (min 500 (inode_shown ready 3).size)
        (replicate 700 7)
        gs
        (fs_write 30 3 500 (replicate 512 0) (replicate 700 7) ready)
fs_write-FileWritten_example =
    fs_write-FileWritten 30 3 500 (replicate 512 0) (replicate 700 7) ready ready-IsReady
      ready-Suffices refl

ic_get-Got_example : (fs' : Fs) × (p : ℕ) × (ic_get 30 3 ready ≡ some (fs', p)) × Got 3 ready fs' p
ic_get-Got_example = ic_get-Got 30 3 ready ready-HasInodes ready-IsReady.timed (omega arith)

-- The inode in a slot.
abbrev held : Fs
held = record ready {
  icache =
      set (replicate 4 no_inode) 0
        (record no_inode { valid = true; key = 3; content = file_inode });
}

held-InUse : InUse 0 2 held
held-InUse = record {
  inside = sample-IsFile.inside;
  distinct = sample-IsFile.distinct;
  marked = sample-IsFile.marked;
}

alloc_blocks-Outcome_example :
    (fs' : Fs) × (ok : Bool) × (alloc_blocks 0 3 2 held ≡ (fs', ok))
    × (m : ℕ) × (ok ≡ true → m ≡ 3)
    × Allocated 0 2 m held fs'
    × HasPlaces 0 fs'
    × Outcome 0 5 fs' ok
alloc_blocks-Outcome_example =
    alloc_blocks-Outcome 0 3 2 held (record { in_cache = omega arith; places = refl })
      (Suffices-le 16384 ready.blk_bmap (omega arith) ready-Suffices) held-InUse (omega arith)

ready-IsStorageOf : IsStorageOf ready
ready-IsStorageOf = record {
  enough = omega arith;
  number_fits = omega arith;
  suffices = ready-Suffices;
  has_pages = record {
    inside = λ j ok. absurd (no_pages j ok);
    whole = λ j ok. absurd (no_pages j ok);
  };
  fit = each-IsInode;
  blk_bits = refl;
  inode_bits = refl;
}

ten_bits : (k : ℕ) → k < 10 → is_set ready.blk_bmap k ≡ true
unfolding is_set
ten_bits zero h = refl
ten_bits (suc zero) h = refl
ten_bits (suc (suc zero)) h = refl
ten_bits (suc (suc (suc zero))) h = refl
ten_bits (suc (suc (suc (suc zero)))) h = refl
ten_bits (suc (suc (suc (suc (suc zero))))) h = refl
ten_bits (suc (suc (suc (suc (suc (suc zero)))))) h = refl
ten_bits (suc (suc (suc (suc (suc (suc (suc zero))))))) h = refl
ten_bits (suc (suc (suc (suc (suc (suc (suc (suc zero)))))))) h = refl
ten_bits (suc (suc (suc (suc (suc (suc (suc (suc (suc zero))))))))) h = refl
ten_bits (suc (suc (suc (suc (suc (suc (suc (suc (suc (suc k)))))))))) h = absurd (omega arith)

ready-IsApart : IsApart 3 ready
ready-IsApart = record {
  reserved = ten_bits;
  behind =
      subst (λ x. (j : ℕ) → j < offset_to_blocks x.size → 10 ≤ get_or x.blocks j 0)
        (sym file_is_shown)
        (two_places (λ j. 10 ≤ get_or file_inode.blocks j 0) (omega arith) (omega arith));
  page_marked = λ i ok. absurd (no_pages i ok);
  page_apart = λ i j ok. absurd (no_pages i ok);
}

fs_write-WriteOutcome_example :
    WriteOutcome 3
      (min 500 (inode_shown ready 3).size)
      (replicate 700 7)
      ready
      (fs_write 30 3 500 (replicate 512 0) (replicate 700 7) ready)
fs_write-WriteOutcome_example =
    fs_write-WriteOutcome 30 3 500 (replicate 512 0) (replicate 700 7) ready ready-IsReady
      ready-IsStorageOf ready-IsApart refl
