-- ===== src/Fs/Metadata/Tests.antt =====
-- The theorem on fsi_store_fsdata of snfs_server/fs.c at the disk of sixteen blocks with one file.
use sthreads.Prelude.{◌≡◌, refl, some, arith}
use sthreads.Fs.State.{Fs}
use sthreads.Fs.BlockCache.Fresh.{fresh-IsSound, fresh-IsStamped}
use sthreads.Fs.Metadata.{fsi_store_fsdata}
use sthreads.Fs.Metadata.Persisting.{IsStorable, Persists, fsi_store_fsdata-Persists}
use sthreads.Fs.Writing.Sample.{ready, ready-HasInodes, disk-IsWhole, each-IsInode, no_pages}

ready-IsStorable : IsStorable ready
ready-IsStorable = record {
  sound = fresh-IsSound ready refl disk-IsWhole;
  stamped = fresh-IsStamped ready refl 4 (omega arith);
  sized = refl;
  enough = omega arith;
  has_pages = record {
    inside = λ j ok. absurd (no_pages j ok);
    whole = λ j ok. absurd (no_pages j ok);
  };
  inodes = ready-HasInodes;
  fit = each-IsInode;
  blk_bits = refl;
  inode_bits = refl;
}

fsi_store_fsdata-Persists_example :
    (gs : Fs) × (fsi_store_fsdata 30 ready ≡ some gs) × Persists ready gs
fsi_store_fsdata-Persists_example = fsi_store_fsdata-Persists 30 ready ready-IsStorable
