-- ===== src/Fs/Writing/Sample.antt =====
-- A file of 600 bytes in the blocks 10 and 11 of the server's disk of 16384 blocks, for the tests of snfs_server/fs.c and
-- of the calls that work on it.
use sthreads.Prelude.{
  get_or-set_ne, ◌∙◌, ℕ, zero, suc, ◌<◌, ◌≡◌, ◌≢◌, ap, refl, sym, subst, true, ◌∷◌, arith, get_or,
  set, replicate,
}
use native.Mathlib.Decide.{ℕ_discrete}
use sthreads.Block.{Blocks, block_new}
use sthreads.Block.Access.{IsWhole, block_new-IsWhole}
use sthreads.Cache.{find, find_from}
use sthreads.Cache.Coherence.{view, view_missing}
use sthreads.Fs.State.{Fs, Inode, null_inode, no_inode, no_block, no_page, block_cache_size}
use sthreads.Fs.Bitmap.{is_set}
use sthreads.Fs.Bitmap.Clear.{clear_bits, Suffices, enough_below}
use sthreads.Fs.DirCache.{dslot}
use sthreads.Fs.InodeCache.{islot, tab_get}
use sthreads.Fs.Metadata.Layout.{IsInode, AllWords, all_none, all_more}
use sthreads.Fs.InodeCache.Transparency.{inode_shown, HasInodes}
use sthreads.Fs.BlockCache.Fresh.{fresh-IsSound, fresh-IsStamped}
use sthreads.Fs.Files.Calls.{IsFile, IsReady}

abbrev disk : Blocks
disk = record { block_size = 512; num_blocks = 16384; bytes = replicate 8388608 0 }

pub disk-IsWhole : IsWhole disk
unfolding block_new
disk-IsWhole = block_new-IsWhole 16384 512 (omega arith) refl

abbrev pub file_inode : Inode
file_inode = record { itype = 2; size = 600; blocks = 10 ∷ 11 ∷ replicate 8 0 }

abbrev pub ready : Fs
ready = record {
  blocks = disk;
  inode_bmap = 11 ∷ replicate 511 0;
  blk_bmap = 255 ∷ 15 ∷ replicate 510 0;
  inode_tab = set (replicate 64 null_inode) 3 file_inode;
  bcache = replicate block_cache_size no_block;
  icache = replicate 4 no_inode;
  dcache = replicate 4 no_page;
  lru_clock = 0;
}

no_slot : (n i : ℕ) → get_or (replicate n no_inode) i no_inode ≡ no_inode
no_slot zero i = refl
no_slot (suc n) zero = refl
no_slot (suc n) (suc i) = no_slot n i

never_valid : (i : ℕ) → (islot ready i).valid ≢ true
never_valid i h = cc (ap (λ s. s.valid) (no_slot 4 i), h)

pub ready-HasInodes : HasInodes ready
ready-HasInodes = record {
  table = refl;
  slots = refl;
  coherent = record {
    distinct = λ i j h _ _. absurd (never_valid i h);
    inside = λ i h. absurd (never_valid i h);
    saved = λ i h _. absurd (never_valid i h);
  };
}

pub file_is_shown : inode_shown ready 3 ≡ file_inode
unfolding inode_shown view find find_from
file_is_shown = refl

pub two_places : (P : ℕ → Type 0) → P 0 → P 1 → (j : ℕ) → j < 2 → P j
two_places P a b zero h = a
two_places P a b (suc zero) h = b
two_places P a b (suc (suc j)) h = absurd (omega arith)

pub sample-IsFile : IsFile ready file_inode
unfolding is_set
sample-IsFile = record {
  is_file = refl;
  fits = omega arith;
  places = refl;
  inside = two_places (λ j. get_or file_inode.blocks j 0 < 16384) (omega arith) (omega arith);
  distinct = λ i j h k.
      two_places (λ i. i ≢ j → get_or file_inode.blocks i 0 ≢ get_or file_inode.blocks j 0)
        (two_places (λ j. 0 ≢ j → 10 ≢ get_or file_inode.blocks j 0) (λ ne. absurd (ne refl))
          (λ _ e. omega (arith, e)) j k)
        (two_places (λ j. 1 ≢ j → 11 ≢ get_or file_inode.blocks j 0) (λ _ e. omega (arith, e))
          (λ ne. absurd (ne refl)) j k)
        i h;
  marked =
      two_places (λ j. is_set (255 ∷ 15 ∷ replicate 510 0) (get_or file_inode.blocks j 0) ≡ true)
        refl refl;
}

pub ready-IsReady : IsReady 3 ready
unfolding is_set
ready-IsReady = record {
  sound = fresh-IsSound ready refl disk-IsWhole;
  stamped = fresh-IsStamped ready refl 31 (omega arith);
  sized = refl;
  inodes = ready-HasInodes;
  timed = record { behind = λ i. omega (arith, ap (λ s. s.lru) (no_slot 4 i)); room = omega arith };
  in_table = omega arith;
  exists = refl;
  file_is = subst (IsFile ready) (sym file_is_shown) sample-IsFile;
}

zeros : (n : ℕ) → AllWords (replicate n 0)
zeros zero = all_none
zeros (suc n) = all_more (omega arith) (zeros n)

null-IsInode : IsInode null_inode
null-IsInode = record {
  itype_fits = omega arith;
  size_fits = omega arith;
  blocks_fit = zeros 10;
  ten = refl;
}

sample-IsInode : IsInode file_inode
sample-IsInode = record {
  itype_fits = omega arith;
  size_fits = omega arith;
  blocks_fit = all_more (omega arith) (all_more (omega arith) (zeros 8));
  ten = refl;
}

null_at : (n k : ℕ) → get_or (replicate n null_inode) k null_inode ≡ null_inode
null_at zero k = refl
null_at (suc n) zero = refl
null_at (suc n) (suc k) = null_at n k

no_page_at : (n k : ℕ) → get_or (replicate n no_page) k no_page ≡ no_page
no_page_at zero k = refl
no_page_at (suc n) zero = refl
no_page_at (suc n) (suc k) = no_page_at n k

pub no_pages : (j : ℕ) → (dslot ready j).valid ≢ true
no_pages j h = cc (ap (λ s. s.valid) (no_page_at 4 j), h)

pub each-IsInode : (k : ℕ) → k < 64 → IsInode (inode_shown ready k)
unfolding inode_shown
each-IsInode k h =
    subst IsInode
      (sym (
        view_missing null_inode (tab_get ready) ready.icache k (λ i ok. absurd (never_valid i ok))))
      (elim (ℕ_discrete 3 k) [
        | yes e ↦ subst (λ k. IsInode (tab_get ready k)) e sample-IsInode
        | no ne ↦
            subst IsInode
              (sym (
                get_or-set_ne (replicate 64 null_inode) 3 k file_inode null_inode ne
                ∙ null_at 64 k))
              null-IsInode
      ])

-- The bitmap has fewer bits than the disk has blocks, but enough of them are clear.
pub ready-Suffices : Suffices 10 ready.blocks.num_blocks ready.blk_bmap
unfolding clear_bits is_set
ready-Suffices = enough_below 10 16384 24 ready.blk_bmap (omega arith) (omega arith) (omega arith)
