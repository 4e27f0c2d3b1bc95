-- ===== src/Fs/Writing/Allocating.antt =====
-- The allocation of blocks in fs_write of snfs_server/fs.c.
use sthreads.Prelude.{
  ℕ, zero, suc, ◌+◌, ◌<◌, ◌≤◌, ◌≡◌, inl, inr, refl, ap, ◌∙◌, subst, Bool, true, false, some, none,
  arith,
}
use sthreads.Fs.State.{Fs}
use sthreads.Fs.Bitmap.{is_set, find_free}
use sthreads.Fs.Bitmap.Clear.{Suffices, first_inside, Suffices-set_bit}
use sthreads.Fs.Bitmap.Marks.{find_free_lem}
use sthreads.Fs.Writing.{alloc_blocks}
use sthreads.Fs.Writing.Places.{
  InUse, HasPlaces, Allocated, Allocated-refl, Allocated-trans, allocate, allocate-HasPlaces,
  allocate-Allocated, allocate-InUse,
}

alloc_blocks_full :
    (p n i : ℕ) (fs : Fs)
    → find_free fs.blk_bmap fs.blocks.num_blocks ≡ none
    → alloc_blocks p (suc n) i fs ≡ (fs, false)
unfolding alloc_blocks
alloc_blocks_full p n i fs e = rw (e, alloc_blocks) refl

alloc_blocks_next :
    (p n i k : ℕ) (fs : Fs)
    → find_free fs.blk_bmap fs.blocks.num_blocks ≡ some k
    → alloc_blocks p (suc n) i fs ≡ alloc_blocks p n (suc i) (allocate p i k fs)
unfolding alloc_blocks
alloc_blocks_next p n i k fs e = rw (e, alloc_blocks) refl

-- All blocks were found, or none is free any more.
pub data Outcome (p n : ℕ) (fs : Fs) : Bool → Type 0 where
  found : InUse p n fs → Outcome p n fs true
  full : ((k : ℕ) → k < fs.blocks.num_blocks → is_set fs.blk_bmap k ≡ true) → Outcome p n fs false

-- If the bitmap has a bit for each block, or clear bits of blocks for as many places as are to be
-- filled, and the places of the inode before one of the ten hold different marked blocks, the
-- allocation for the next places gives them blocks that were free, different from each other and
-- from those, and marks these and no other; it stops before all have one only if every block is
-- marked, and leaves the disk, the block cache and the clock.
pub alloc_blocks-Outcome :
    (p n i : ℕ) (fs : Fs)
    → HasPlaces p fs
    → Suffices n fs.blocks.num_blocks fs.blk_bmap
    → InUse p i fs
    → i + n ≤ 10
    → (fs' : Fs) × (ok : Bool) × (alloc_blocks p n i fs ≡ (fs', ok))
      × (m : ℕ) × (ok ≡ true → m ≡ n)
      × Allocated p i m fs fs'
      × HasPlaces p fs'
      × Outcome p (i + n) fs' ok
unfolding alloc_blocks
alloc_blocks-Outcome p zero i fs v b u h = (
  fs,
  true,
  refl,
  0,
  λ _. refl,
  Allocated-refl p i fs,
  v,
  found (subst (λ m. InUse p m fs) (omega arith) u),
)
alloc_blocks-Outcome p (suc n) i fs v b u h =
    elim (find_free_lem fs.blk_bmap fs.blocks.num_blocks) [
      | inl (e, all) ↦ (
        fs,
        false,
        alloc_blocks_full p n i fs e,
        0,
        λ q. absurd (cc q),
        Allocated-refl p i fs,
        v,
        full all,
      )
      | inr (k, e, lt, free, all) ↦
          let inside = first_inside n fs.blocks.num_blocks k fs.blk_bmap b lt all in
          let (fs', ok, r, m, le, w, v', o) =
            alloc_blocks-Outcome p n (suc i) (allocate p i k fs)
              (allocate-HasPlaces p i k fs v (omega arith) lt free inside)
              (Suffices-set_bit n fs.blocks.num_blocks k fs.blk_bmap inside b)
              (allocate-InUse p i k fs v (omega arith) lt free inside u) (omega arith) in
          (
            fs',
            ok,
            alloc_blocks_next p n i k fs e ∙ r,
            suc m,
            λ h. ap suc (le h),
            Allocated-trans v.in_cache (allocate-Allocated p i k fs v (omega arith) lt free inside)
                w,
            v',
            subst (λ m. Outcome p m fs' ok) (omega arith) o,
          )
    ]
