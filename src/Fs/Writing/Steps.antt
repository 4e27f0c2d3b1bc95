-- ===== src/Fs/Writing/Steps.antt =====
-- A round of the loops of fs_write of snfs_server/fs.c over the blocks of a file.
use sthreads.Prelude.{
  ℕ, suc, ◌+◌, ◌-◌, ◌<◌, ◌≤◌, ◌≡◌, ◌≢◌, refl, sym, ap, ◌∙◌, min, false, some, List, ◌++◌, arith,
  ◌==◌, length, get_or, take, drop, take-min, written_at, written_at-parts, length-written_at,
  length-take,
}
use sthreads.Block.{Bytes}
use sthreads.Fs.State.{Fs}
use sthreads.Fs.BlockCache.{bc_read, bc_write}
use sthreads.Fs.BlockCache.Transparency.{shown, IsSound, SameView, Shows}
use sthreads.Fs.BlockCache.Transfers.{IsStamped}
use sthreads.Fs.BlockCache.Reading.{bc_read-shown}
use sthreads.Fs.BlockCache.Writing.{bc_write-Shows}
use sthreads.Fs.BlockCache.Frame.{
  SameRest, SameRest-refl, SameRest-trans, bc_read-SameRest, bc_write-SameRest,
}
use sthreads.Fs.Files.Reading.{length-shown}
use sthreads.Fs.Writing.{inode_at, patch, Written, write_old, write_new}

-- `fs'` differs from `fs` in what the block cache shows, and only at blocks that `Kept` is not of.
pub record Changed (fs : Fs) (Kept : ℕ → Type 0) (fs' : Fs) : Type 0 where
  pub outside : (k : ℕ) → k < fs.blocks.num_blocks → Kept k → shown fs' k ≡ shown fs k
  pub rest_same : SameRest fs fs'
  pub blocks_same : fs'.blocks.num_blocks ≡ fs.blocks.num_blocks
  pub size_same : fs'.blocks.block_size ≡ fs.blocks.block_size

pub Changed-refl : (fs : Fs) (Kept : ℕ → Type 0) → Changed fs Kept fs
Changed-refl fs Kept = record {
  outside = λ k h p. refl;
  rest_same = SameRest-refl fs;
  blocks_same = refl;
  size_same = refl;
}

pub Changed-trans :
    {fs gs hs : Fs} {P Q R : ℕ → Type 0}
    → ((k : ℕ) → R k → P k × Q k)
    → Changed fs P gs
    → Changed gs Q hs
    → Changed fs R hs
Changed-trans f v w = record {
  outside =
      λ k h r. w.outside k (omega (arith, h, v.blocks_same)) (f k r).1 ∙ v.outside k h (f k r).0;
  rest_same = SameRest-trans v.rest_same w.rest_same;
  blocks_same = w.blocks_same ∙ v.blocks_same;
  size_same = w.size_same ∙ v.size_same;
}

SameView-Changed : {fs gs : Fs} {P : ℕ → Type 0} → SameView fs gs → SameRest fs gs → Changed fs P gs
SameView-Changed v s = record {
  outside = λ k h _. v.same k h;
  rest_same = s;
  blocks_same = v.blocks_same;
  size_same = v.size_same;
}

Shows-Changed :
    {fs gs : Fs} {k : ℕ} {b : Bytes} → Shows fs k b gs → SameRest fs gs → Changed fs (λ j. j ≢ k) gs
Shows-Changed v s = record {
  outside = λ j h ne. v.elsewhere j h ne;
  rest_same = s;
  blocks_same = v.blocks_same;
  size_same = v.size_same;
}

-- What a round that puts `b` leaves.
abbrev pub after : Written → Bytes → ℕ → Fs → Written
after w b start u = record {
  fs = u;
  block = b;
  iblock = suc w.iblock;
  rest = drop (min (512 - start) (length w.rest)) w.rest;
}

-- The file in the slot `p` has the blocks `blk` of a disk with `count` blocks of 512 bytes, and the
-- clock has `t` steps to go.
pub record IsWriting (p : ℕ) (blk : List ℕ) (count t : ℕ) (fs : Fs) : Type 0 where
  pub sound : IsSound fs
  pub stamped : IsStamped fs t
  pub sized : fs.blocks.block_size ≡ 512
  pub counted : fs.blocks.num_blocks ≡ count
  pub blocks_are : (inode_at fs p).blocks ≡ blk

pub fewer_steps :
    {p : ℕ} {blk : List ℕ} {count t s : ℕ} {fs : Fs}
    → s ≤ t
    → IsWriting p blk count t fs
    → IsWriting p blk count s fs
fewer_steps h v = record {
  sound = v.sound;
  stamped = record { behind = v.stamped.behind; room = omega (arith, h, v.stamped.room) };
  sized = v.sized;
  counted = v.counted;
  blocks_are = v.blocks_are;
}

-- A change of the block cache leaves the inode in its slot.
pub Changed-IsWriting :
    {p : ℕ} {blk : List ℕ} {count t s : ℕ} {fs fs' : Fs} {P : ℕ → Type 0}
    → IsWriting p blk count t fs
    → Changed fs P fs'
    → IsSound fs'
    → IsStamped fs' s
    → IsWriting p blk count s fs'
Changed-IsWriting {p} {fs = fs} v c s t = record {
  sound = s;
  stamped = t;
  sized = c.size_same ∙ v.sized;
  counted = c.blocks_same ∙ v.counted;
  blocks_are =
      ap (λ c. (inode_at (record fs { icache = c }) p).blocks) c.rest_same.icache_same
      ∙ v.blocks_are;
}

-- A block after a patch is the block with the data that fit written from `start` on.
pub patch-written_at :
    (b : Bytes) (start : ℕ) (ds : Bytes)
    → length b ≡ 512
    → start ≤ 512
    → patch b start ds ≡ written_at b start (take (512 - start) ds)
patch-written_at b start ds l h =
    let e : min (length ds) (512 - start) ≡ min (512 - start) (length ds) = omega arith in
    let t : take (min (512 - start) (length ds)) ds ≡ take (512 - start) ds =
      ap (λ m. take m ds) (sym e) ∙ take-min (512 - start) ds in
    let n : min (512 - start) (length ds) ≡ length (take (512 - start) ds) =
      omega (arith, length-take (512 - start) ds) in
    ap (λ ys. take start b ++ (ys ++ drop (start + min (512 - start) (length ds)) b)) t
    ∙ ap (λ m. take start b ++ (take (512 - start) ds ++ drop (start + m) b)) n
    ∙ sym (written_at-parts b start (take (512 - start) ds) (omega (arith, l, h)))

pub length-patch :
    (b : Bytes) (start : ℕ) (ds : Bytes)
    → length b ≡ 512
    → start ≤ 512
    → length (patch b start ds) ≡ 512
length-patch b start ds l h =
    ap length (patch-written_at b start ds l h)
    ∙ length-written_at b start (take (512 - start) ds) (omega (arith, l, h))
    ∙ omega (arith, l, h, length-take (512 - start) ds)

module _ (now p : ℕ) (blk : List ℕ) (count : ℕ) where
  -- A write of the block at the index of `w` leaves `u`.
  pub record Put (w : Written) (b : Bytes) (t : ℕ) (u : Fs) : Type 0 where
    pub goes_on : IsWriting p blk count t u
    pub changed : Changed w.fs (λ k. k ≢ get_or blk w.iblock 0) u
    pub here : shown u (get_or blk w.iblock 0) ≡ b

  write_old_next :
      (n start : ℕ) (w : Written)
      → (length w.rest == 0) ≡ false
      → (inode_at w.fs p).blocks ≡ blk
      → (gs u : Fs) (b : Bytes) → bc_read now (get_or blk w.iblock 0) w.fs ≡ some (gs, b)
      → bc_write now (get_or blk w.iblock 0) (patch b start w.rest) gs ≡ some u
      → write_old now p (suc n) start w
        ≡ write_old now p n 0 (after w (patch b start w.rest) start u)
  unfolding write_old
  write_old_next n start w e f gs u b r s = rw (e, f, r, s, write_old) refl

  pub old_step :
      (n start t : ℕ) (w : Written)
      → IsWriting p blk count (suc (suc t)) w.fs
      → (length w.rest == 0) ≡ false
      → get_or blk w.iblock 0 < count
      → start ≤ 512
      → (u : Fs) × (write_old now p (suc n) start w
          ≡ write_old now p n 0
              (after w (patch (shown w.fs (get_or blk w.iblock 0)) start w.rest) start u))
        × Put w (patch (shown w.fs (get_or blk w.iblock 0)) start w.rest) t u
        × (length (patch (shown w.fs (get_or blk w.iblock 0)) start w.rest) ≡ 512)
  old_step n start t w v e h l =
      let k = get_or blk w.iblock 0 in
      let lt : k < w.fs.blocks.num_blocks = omega (arith, h, v.counted) in
      let len = length-shown w.fs k v.sound lt ∙ v.sized in
      let b = patch (shown w.fs k) start w.rest in
      let len' : length b ≡ 512 = length-patch (shown w.fs k) start w.rest len l in
      let (gs, r, s, same, t') = bc_read-shown now k (suc t) w.fs v.sound v.stamped lt in
      let c : Changed w.fs (λ j. j ≢ k) gs =
        SameView-Changed same (bc_read-SameRest now k w.fs gs (shown w.fs k) r) in
      let (u, r', sh, t'') =
        bc_write-Shows now k t b gs s t' (omega (arith, lt, same.blocks_same))
          (len' ∙ sym (same.size_same ∙ v.sized)) in
      let c' =
        Changed-trans (λ j ne. (ne, ne)) c (Shows-Changed sh (bc_write-SameRest now k b gs u r')) in
      (
        u,
        write_old_next n start w e v.blocks_are gs u (shown w.fs k) r r',
        record { goes_on = Changed-IsWriting v c' sh.sound t''; changed = c'; here = sh.here },
        len',
      )

  write_new_next :
      (n : ℕ) (w : Written)
      → (length w.rest == 0) ≡ false
      → (inode_at w.fs p).blocks ≡ blk
      → (u : Fs) → bc_write now (get_or blk w.iblock 0) (patch w.block 0 w.rest) w.fs ≡ some u
      → write_new now p (suc n) w ≡ write_new now p n (after w (patch w.block 0 w.rest) 0 u)
  unfolding write_new
  write_new_next n w e f u s = rw (e, f, s, write_new) refl

  pub new_step :
      (n t : ℕ) (w : Written)
      → IsWriting p blk count (suc t) w.fs
      → (length w.rest == 0) ≡ false
      → get_or blk w.iblock 0 < count
      → length w.block ≡ 512
      → (u : Fs) × (write_new now p (suc n) w
          ≡ write_new now p n (after w (patch w.block 0 w.rest) 0 u))
        × Put w (patch w.block 0 w.rest) t u
  new_step n t w v e h l =
      let k = get_or blk w.iblock 0 in
      let b = patch w.block 0 w.rest in
      let (u, r, sh, t') =
        bc_write-Shows now k t b w.fs v.sound v.stamped (omega (arith, h, v.counted))
          (length-patch w.block 0 w.rest l (omega arith) ∙ sym v.sized) in
      let c = Shows-Changed sh (bc_write-SameRest now k b w.fs u r) in
      (
        u,
        write_new_next n w e v.blocks_are u r,
        record { goes_on = Changed-IsWriting v c sh.sound t'; changed = c; here = sh.here },
      )
