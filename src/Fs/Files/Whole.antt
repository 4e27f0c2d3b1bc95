-- ===== src/Fs/Files/Whole.antt =====
-- read_file, the part of fs_read of snfs_server/fs.c behind its checks, over the contents of a file.
use sthreads.Prelude.{
  ℕ, zero, suc, ◌+◌, ◌-◌, ◌*◌, ◌/◌, ◌%◌, ◌<◌, ◌≤◌, ◌≡◌, refl, sym, ap, ◌∙◌, inl, inr, min, true,
  false, some, List, [], ◌∷◌, ◌++◌, arith, leb, ◌==◌, length, get_or, take, drop, drop_all,
  length-take, take_all, drop-take_add, Bool-cases,
}
use sthreads.Block.{Bytes}
use sthreads.Fs.State.{Fs, Inode, fs_file}
use sthreads.Fs.BlockCache.Transparency.{IsSound, SameView, SameView-refl}
use sthreads.Fs.BlockCache.Transfers.{IsStamped}
use sthreads.Fs.BlockCache.Frame.{SameRest, SameRest-refl}
use sthreads.Fs.DirCache.{◌>>=◌}
use sthreads.Fs.Files.{returns, offset_to_blocks, read_file, read_loop}
use sthreads.Fs.Files.Reading.{file_bytes, read_loop-shown}
use sthreads.Fs.Files.Contents.{contents_of, offset_to_blocks_up, halves, length-file_bytes}

take-take-min : (n m : ℕ) (xs : Bytes) → take n (take m xs) ≡ take (min n m) xs
take-take-min zero m xs = let e : 0 ≡ min 0 m = omega arith in ap (λ k. take k xs) e
take-take-min (suc n) zero xs = let e : 0 ≡ min (suc n) 0 = omega arith in ap (λ k. take k xs) e
take-take-min (suc n) (suc m) [] = sym (take_all (min (suc n) (suc m)) [] (omega arith))
take-take-min (suc n) (suc m) (x ∷ xs) =
    let e : suc (min n m) ≡ min (suc n) (suc m) = omega arith in
    ap (λ ys. x ∷ ys) (take-take-min n m xs) ∙ ap (λ k. take k (x ∷ xs)) e

-- The part of a list that is asked for, cut at the end of its head.
part_of_head :
    (count off size : ℕ) (xs : Bytes)
    → off ≤ size
    → take count (drop off (take size xs)) ≡ take (min count (size - off)) (drop off xs)
part_of_head count off size xs h =
    let e : size ≡ off + (size - off) = omega arith in
    ap (λ k. take count (drop off (take k xs))) e
    ∙ ap (take count) (drop-take_add off (size - off) xs)
    ∙ take-take-min count (size - off) (drop off xs)

drop-behind : (a b : Bytes) (n : ℕ) → drop (length a + n) (a ++ b) ≡ drop n b
drop-behind [] b n = ap (λ k. drop k b) (omega arith)
drop-behind (x ∷ a) b n =
    let e : suc (length a) + n ≡ suc (length a + n) = omega arith in
    ap (λ k. drop k (x ∷ (a ++ b))) e ∙ drop-behind a b n

-- The bytes from an offset on begin in the block of the offset.
from_block :
    (fs : Fs) (blk : List ℕ) (used offset : ℕ)
    → IsSound fs
    → fs.blocks.block_size ≡ 512
    → ((j : ℕ) → j < used → get_or blk j 0 < fs.blocks.num_blocks)
    → offset ≤ used * 512
    → drop offset (file_bytes fs blk used 0)
      ≡ drop (offset % 512) (file_bytes fs blk (used - offset / 512) (offset / 512))
from_block fs blk used offset v z h o =
    let first : ℕ = offset / 512 in
    let rest : Bytes = file_bytes fs blk (used - first) first in
    let l = length-file_bytes fs blk first 0 v z (λ j a b. h j (omega arith)) in
    let e : offset ≡ length (file_bytes fs blk first 0) + offset % 512 = omega (arith, l) in
    ap (drop offset) (halves fs blk first (used - first) used (omega arith))
    ∙ ap (λ n. drop n (file_bytes fs blk first 0 ++ rest)) e
    ∙ drop-behind (file_bytes fs blk first 0) rest (offset % 512)

module _ (now offset count : ℕ) (x : Inode) (fs : Fs) where
  read_file_behind :
      x.itype ≡ fs_file → x.size ≤ offset → read_file now offset count x fs ≡ some (fs, returns [])
  unfolding read_file
  read_file_behind t h =
      let e : (x.itype == fs_file) ≡ true = ground (arith, t) in
      let q : leb x.size offset ≡ true = ground (arith, h) in rw (e, q, read_file) refl

  read_file_inside :
      x.itype ≡ fs_file
      → offset < x.size
      → read_file now offset count x fs ≡ (
          read_loop now x.blocks
            (offset_to_blocks x.size - offset / 512)
            (offset / 512)
            (offset % 512)
            (min count (x.size - offset))
            []
            fs
          >>= λ r. some (r.0, returns r.1))
  unfolding read_file
  read_file_inside t h =
      let e : (x.itype == fs_file) ≡ true = ground (arith, t) in
      let q : leb x.size offset ≡ false = ground (arith, h) in rw (e, q, read_file) refl

  -- What is read is what the contents of the file have there.
  pub read_file-contents :
      IsSound fs
      → IsStamped fs (offset_to_blocks x.size)
      → fs.blocks.block_size ≡ 512
      → ((j : ℕ) → j < offset_to_blocks x.size → get_or x.blocks j 0 < fs.blocks.num_blocks)
      → x.itype ≡ fs_file
      → (fs' : Fs) × (read_file now offset count x fs
          ≡ some (fs', returns (take count (drop offset (contents_of fs x)))))
        × IsSound fs'
        × SameView fs fs'
        × SameRest fs fs'
  unfolding contents_of
  read_file-contents v s z h t = elim (Bool-cases (leb x.size offset)) [
    | inl e ↦
        let le : x.size ≤ offset = ground (arith, e) in
        let all = file_bytes fs x.blocks (offset_to_blocks x.size) 0 in
        let none_there : take count (drop offset (take x.size all)) ≡ [] =
          ap (take count)
            (drop_all offset (take x.size all) (omega (arith, le, length-take x.size all)))
          ∙ take_all count [] (omega arith) in
        (
          fs,
          read_file_behind t le ∙ ap (λ b. some (fs, returns b)) (sym none_there),
          v,
          SameView-refl fs,
          SameRest-refl fs,
        )
    | inr e ↦
        let lt : offset < x.size = ground (arith, e) in
        let used : ℕ = offset_to_blocks x.size in
        let first : ℕ = offset / 512 in
        let top = offset_to_blocks_up x.size in
        let (fs', r, v', same, rest) =
          read_loop-shown now x.blocks (used - first) first (offset % 512)
            (min count (x.size - offset)) [] fs v
            (record { behind = s.behind; room = omega (arith, s.room) }) z
            (λ j a b. h j (omega (arith, b, lt, top))) (omega arith) in
        (
          fs',
          read_file_inside t lt
              ∙ ap (λ o. o >>= λ r. some (r.0, returns r.1)) r
              ∙ ap (λ b. some (fs', returns b))
                  (ap (take (min count (x.size - offset)))
                      (sym (from_block fs x.blocks used offset v z h (omega (arith, lt, top))))
                    ∙ sym (
                        part_of_head count offset x.size (file_bytes fs x.blocks used 0)
                          (omega (arith, lt)))),
          v',
          same,
          rest,
        )
  ]
