-- ===== src/Fs/Files/Reading.antt =====
-- What a read of a file of snfs_server/fs.c gives, in terms of the blocks that the block cache shows.
use sthreads.Prelude.{
  ℕ, zero, suc, ◌+◌, ◌-◌, ◌<◌, ◌≤◌, ◌≡◌, refl, inl, inr, sym, ap, ◌∙◌, subst, min, some, List, [],
  ◌++◌, arith, length, get_or, take, drop, append-nil, append_assoc, take-append, drop-append,
  length-drop, take-min,
}
use sthreads.Block.{Bytes}
use sthreads.Fs.State.{Fs}
use sthreads.Block.Access.{block_read-length}
use sthreads.Cache.Coherence.{held_cases}
use sthreads.Fs.BlockCache.Transparency.{
  shown_held, shown_missing, stored-some, shown, IsSound, SameView, SameView-refl, SameView-trans,
}
use sthreads.Fs.BlockCache.Transfers.{IsStamped}
use sthreads.Fs.BlockCache.Frame.{SameRest, SameRest-refl, SameRest-trans, bc_read-SameRest}
use sthreads.Fs.BlockCache.Reading.{bc_read-shown}
use sthreads.Fs.DirCache.{◌>>=◌}
use sthreads.Fs.Files.{read_loop}

-- The `n` blocks of a file from the index `i` on, one behind the other.
unfoldable pub file_bytes : Fs → List ℕ → ℕ → ℕ → Bytes
file_bytes fs blk zero i = []
file_bytes fs blk (suc n) i = shown fs (get_or blk i 0) ++ file_bytes fs blk n (suc i)

-- What is read from the first block and what from the rest.
split :
    (start left : ℕ) (b c : Bytes)
    → start ≤ length b
    → take left (drop start (b ++ c))
      ≡ take (min (length b - start) left) (drop start b)
        ++ take (left - min (length b - start) left) c
split start left b c h =
    let l : length (drop start b) ≡ length b - start = length-drop start b in
    let e : left - length (drop start b) ≡ left - min (length b - start) left = omega (arith, l) in
    ap (take left) (drop-append start b c h)
    ∙ take-append left (drop start b) c
    ∙ ap (λ m. take left (drop start b) ++ take m c) e
    ∙ ap (λ ys. ys ++ take (left - min (length b - start) left) c)
        (sym (take-min left (drop start b)) ∙ ap (λ m. take (min m left) (drop start b)) l)

-- A block that the cache shows is whole.
pub length-shown :
    (fs : Fs) (k : ℕ)
    → IsSound fs
    → k < fs.blocks.num_blocks
    → length (shown fs k) ≡ fs.blocks.block_size
length-shown fs k v h = elim (held_cases [] fs.bcache k) [
  | inl (j, ok, e) ↦ ap length (shown_held fs j k v ok e) ∙ v.sized j ok
  | inr m ↦
      let (b, e, l) = block_read-length v.whole k h in
      ap length (shown_missing fs k m ∙ stored-some fs.blocks k b e) ∙ l
]

file_bytes-same :
    (fs gs : Fs) (blk : List ℕ) (n i : ℕ)
    → SameView fs gs
    → ((j : ℕ) → i ≤ j → j < i + n → get_or blk j 0 < fs.blocks.num_blocks)
    → file_bytes gs blk n i ≡ file_bytes fs blk n i
unfolding file_bytes
file_bytes-same fs gs blk zero i w h = refl
file_bytes-same fs gs blk (suc n) i w h =
    rw
      (
        w.same (get_or blk i 0) (h i (omega arith) (omega arith)),
        file_bytes-same fs gs blk n (suc i) w (λ j a b. h j (omega arith) (omega arith)),
      )
      refl

nothing : (left start : ℕ) → take {A = ℕ} left (drop start []) ≡ []
nothing zero start = refl
nothing (suc left) zero = refl
nothing (suc left) (suc start) = refl

-- On a sound block cache of a disk of blocks of 512 bytes, whose clock has a step to go for each
-- block of the file that is left, with the block numbers of the file on the disk and a start in
-- the first block, the loop of fs_read returns, appends to the buffer the bytes that are asked
-- for of the blocks as the cache shows them, as far as the file has them, and keeps the cache
-- sound and what it shows, and all else but the disk and the clock.
pub read_loop-shown :
    (now : ℕ) (blk : List ℕ) (n i start left : ℕ) (buffer : Bytes) (fs : Fs)
    → IsSound fs
    → IsStamped fs n
    → fs.blocks.block_size ≡ 512
    → ((j : ℕ) → i ≤ j → j < i + n → get_or blk j 0 < fs.blocks.num_blocks)
    → start ≤ 512
    → (fs' : Fs) × (read_loop now blk n i start left buffer fs
        ≡ some (fs', buffer ++ take left (drop start (file_bytes fs blk n i))))
      × IsSound fs'
      × SameView fs fs'
      × SameRest fs fs'
unfolding read_loop file_bytes
read_loop-shown now blk zero i start left buffer fs v t z h l = (
  fs,
  ap (λ b. some (fs, b))
      (sym (append-nil buffer) ∙ ap (λ c. buffer ++ c) (sym (nothing left start))),
  v,
  SameView-refl fs,
  SameRest-refl fs,
)
read_loop-shown now blk (suc n) i start zero buffer fs v t z h l =
    (fs, ap (λ b. some (fs, b)) (sym (append-nil buffer)), v, SameView-refl fs, SameRest-refl fs)
read_loop-shown now blk (suc n) i start (suc left) buffer fs v t z h l =
    let b : Bytes = shown fs (get_or blk i 0) in
    let len : length b ≡ 512 =
      length-shown fs (get_or blk i 0) v (h i (omega arith) (omega arith)) ∙ z in
    let num : ℕ = min (512 - start) (suc left) in
    let (gs, e, w, same, u) =
      bc_read-shown now (get_or blk i 0) n fs v t (h i (omega arith) (omega arith)) in
    let (hs, e', w', same', rest) =
      read_loop-shown now blk n (suc i) 0 (suc left - num) (buffer ++ take num (drop start b)) gs w
        u (same.size_same ∙ z)
        (λ j a b.
          subst (λ m. get_or blk j 0 < m) (sym same.blocks_same) (h j (omega arith) (omega arith)))
        (omega arith) in
    (
      hs,
      ap
            (λ o. o >>= λ r.
              read_loop now blk n (suc i) 0 (suc left - num) (buffer ++ take num (drop start r.1))
                r.0)
            e
          ∙ e'
          ∙ ap (λ x. some (hs, x))
              (append_assoc buffer (take num (drop start b)) _
                ∙ ap (λ x. buffer ++ x)
                    (ap (λ c. take num (drop start b) ++ take (suc left - num) c)
                        (file_bytes-same fs gs blk n (suc i) same
                          (λ j a b. h j (omega arith) (omega arith)))
                      ∙ subst
                          (λ m.
                            take (min (m - start) (suc left)) (drop start b)
                              ++ take (suc left - min (m - start) (suc left))
                                  (file_bytes fs blk n (suc i))
                            ≡ take (suc left) (drop start (b ++ file_bytes fs blk n (suc i))))
                          len
                          (sym (
                            split start (suc left) b (file_bytes fs blk n (suc i))
                              (omega (arith, len, l)))))),
      w',
      SameView-trans same same',
      SameRest-trans (bc_read-SameRest now (get_or blk i 0) fs gs b e) rest,
    )
