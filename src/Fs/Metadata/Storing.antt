-- ===== src/Fs/Metadata/Storing.antt =====
-- Where fsi_store_fsdata of snfs_server/fs.c puts the bitmaps and the table on the disk.
use sthreads.Prelude.{
  ℕ, zero, suc, ◌+◌, ◌*◌, ◌<◌, ◌≤◌, ◌≡◌, ◌≢◌, refl, ap, ◌∙◌, subst, some, arith, length, take, drop,
  take_all, length-take, length-drop,
}
use native.Mathlib.Decide.{ℕ_discrete}
use sthreads.Block.{Bytes, Blocks, block_read, block_write}
use sthreads.Block.Access.{IsWhole, block_write-block_read}
use sthreads.Fs.State.{Fs}
use sthreads.Fs.BlockCache.{disk_write}
use sthreads.Fs.BlockCache.Frame.{SameRest, SameRest-refl, SameRest-trans, disk_write-SameRest}
use sthreads.Fs.Metadata.{store_tab}

-- A disk of blocks of 512 bytes, with the ten blocks of the metadata at least.
pub record IsFormatted (d : Blocks) : Type 0 where
  pub whole : IsWhole d
  pub sized : d.block_size ≡ 512
  pub enough : 10 ≤ d.num_blocks

-- `gs` holds `b` in the block `k` of the disk, and what `fs` holds in the others.
pub record Puts (fs : Fs) (k : ℕ) (b : Bytes) (gs : Fs) : Type 0 where
  pub formatted : IsFormatted gs.blocks
  pub here : block_read gs.blocks k ≡ some b
  pub others :
      (j : ℕ) → j < fs.blocks.num_blocks → j ≢ k → block_read gs.blocks j ≡ block_read fs.blocks j
  pub count_same : gs.blocks.num_blocks ≡ fs.blocks.num_blocks

take-twice : (n : ℕ) (bs : Bytes) → take n (take n bs) ≡ take n bs
take-twice n bs = take_all n (take n bs) (omega (arith, length-take n bs))

-- A buffer that is longer than a block is cut.
block_write-take :
    (d : Blocks) (k : ℕ) (b : Bytes) → block_write d k b ≡ block_write d k (take d.block_size b)
unfolding block_write
block_write-take d k b = rw (take-twice d.block_size b) refl

disk_write-is :
    (fs : Fs) (k : ℕ) (b : Bytes) (d : Blocks)
    → block_write fs.blocks k b ≡ some d
    → disk_write fs k b ≡ record fs { blocks = d }
unfolding disk_write
disk_write-is fs k b d e = rw (e, disk_write) refl

pub disk_write-Puts :
    (fs : Fs) (k : ℕ) (b : Bytes)
    → IsFormatted fs.blocks
    → k < fs.blocks.num_blocks
    → 512 ≤ length b
    → Puts fs k (take 512 b) (disk_write fs k b)
disk_write-Puts fs k b v h l =
    let (d, e, w, n, z, same, other) =
      block_write-block_read v.whole k (take 512 b) h
        (omega (arith, length-take 512 b, l, v.sized)) in
    let q : disk_write fs k b ≡ record fs { blocks = d } =
      disk_write-is fs k b d (
        block_write-take fs.blocks k b
        ∙ ap (λ m. block_write fs.blocks k (take m b)) v.sized
        ∙ e) in
    rw q (record {
      formatted = record { whole = w; sized = z ∙ v.sized; enough = omega (arith, n, v.enough) };
      here = same;
      others = other;
      count_same = n;
    })

-- The blocks of the table from the block `i` on are on the disk.
pub record TabStored (tab : Bytes) (i n : ℕ) (fs gs : Fs) : Type 0 where
  pub formatted : IsFormatted gs.blocks
  pub there :
      (j : ℕ)
      → i ≤ j
      → j < i + n
      → block_read gs.blocks (j + 2) ≡ some (take 512 (drop (j * 512) tab))
  pub others :
      (k : ℕ)
      → k < fs.blocks.num_blocks
      → ((j : ℕ) → i ≤ j → j < i + n → k ≢ j + 2)
      → block_read gs.blocks k ≡ block_read fs.blocks k
  pub count_same : gs.blocks.num_blocks ≡ fs.blocks.num_blocks
  pub rest : SameRest fs gs

pub store_tab-TabStored :
    (tab : Bytes) (i n : ℕ) (fs : Fs)
    → IsFormatted fs.blocks
    → i + n ≤ 8
    → length tab ≡ 4096
    → TabStored tab i n fs (store_tab tab i n fs)
unfolding store_tab
store_tab-TabStored tab i zero fs v h l = record {
  formatted = v;
  there = λ j a b. absurd (omega arith);
  others = λ k h f. refl;
  count_same = refl;
  rest = SameRest-refl fs;
}
store_tab-TabStored tab i (suc n) fs v h l =
    let b : Bytes = drop (i * 512) tab in
    let p =
      disk_write-Puts fs (i + 2) b v (omega (arith, v.enough))
        (omega (arith, length-drop (i * 512) tab, l)) in
    let w =
      store_tab-TabStored tab (suc i) n (disk_write fs (i + 2) b) p.formatted (omega arith) l in
    record {
      formatted = w.formatted;
      there = λ j a c. elim (ℕ_discrete i j) [
        | yes e ↦
            subst
              (λ j.
                block_read (store_tab tab (suc i) n (disk_write fs (i + 2) b)).blocks (j + 2)
                ≡ some (take 512 (drop (j * 512) tab)))
              e
              (w.others (i + 2) (omega (arith, v.enough, p.count_same))
                  (λ k x y q. omega (arith, x, q))
                ∙ p.here)
        | no ne ↦ w.there j (omega arith) (omega arith)
      ];
      others = λ k x f.
          w.others k (omega (arith, x, p.count_same)) (λ j y z. f j (omega arith) (omega arith))
          ∙ p.others k x (f i (omega arith) (omega arith));
      count_same = w.count_same ∙ p.count_same;
      rest = SameRest-trans (disk_write-SameRest fs (i + 2) b) w.rest;
    }
