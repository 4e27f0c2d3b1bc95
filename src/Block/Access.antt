-- ===== src/Block/Access.antt =====
-- What a disk of snfs_server/block.c returns for the blocks that were written and for the others.
pub mod Ranges
use sthreads.Prelude.{
  ℕ, zero, suc, ◌+◌, ◌*◌, ◌^◌, ◌≤◌, ◌<◌, ◌≡◌, ◌≢◌, ◌⊎◌, inl, inr, refl, Option, none, some, List,
  [], ◌∷◌, ◌++◌, arith, leb, length, take, drop, ap, ◌∙◌, replicate, sym, if◌then◌else◌, ◌==◌, ◌%◌,
  Bool-cases, subst,
}
use native.Mathlib.Decide.{dec_lt}
use native.Mathlib.Nat.{mod-eq_of_lt}
use Ranges.{over, over_lem, slice-over_self, slice-over_apart, length-over, take_all, length-slice}
use sthreads.Block.{Bytes, Blocks, mul32, block_new, block_read, block_write}

-- The array holds all blocks, and its size fits an `unsigned`.
pub record IsWhole (d : Blocks) : Type 0 where
  pub full : length d.bytes ≡ d.num_blocks * d.block_size
  pub fits : d.num_blocks * d.block_size < 2 ^ 32

module _ {d : Blocks} (w : IsWhole d) (k : ℕ) (h : k < d.num_blocks) where
  block_end : k * d.block_size + d.block_size ≤ d.num_blocks * d.block_size
  block_end = grind arith

  no_wrap : mul32 k d.block_size ≡ k * d.block_size
  no_wrap = mod-eq_of_lt (grind (arith, block_end, w.fits))

  pub block_read_in : block_read d k ≡ some (take d.block_size (drop (k * d.block_size) d.bytes))
  unfolding block_read
  block_read_in = ground (arith, h, no_wrap)

  pub block_write_in :
      (b : Bytes)
      → length b ≡ d.block_size
      → block_write d k b ≡ some (record d { bytes = over (k * d.block_size) b d.bytes })
  unfolding block_write
  block_write_in b e = ground (
    arith,
    no_wrap,
    take_all b d.block_size e,
    over_lem (k * d.block_size) b d.bytes (omega (arith, block_end, w.full)),
  )

ordered : (j k s : ℕ) → j < k → j * s + s ≤ k * s
ordered j k s h = grind arith

apart :
    (j k s : ℕ) (b : Bytes)
    → j ≢ k
    → length b ≡ s
    → (j * s + s ≤ k * s) ⊎ (k * s + length b ≤ j * s)
apart j k s b ne e = elim (dec_lt j k) [
  | yes h ↦ inl (ordered j k s h)
  | no h ↦ let h' : k < j = omega arith in inr (omega (arith, ordered k j s h'))
]

written : Blocks → ℕ → Bytes → Blocks
written d k b = record d { bytes = over (k * d.block_size) b d.bytes }

-- On a disk whose array holds all blocks and whose size fits an unsigned, a write of a whole
-- block to a number on the disk returns, keeps the disk whole, is read back, and leaves the other
-- blocks.
pub block_write-block_read :
    {d : Blocks} (w : IsWhole d) (k : ℕ) (b : Bytes)
    → k < d.num_blocks
    → length b ≡ d.block_size
    → (d' : Blocks) × (block_write d k b ≡ some d')
      × IsWhole d'
      × (d'.num_blocks ≡ d.num_blocks)
      × (d'.block_size ≡ d.block_size)
      × (block_read d' k ≡ some b)
      × ((j : ℕ) → j < d.num_blocks → j ≢ k → block_read d' j ≡ block_read d j)
unfolding written
block_write-block_read {d} w k b h e =
    (written d k b, block_write_in w k h b e, whole, refl, refl, same, other)
  where
    inside : k * d.block_size + length b ≤ length d.bytes
    inside = omega (arith, block_end w k h, w.full)

    whole : IsWhole (written d k b)
    whole = record {
      full = length-over (k * d.block_size) b d.bytes inside ∙ w.full;
      fits = w.fits;
    }

    same : block_read (written d k b) k ≡ some b
    same =
        block_read_in whole k h
        ∙ ap some (
            ap (λ n. take n (drop (k * d.block_size) (over (k * d.block_size) b d.bytes))) (sym e)
            ∙ slice-over_self (k * d.block_size) b d.bytes inside)

    other : (j : ℕ) → j < d.num_blocks → j ≢ k → block_read (written d k b) j ≡ block_read d j
    other j hj ne =
        block_read_in whole j hj
        ∙ ap some (
            slice-over_apart (j * d.block_size) d.block_size (k * d.block_size) b d.bytes inside
              (apart j k d.block_size b ne e))
        ∙ sym (block_read_in w j hj)

-- Block 0 to n - 1 can be read and hold a block; the others cannot.
pub block_read-length :
    {d : Blocks} (w : IsWhole d) (k : ℕ)
    → k < d.num_blocks
    → (b : Bytes) × (block_read d k ≡ some b) × (length b ≡ d.block_size)
block_read-length {d} w k h = (
  take d.block_size (drop (k * d.block_size) d.bytes),
  block_read_in w k h,
  length-slice (k * d.block_size) d.block_size d.bytes (omega (arith, block_end w k h, w.full)),
)

length-replicate : (n x : ℕ) → length (replicate n x) ≡ n
length-replicate zero x = refl
length-replicate (suc n) x = ap suc (length-replicate n x)

-- A new disk is whole, unless its size is 0 or does not fit.
pub block_new-IsWhole :
    (n sz : ℕ) {d : Blocks} → n * sz < 2 ^ 32 → block_new n sz ≡ some d → IsWhole d
unfolding block_new
block_new-IsWhole n sz {d} h e = elim (Bool-cases (mul32 n sz == 0)) [
  | inl z ↦ absurd (ground arith)
  | inr z ↦
      subst IsWhole (ground arith)
        (record { full = length-replicate (mul32 n sz) 0 ∙ mod-eq_of_lt h; fits = h })
]
