-- ===== src/Fs/Bitmap/Clear.antt =====
-- How many bits of a bitmap of snfs_server/fs.c are clear. The array may have fewer bits than the disk has
-- blocks: an allocation stays inside of it as long as the first clear bit does.
use sthreads.Prelude.{
  ℕ, zero, suc, ◌+◌, ◌*◌, ◌/◌, ◌<◌, ◌≤◌, ◌≡◌, ◌⊎◌, inl, inr, min, true, false, arith, length,
  if◌then◌else◌, Bool-cases,
}
use native.Mathlib.Decide.{ℕ_discrete, dec_lt}
use sthreads.Block.{Bytes}
use sthreads.Fs.Bitmap.{is_set, set_bit}
use sthreads.Fs.Bitmap.Setting.{is_set-set_bit_ne, length-set_bit}

-- the clear bits below `n`
unfoldable pub clear_bits : Bytes → ℕ → ℕ
clear_bits bmap zero = 0
clear_bits bmap (suc n) = clear_bits bmap n + (if is_set bmap n then 0 else 1)

clear_bit :
    (bmap : Bytes) (n : ℕ) → 0 < clear_bits bmap n → (k : ℕ) × (k < n) × (is_set bmap k ≡ false)
unfolding clear_bits
clear_bit bmap zero h = absurd (omega (arith, h))
clear_bit bmap (suc n) h = elim (Bool-cases (is_set bmap n)) [
  | inl e ↦ let (k, l, c) = clear_bit bmap n (ground (arith, h, e)) in (k, omega arith, c)
  | inr e ↦ (n, omega arith, e)
]

module _ (bmap : Bytes) (k : ℕ) (h : k / 8 < length bmap) where
  clear_bits_below : (n : ℕ) → n ≤ k → clear_bits (set_bit bmap k) n ≡ clear_bits bmap n
  unfolding clear_bits
  clear_bits_below zero l = omega arith
  clear_bits_below (suc n) l =
      rw (is_set-set_bit_ne bmap k n h (λ e. omega (arith, e, l)))
        (omega (arith, clear_bits_below n (omega arith)))

  -- A bit that is set is at most one clear bit fewer.
  pub clear_bits-set_bit : (n : ℕ) → clear_bits bmap n ≤ suc (clear_bits (set_bit bmap k) n)
  unfolding clear_bits
  clear_bits-set_bit zero = omega arith
  clear_bits-set_bit (suc n) = elim (ℕ_discrete k n) [
    | yes e ↦ ground (arith, clear_bits_below n (omega (arith, e)))
    | no ne ↦ rw (is_set-set_bit_ne bmap k n h ne) (omega (arith, clear_bits-set_bit n))
  ]

-- The bitmap suffices for `n` allocations of `blocks` blocks: it has a bit for each block, or it
-- has as many clear bits.
abbrev pub Suffices : ℕ → ℕ → Bytes → Type 0
Suffices n blocks bmap =
    (blocks ≤ 8 * length bmap) ⊎ (n ≤ clear_bits bmap (min blocks (8 * length bmap)))

pub Suffices-le :
    {n m : ℕ} (blocks : ℕ) (bmap : Bytes) → m ≤ n → Suffices n blocks bmap → Suffices m blocks bmap
Suffices-le blocks bmap h (inl e) = inl e
Suffices-le blocks bmap h (inr e) = inr (omega arith)

-- The first clear bit is then one of the array.
pub first_inside :
    (n blocks k : ℕ) (bmap : Bytes)
    → Suffices (suc n) blocks bmap
    → k < blocks
    → ((j : ℕ) → j < k → is_set bmap j ≡ true)
    → k / 8 < length bmap
first_inside n blocks k bmap (inl e) lt all = omega arith
first_inside n blocks k bmap (inr e) lt all =
    let (i, l, c) = clear_bit bmap (min blocks (8 * length bmap)) (omega (arith, e)) in
    elim (dec_lt i k) [ yes b ↦ absurd (cc (all i b, c)) | no b ↦ omega (arith, b, l) ]

pub Suffices-set_bit :
    (n blocks k : ℕ) (bmap : Bytes)
    → k / 8 < length bmap
    → Suffices (suc n) blocks bmap
    → Suffices n blocks (set_bit bmap k)
Suffices-set_bit n blocks k bmap h (inl e) = inl (omega (arith, length-set_bit bmap k, e))
Suffices-set_bit n blocks k bmap h (inr e) = inr (
    rw (length-set_bit bmap k)
      (omega (arith, e, clear_bits-set_bit bmap k h (min blocks (8 * length bmap)))))

clear_bits_mono : (bmap : Bytes) (n m : ℕ) → n ≤ m → clear_bits bmap n ≤ clear_bits bmap m
unfolding clear_bits
clear_bits_mono bmap n zero h = let none_below : n ≡ 0 = omega arith in rw none_below (omega arith)
clear_bits_mono bmap n (suc m) h = elim (ℕ_discrete n (suc m)) [
  | yes e ↦ rw e (omega arith)
  | no ne ↦ omega (arith, clear_bits_mono bmap n m (omega arith))
]

-- The clear bits below a number that the array has bits for are enough.
pub enough_below :
    (n blocks k : ℕ) (bmap : Bytes)
    → k ≤ blocks
    → k ≤ 8 * length bmap
    → n ≤ clear_bits bmap k
    → Suffices n blocks bmap
enough_below n blocks k bmap b l h =
    inr (omega (arith, h, clear_bits_mono bmap k (min blocks (8 * length bmap)) (omega arith)))
