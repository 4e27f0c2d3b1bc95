-- ===== src/Fs/Bitmap/Setting.antt =====
-- What a bit that is set in a bitmap of snfs_server/fs.c changes.
use sthreads.Prelude.{
  ℕ, zero, suc, ◌+◌, ◌/◌, ◌%◌, ◌^◌, ◌<◌, ◌≡◌, ◌≢◌, refl, sym, ap, ◌∙◌, true, false, inl, inr, arith,
  ◌==◌, length, length-set, get_or, set, get_or-set_self, get_or-set_ne, Bool-cases,
}
use native.Mathlib.Nat.{div-div-eq-div-mul, pow-succ'}
use native.Mathlib.Decide.{ℕ_discrete}
use sthreads.Block.{Bytes}
use sthreads.Fs.Bitmap.{is_set, set_bit}

bit : ℕ → ℕ → ℕ
bit b i = b / 2 ^ i % 2

-- The bit above is that of the half.
bit-suc : (b i : ℕ) → bit b (suc i) ≡ bit (b / 2) i
unfolding bit
bit-suc b i =
    ap (λ m. b / m % 2) (pow-succ' 2 i) ∙ ap (λ m. m % 2) (sym (div-div-eq-div-mul b 2 (2 ^ i)))

half_added : (b i : ℕ) → (b + 2 ^ suc i) / 2 ≡ b / 2 + 2 ^ i
half_added b i = omega (arith, pow-succ' 2 i)

-- A bit that is clear is set by adding its power of two.
bit_self : (b i : ℕ) → bit b i ≡ 0 → bit (b + 2 ^ i) i ≡ 1
unfolding bit
bit_self b zero h = omega (arith, h)
bit_self b (suc i) h =
    bit-suc (b + 2 ^ suc i) i
    ∙ ap (λ m. bit m i) (half_added b i)
    ∙ bit_self (b / 2) i (sym (bit-suc b i) ∙ h)

-- And the other bits stay, since there is no carry.
bit_other : (b i j : ℕ) → bit b i ≡ 0 → i ≢ j → bit (b + 2 ^ i) j ≡ bit b j
unfolding bit
bit_other b zero zero h ne = absurd (ne refl)
bit_other b zero (suc j) h ne =
    let e : (b + 2 ^ 0) / 2 ≡ b / 2 = omega (arith, h) in
    bit-suc (b + 2 ^ 0) j ∙ ap (λ m. bit m j) e ∙ sym (bit-suc b j)
bit_other b (suc i) zero h ne = omega (arith, pow-succ' 2 i)
bit_other b (suc i) (suc j) h ne =
    bit-suc (b + 2 ^ suc i) j
    ∙ ap (λ m. bit m j) (half_added b i)
    ∙ bit_other (b / 2) i j (sym (bit-suc b i) ∙ h) (λ e. ne (ap suc e))
    ∙ sym (bit-suc b j)

is_set-bit : (bmap : Bytes) (n : ℕ) → is_set bmap n ≡ (bit (get_or bmap (n / 8) 0) (n % 8) == 1)
unfolding is_set bit
is_set-bit bmap n = refl

clear_bit : (bmap : Bytes) (n : ℕ) → is_set bmap n ≡ false → bit (get_or bmap (n / 8) 0) (n % 8) ≡ 0
unfolding is_set bit
clear_bit bmap n h = ground (arith, h)

set_bit_clear :
    (bmap : Bytes) (n : ℕ)
    → is_set bmap n ≡ false
    → set_bit bmap n ≡ set bmap (n / 8) (get_or bmap (n / 8) 0 + 2 ^ (n % 8))
unfolding set_bit
set_bit_clear bmap n e = rw (e, set_bit) refl

set_bit_set : (bmap : Bytes) (n : ℕ) → is_set bmap n ≡ true → set_bit bmap n ≡ bmap
unfolding set_bit
set_bit_set bmap n e = rw (e, set_bit) refl

pub is_set-set_bit_self :
    (bmap : Bytes) (n : ℕ) → n / 8 < length bmap → is_set (set_bit bmap n) n ≡ true
is_set-set_bit_self bmap n h = elim (Bool-cases (is_set bmap n)) [
  | inl e ↦ ap (λ b. is_set b n) (set_bit_set bmap n e) ∙ e
  | inr e ↦
      let b = get_or bmap (n / 8) 0 in
      ap (λ b. is_set b n) (set_bit_clear bmap n e)
      ∙ is_set-bit (set bmap (n / 8) (b + 2 ^ (n % 8))) n
      ∙ ap (λ x. bit x (n % 8) == 1) (get_or-set_self bmap (n / 8) (b + 2 ^ (n % 8)) 0 h)
      ∙ ap (λ x. x == 1) (bit_self b (n % 8) (clear_bit bmap n e))
]

pub is_set-set_bit_ne :
    (bmap : Bytes) (n m : ℕ)
    → n / 8 < length bmap
    → n ≢ m
    → is_set (set_bit bmap n) m ≡ is_set bmap m
is_set-set_bit_ne bmap n m h ne = elim (Bool-cases (is_set bmap n)) [
  | inl e ↦ ap (λ b. is_set b m) (set_bit_set bmap n e)
  | inr e ↦
      let b = get_or bmap (n / 8) 0 in
      let bmap' = set bmap (n / 8) (b + 2 ^ (n % 8)) in
      ap (λ b. is_set b m) (set_bit_clear bmap n e)
      ∙ is_set-bit bmap' m
      ∙ elim (ℕ_discrete (n / 8) (m / 8)) [
        | no q ↦
            ap (λ x. bit x (m % 8) == 1) (get_or-set_ne bmap (n / 8) (m / 8) (b + 2 ^ (n % 8)) 0 q)
        | yes q ↦
            ap (λ k. bit (get_or bmap' k 0) (m % 8) == 1) (sym q)
            ∙ ap (λ x. bit x (m % 8) == 1) (get_or-set_self bmap (n / 8) (b + 2 ^ (n % 8)) 0 h)
            ∙ ap (λ x. x == 1)
                (bit_other b (n % 8) (m % 8) (clear_bit bmap n e) (λ r. ne (omega (arith, q, r))))
            ∙ ap (λ k. bit (get_or bmap k 0) (m % 8) == 1) q
      ]
      ∙ sym (is_set-bit bmap m)
]

pub length-set_bit : (bmap : Bytes) (n : ℕ) → length (set_bit bmap n) ≡ length bmap
length-set_bit bmap n = elim (Bool-cases (is_set bmap n)) [
  | inl e ↦ ap length (set_bit_set bmap n e)
  | inr e ↦ ap length (set_bit_clear bmap n e) ∙ length-set bmap (n / 8) _
]
