-- ===== src/Fs/Bitmap/Marks.antt =====
-- Which bit of a bitmap of snfs_server/fs.c is taken next.
use sthreads.Prelude.{
  ℕ, zero, suc, ◌+◌, ◌<◌, ◌≤◌, ◌≡◌, ◌⊎◌, inl, inr, refl, subst, true, false, none, some, arith,
  Bool-cases,
}
use native.Mathlib.Decide.{ℕ_discrete}
use sthreads.Block.{Bytes}
use sthreads.Fs.Bitmap.{is_set, find_free_from, find_free}

find_free_from_lem :
    (bmap : Bytes) (i n : ℕ)
    → ((find_free_from bmap i n ≡ none) × ((j : ℕ) → i ≤ j → j < i + n → is_set bmap j ≡ true))
      ⊎ ((k : ℕ) × (find_free_from bmap i n ≡ some k)
          × (i ≤ k)
          × (k < i + n)
          × (is_set bmap k ≡ false)
          × ((j : ℕ) → i ≤ j → j < k → is_set bmap j ≡ true))
unfolding find_free_from
find_free_from_lem bmap i zero = inl (refl, λ j a b. absurd (omega arith))
find_free_from_lem bmap i (suc n) = elim (Bool-cases (is_set bmap i)) [
  | inr e ↦ inr (i, rw e refl, omega arith, omega arith, e, λ j a b. absurd (omega arith))
  | inl e ↦ elim (find_free_from_lem bmap (suc i) n) [
    | inl (f, g) ↦ inl (
      rw e f,
      λ j a b. elim (ℕ_discrete i j) [
        | yes i≡j ↦ subst (λ j. is_set bmap j ≡ true) i≡j e
        | no ne ↦ g j (omega arith) (omega arith)
      ],
    )
    | inr (k, f, a, b, c, g) ↦ inr (
      k,
      rw e f,
      omega arith,
      omega arith,
      c,
      λ j a' b'. elim (ℕ_discrete i j) [
        | yes i≡j ↦ subst (λ j. is_set bmap j ≡ true) i≡j e
        | no ne ↦ g j (omega arith) b'
      ],
    )
  ]
]

-- Fsi_bmap_find_free gives the first clear bit below the size, or nothing if all bits below the
-- size are set.
pub find_free_lem :
    (bmap : Bytes) (size : ℕ)
    → ((find_free bmap size ≡ none) × ((j : ℕ) → j < size → is_set bmap j ≡ true))
      ⊎ ((k : ℕ) × (find_free bmap size ≡ some k)
          × (k < size)
          × (is_set bmap k ≡ false)
          × ((j : ℕ) → j < k → is_set bmap j ≡ true))
unfolding find_free
find_free_lem bmap size = elim (find_free_from_lem bmap 0 size) [
  | inl (f, g) ↦ inl (f, λ j h. g j (omega arith) (omega arith))
  | inr (k, f, a, b, c, g) ↦ inr (k, f, omega arith, c, λ j h. g j (omega arith) h)
]
