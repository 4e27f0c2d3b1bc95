-- ===== src/Prelude/Slices.antt =====
-- Lemmas on parts of lists that the components share.
use Prim.Native.Nat.{ℕ, zero, suc, ◌+◌, ◌-◌, ◌≤◌, min}
use mathlib.Core.Path.{◌≡◌, refl, sym, ap, ◌∙◌}
use mathlib.Core.List.{List, [], ◌∷◌, ◌++◌}
use native.Mathlib.Omega.{arith}
use sthreads.Prelude.Lists.{length, take, drop}

module _ {ℓ} {A : Type ℓ} where
  pub take-append : (n : ℕ) (b c : List A) → take n (b ++ c) ≡ take n b ++ take (n - length b) c
  take-append zero b c = let e : 0 - length b ≡ 0 = omega arith in sym (ap (λ m. take m c) e)
  take-append (suc n) [] c = let e : suc n ≡ suc n - 0 = omega arith in ap (λ m. take m c) e
  take-append (suc n) (x ∷ b) c =
      let e : n - length b ≡ suc n - suc (length b) = omega arith in
      ap (λ ys. x ∷ ys) (take-append n b c) ∙ ap (λ m. x ∷ (take n b ++ take m c)) e

  pub drop-append : (n : ℕ) (b c : List A) → n ≤ length b → drop n (b ++ c) ≡ drop n b ++ c
  drop-append zero b c h = refl
  drop-append (suc n) [] c h = absurd (omega arith)
  drop-append (suc n) (x ∷ b) c h = drop-append n b c (omega arith)

  pub length-drop : (n : ℕ) (b : List A) → length (drop n b) ≡ length b - n
  length-drop zero b = omega arith
  length-drop (suc n) [] = omega arith
  length-drop (suc n) (x ∷ b) = omega (arith, length-drop n b)

  pub take-min : (n : ℕ) (b : List A) → take (min (length b) n) b ≡ take n b
  take-min zero b = let e : min (length b) 0 ≡ 0 = omega arith in ap (λ m. take m b) e
  take-min (suc n) [] = let e : min 0 (suc n) ≡ 0 = omega arith in ap (λ m. take m []) e
  take-min (suc n) (x ∷ b) =
      let e : min (suc (length b)) (suc n) ≡ suc (min (length b) n) = omega arith in
      ap (λ m. take m (x ∷ b)) e ∙ ap (λ ys. x ∷ ys) (take-min n b)

  pub length-take : (n : ℕ) (xs : List A) → length (take n xs) ≡ min n (length xs)
  length-take zero xs = omega arith
  length-take (suc n) [] = omega arith
  length-take (suc n) (x ∷ xs) = omega (arith, length-take n xs)

  pub take_add : (n m : ℕ) (xs : List A) → take (n + m) xs ≡ take n xs ++ take m (drop n xs)
  take_add zero m xs = let e : 0 + m ≡ m = omega arith in ap (λ k. take k xs) e
  take_add (suc n) zero [] = let e : suc n + 0 ≡ suc n = omega arith in ap (λ k. take k []) e
  take_add (suc n) (suc m) [] =
      let e : suc n + suc m ≡ suc (n + suc m) = omega arith in ap (λ k. take k []) e
  take_add (suc n) m (x ∷ xs) =
      let e : suc n + m ≡ suc (n + m) = omega arith in
      ap (λ k. take k (x ∷ xs)) e ∙ ap (λ ys. x ∷ ys) (take_add n m xs)

  pub drop_add : (n m : ℕ) (xs : List A) → drop (n + m) xs ≡ drop m (drop n xs)
  drop_add zero m xs = let e : 0 + m ≡ m = omega arith in ap (λ k. drop k xs) e
  drop_add (suc n) zero [] = let e : suc n + 0 ≡ suc n = omega arith in ap (λ k. drop k []) e
  drop_add (suc n) (suc m) [] =
      let e : suc n + suc m ≡ suc (n + suc m) = omega arith in ap (λ k. drop k []) e
  drop_add (suc n) m (x ∷ xs) =
      let e : suc n + m ≡ suc (n + m) = omega arith in ap (λ k. drop k (x ∷ xs)) e ∙ drop_add n m xs
