-- ===== src/Prelude/Written.antt =====
-- A list that is written over from a place on, and lemmas on what is written in parts.
use Prim.Native.Nat.{ℕ, zero, suc, ◌+◌, ◌≤◌, min, max}
use mathlib.Core.Path.{◌≡◌, refl, sym, ap, ◌∙◌}
use mathlib.Core.List.{List, [], ◌∷◌, ◌++◌, append-nil}
use native.Mathlib.Omega.{arith}
use sthreads.Prelude.Lists.{length, take, drop, length-append}
use sthreads.Prelude.Slices.{length-drop, length-take}

module _ {ℓ} {A : Type ℓ} where
  -- the list with `ds` from the place on, at most at its end
  abbrev pub written_at : List A → ℕ → List A → List A
  written_at bs zero ds = ds ++ drop (length ds) bs
  written_at [] (suc off) ds = ds
  written_at (x ∷ bs) (suc off) ds = x ∷ written_at bs off ds

  pub drop_nil : (n : ℕ) → drop {A = A} n [] ≡ []
  drop_nil zero = refl
  drop_nil (suc n) = refl

  pub drop_all : (n : ℕ) (xs : List A) → length xs ≤ n → drop n xs ≡ []
  drop_all n [] h = drop_nil n
  drop_all zero (x ∷ xs) h = absurd (omega arith)
  drop_all (suc n) (x ∷ xs) h = drop_all n xs (omega arith)

  pub written_at-nothing : (bs : List A) (off : ℕ) → off ≤ length bs → written_at bs off [] ≡ bs
  written_at-nothing bs zero h = refl
  written_at-nothing [] (suc off) h = absurd (omega arith)
  written_at-nothing (x ∷ bs) (suc off) h =
      ap (λ ys. x ∷ ys) (written_at-nothing bs off (omega arith))

  pub length-over :
      (bs ds : List A) → length (ds ++ drop (length ds) bs) ≡ max (length bs) (length ds)
  length-over bs ds =
      length-append ds (drop (length ds) bs) ∙ omega (arith, length-drop (length ds) bs)

  pub length-written_at :
      (bs : List A) (off : ℕ) (ds : List A)
      → off ≤ length bs
      → length (written_at bs off ds) ≡ max (length bs) (off + length ds)
  length-written_at bs zero ds h = length-over bs ds ∙ omega arith
  length-written_at [] (suc off) ds h = absurd (omega arith)
  length-written_at (x ∷ bs) (suc off) ds h =
      omega (arith, length-written_at bs off ds (omega arith))

  over-pieces :
      (n : ℕ) (bs ds : List A)
      → n ≤ length ds
      → written_at (take n ds ++ drop (length (take n ds)) bs) n (drop n ds)
        ≡ ds ++ drop (length ds) bs
  over-pieces zero bs ds h = refl
  over-pieces (suc n) bs [] h = absurd (omega arith)
  over-pieces (suc n) [] (y ∷ ds) h =
      ap (λ ys. y ∷ written_at (take n ds ++ ys) n (drop n ds))
        (sym (drop_nil (length (take n ds))))
      ∙ ap (λ ys. y ∷ ys) (over-pieces n [] ds (omega arith))
      ∙ ap (λ ys. y ∷ (ds ++ ys)) (drop_nil (length ds))
  over-pieces (suc n) (z ∷ bs) (y ∷ ds) h = ap (λ ys. y ∷ ys) (over-pieces n bs ds (omega arith))

  -- Two parts written one behind the other are the whole.
  pub written_at-pieces :
      (bs : List A) (off n : ℕ) (ds : List A)
      → off ≤ length bs
      → n ≤ length ds
      → written_at (written_at bs off (take n ds)) (off + n) (drop n ds) ≡ written_at bs off ds
  written_at-pieces bs zero n ds h k =
      let e : 0 + n ≡ n = omega arith in
      ap (λ m. written_at (take n ds ++ drop (length (take n ds)) bs) m (drop n ds)) e
      ∙ over-pieces n bs ds k
  written_at-pieces [] (suc off) n ds h k = absurd (omega arith)
  written_at-pieces (x ∷ bs) (suc off) n ds h k =
      let e : suc off + n ≡ suc (off + n) = omega arith in
      ap (λ m. written_at (x ∷ written_at bs off (take n ds)) m (drop n ds)) e
      ∙ ap (λ ys. x ∷ ys) (written_at-pieces bs off n ds (omega arith) k)

  pub take-append_self : (ds bs : List A) → take (length ds) (ds ++ bs) ≡ ds
  take-append_self [] bs = refl
  take-append_self (y ∷ ds) bs = ap (λ ys. y ∷ ys) (take-append_self ds bs)

  -- What was written is found there.
  pub slice-written_at :
      (bs : List A) (off : ℕ) (ds : List A)
      → off ≤ length bs
      → take (length ds) (drop off (written_at bs off ds)) ≡ ds
  slice-written_at bs zero ds h = take-append_self ds (drop (length ds) bs)
  slice-written_at [] (suc off) ds h = absurd (omega arith)
  slice-written_at (x ∷ bs) (suc off) ds h = slice-written_at bs off ds (omega arith)

  pub take_all : (n : ℕ) (xs : List A) → length xs ≤ n → take n xs ≡ xs
  take_all zero [] h = refl
  take_all zero (x ∷ xs) h = absurd (omega arith)
  take_all (suc n) [] h = refl
  take_all (suc n) (x ∷ xs) h = ap (λ ys. x ∷ ys) (take_all n xs (omega arith))

  pub take-take : (n : ℕ) (xs : List A) → take n (take n xs) ≡ take n xs
  take-take n xs = take_all n (take n xs) (omega (arith, length-take n xs))

  pub take-append_le : (n : ℕ) (xs ys : List A) → n ≤ length xs → take n (xs ++ ys) ≡ take n xs
  take-append_le zero xs ys h = refl
  take-append_le (suc n) [] ys h = absurd (omega arith)
  take-append_le (suc n) (x ∷ xs) ys h = ap (λ zs. x ∷ zs) (take-append_le n xs ys (omega arith))

  pub take-take_add : (n m : ℕ) (xs : List A) → take n (take (n + m) xs) ≡ take n xs
  take-take_add zero m xs = refl
  take-take_add (suc n) m [] = ap (take (suc n)) (take_all (suc n + m) [] (omega arith))
  take-take_add (suc n) m (x ∷ xs) =
      let e : suc n + m ≡ suc (n + m) = omega arith in
      ap (λ k. take (suc n) (take k (x ∷ xs))) e ∙ ap (λ zs. x ∷ zs) (take-take_add n m xs)

  pub drop-take_add : (n m : ℕ) (xs : List A) → drop n (take (n + m) xs) ≡ take m (drop n xs)
  drop-take_add zero m xs = let e : 0 + m ≡ m = omega arith in ap (λ k. take k xs) e
  drop-take_add (suc n) m [] =
      ap (drop (suc n)) (take_all (suc n + m) [] (omega arith)) ∙ sym (take_all m [] (omega arith))
  drop-take_add (suc n) m (x ∷ xs) =
      let e : suc n + m ≡ suc (n + m) = omega arith in
      ap (λ k. drop (suc n) (take k (x ∷ xs))) e ∙ drop-take_add n m xs

  pub drop-min : (n : ℕ) (xs : List A) → drop (min n (length xs)) xs ≡ drop n xs
  drop-min zero xs = let e : min 0 (length xs) ≡ 0 = omega arith in ap (λ m. drop m xs) e
  drop-min (suc n) [] = let e : min (suc n) 0 ≡ 0 = omega arith in ap (λ m. drop m []) e
  drop-min (suc n) (x ∷ xs) =
      let e : min (suc n) (suc (length xs)) ≡ suc (min n (length xs)) = omega arith in
      ap (λ m. drop m (x ∷ xs)) e ∙ drop-min n xs

  -- What is written stands between what was there before and behind it.
  pub written_at-parts :
      (bs : List A) (off : ℕ) (ds : List A)
      → off ≤ length bs
      → written_at bs off ds ≡ take off bs ++ (ds ++ drop (off + length ds) bs)
  written_at-parts bs zero ds h =
      let e : length ds ≡ 0 + length ds = omega arith in ap (λ m. ds ++ drop m bs) e
  written_at-parts [] (suc off) ds h = absurd (omega arith)
  written_at-parts (x ∷ bs) (suc off) ds h =
      let e : suc (off + length ds) ≡ suc off + length ds = omega arith in
      ap (λ ys. x ∷ ys) (written_at-parts bs off ds (omega arith))
      ∙ ap (λ m. x ∷ (take off bs ++ (ds ++ drop m (x ∷ bs)))) e

  over-append :
      (b c ds : List A)
      → written_at (b ++ c) 0 ds
        ≡ written_at b 0 (take (length b) ds) ++ written_at c 0 (drop (length b) ds)
  over-append [] c ds = refl
  over-append (x ∷ b) c [] = refl
  over-append (x ∷ b) c (y ∷ ds) = ap (λ ys. y ∷ ys) (over-append b c ds)

  -- A write that starts in the first of two lists goes on in the second.
  pub written_at-append :
      (b c : List A) (off n : ℕ) (ds : List A)
      → length b ≡ off + n
      → written_at (b ++ c) off ds ≡ written_at b off (take n ds) ++ written_at c 0 (drop n ds)
  written_at-append b c zero n ds h =
      let e : length b ≡ n = omega (arith, h) in
      over-append b c ds ∙ ap (λ m. written_at b 0 (take m ds) ++ written_at c 0 (drop m ds)) e
  written_at-append [] c (suc off) n ds h = absurd (omega arith)
  written_at-append (x ∷ b) c (suc off) n ds h =
      ap (λ ys. x ∷ ys) (written_at-append b c off n ds (omega arith))

  pub written_at-behind :
      (a b : List A) (off : ℕ) (ds : List A)
      → written_at (a ++ b) (length a + off) ds ≡ a ++ written_at b off ds
  written_at-behind [] b off ds =
      let e : 0 + off ≡ off = omega arith in ap (λ m. written_at b m ds) e
  written_at-behind (x ∷ a) b off ds =
      let e : suc (length a) + off ≡ suc (length a + off) = omega arith in
      ap (λ m. written_at (x ∷ (a ++ b)) m ds) e ∙ ap (λ ys. x ∷ ys) (written_at-behind a b off ds)

  over-grown :
      (y c : List A) (size m : ℕ) (ds : List A)
      → size ≤ length y
      → m ≡ max (length ds) size
      → take (length (drop (length y) ds)) c ≡ drop (length y) ds
      → take m (written_at y 0 (take (length y) ds) ++ c) ≡ written_at (take size y) 0 ds
  over-grown [] c zero m ds h e k =
      ap (λ m. take m c) (omega (arith, e))
      ∙ k
      ∙ sym (append-nil ds)
      ∙ ap (λ ys. ds ++ ys) (sym (drop_nil (length ds)))
  over-grown [] c (suc size) m ds h e k = absurd (omega arith)
  over-grown (x ∷ y) c size m [] h e k =
      ap (λ m. take m (x ∷ (y ++ c))) (omega (arith, e)) ∙ take-append_le size (x ∷ y) c h
  over-grown (x ∷ y) c size zero (z ∷ ds) h e k = absurd (omega arith)
  over-grown (x ∷ y) c zero (suc m) (z ∷ ds) h e k =
      ap (λ ys. z ∷ ys)
        (over-grown y c zero m ds (omega arith) (omega (arith, e)) k
          ∙ ap (λ ys. ds ++ ys) (drop_nil (length ds)))
  over-grown (x ∷ y) c (suc size) (suc m) (z ∷ ds) h e k =
      ap (λ ys. z ∷ ys) (over-grown y c size m ds (omega arith) (omega (arith, e)) k)

  -- A list that has grown by a write: `y` has what was there and more, and `c` begins with what did
  -- not fit into `y`.
  pub written_at-grown :
      (y c : List A) (off size n m : ℕ) (ds : List A)
      → size ≤ length y
      → off ≤ size
      → length y ≡ off + n
      → m ≡ max (off + length ds) size
      → take (length (drop n ds)) c ≡ drop n ds
      → take m (written_at y off (take n ds) ++ c) ≡ written_at (take size y) off ds
  written_at-grown y c zero size n m ds h o l e k =
      let q : length y ≡ n = omega (arith, l) in
      ap (λ n. take m (written_at y 0 (take n ds) ++ c)) (sym q)
      ∙ over-grown y c size m ds h (omega (arith, e))
          (ap (λ n. take (length (drop n ds)) c) q ∙ k ∙ ap (λ n. drop n ds) (sym q))
  written_at-grown [] c (suc off) size n m ds h o l e k = absurd (omega arith)
  written_at-grown (x ∷ y) c (suc off) zero n m ds h o l e k = absurd (omega arith)
  written_at-grown (x ∷ y) c (suc off) (suc size) n zero ds h o l e k = absurd (omega arith)
  written_at-grown (x ∷ y) c (suc off) (suc size) n (suc m) ds h o l e k =
      ap (λ ys. x ∷ ys)
        (written_at-grown y c off size n m ds (omega arith) (omega arith) (omega arith)
          (omega (arith, e)) k)
