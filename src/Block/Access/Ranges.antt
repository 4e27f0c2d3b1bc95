-- ===== src/Block/Access/Ranges.antt =====
-- A range of an array of bytes, written and read: the `memcpy` of snfs_server/block.c.
use sthreads.Prelude.{
  ℕ, zero, suc, ◌+◌, ◌≤◌, ◌≡◌, ◌⊎◌, inl, inr, refl, [], ◌∷◌, ◌++◌, arith, length, take, drop, ap,
  ◌∙◌,
}
use sthreads.Block.{Bytes}

-- `b` written over `xs` from the index `at` on
pub over : ℕ → Bytes → Bytes → Bytes
over zero b xs = b ++ drop (length b) xs
over (suc at) b [] = []
over (suc at) b (x ∷ xs) = x ∷ over at b xs

drop-append_self :
    (a : ℕ) (b xs : Bytes)
    → length b ≤ length xs
    → length b ≤ a
    → drop a (b ++ drop (length b) xs) ≡ drop a xs
drop-append_self a [] xs h k = refl
drop-append_self a (x ∷ b) [] h k = absurd (omega arith)
drop-append_self zero (x ∷ b) (y ∷ xs) h k = absurd (omega arith)
drop-append_self (suc a) (x ∷ b) (y ∷ xs) h k = drop-append_self a b xs (omega arith) (omega arith)

take-append_self : (b xs : Bytes) → take (length b) (b ++ xs) ≡ b
take-append_self [] xs = refl
take-append_self (x ∷ b) xs = ap (◌∷◌ x) (take-append_self b xs)

pub over_lem :
    (at : ℕ) (b xs : Bytes)
    → at + length b ≤ length xs
    → take at xs ++ (b ++ drop (at + length b) xs) ≡ over at b xs
unfolding over
over_lem zero b xs h = ap (λ k. b ++ drop k xs) (omega arith)
over_lem (suc at) b [] h = absurd (omega arith)
over_lem (suc at) b (x ∷ xs) h =
    let e : suc at + length b ≡ suc (at + length b) = omega arith in
    ap (λ k. x ∷ (take at xs ++ (b ++ drop k (x ∷ xs)))) e
    ∙ ap (◌∷◌ x) (over_lem at b xs (omega arith))

length-append_drop :
    (b xs : Bytes) → length b ≤ length xs → length (b ++ drop (length b) xs) ≡ length xs
length-append_drop [] xs h = refl
length-append_drop (x ∷ b) [] h = absurd (omega arith)
length-append_drop (x ∷ b) (y ∷ xs) h = ap suc (length-append_drop b xs (omega arith))

pub length-over :
    (at : ℕ) (b xs : Bytes) → at + length b ≤ length xs → length (over at b xs) ≡ length xs
unfolding over
length-over zero b xs h = length-append_drop b xs (omega arith)
length-over (suc at) b [] h = refl
length-over (suc at) b (x ∷ xs) h = ap suc (length-over at b xs (omega arith))

-- The range that was written holds what was written.
pub slice-over_self :
    (at : ℕ) (b xs : Bytes)
    → at + length b ≤ length xs
    → take (length b) (drop at (over at b xs)) ≡ b
unfolding over
slice-over_self zero b xs h = take-append_self b (drop (length b) xs)
slice-over_self (suc at) b [] h = absurd (omega arith)
slice-over_self (suc at) b (x ∷ xs) h = slice-over_self at b xs (omega arith)

take-over : (w at : ℕ) (b xs : Bytes) → w ≤ at → take w (over at b xs) ≡ take w xs
unfolding over
take-over zero at b xs h = refl
take-over (suc w) zero b xs h = absurd (omega arith)
take-over (suc w) (suc at) b [] h = refl
take-over (suc w) (suc at) b (x ∷ xs) h = ap (◌∷◌ x) (take-over w at b xs (omega arith))

-- A range apart from it is as it was.
pub slice-over_apart :
    (a w at : ℕ) (b xs : Bytes)
    → at + length b ≤ length xs
    → (a + w ≤ at) ⊎ (at + length b ≤ a)
    → take w (drop a (over at b xs)) ≡ take w (drop a xs)
unfolding over
slice-over_apart a w zero b xs h (inr k) =
    ap (take w) (drop-append_self a b xs (omega arith) (omega arith))
slice-over_apart a zero zero b xs h (inl k) = refl
slice-over_apart a (suc w) zero b xs h (inl k) = absurd (omega arith)
slice-over_apart a w (suc at) b [] h k = absurd (omega arith)
slice-over_apart zero w (suc at) b (x ∷ xs) h (inl k) =
    take-over w (suc at) b (x ∷ xs) (omega arith)
slice-over_apart zero w (suc at) b (x ∷ xs) h (inr k) = absurd (omega arith)
slice-over_apart (suc a) w (suc at) b (x ∷ xs) h k =
    slice-over_apart a w at b xs (omega arith) (omega arith)

pub take_all : (b : Bytes) (n : ℕ) → length b ≡ n → take n b ≡ b
take_all [] zero e = refl
take_all [] (suc n) e = refl
take_all (x ∷ b) zero e = absurd (omega arith)
take_all (x ∷ b) (suc n) e = ap (◌∷◌ x) (take_all b n (omega arith))

pub length-slice : (a w : ℕ) (xs : Bytes) → a + w ≤ length xs → length (take w (drop a xs)) ≡ w
length-slice zero zero xs h = refl
length-slice zero (suc w) [] h = absurd (omega arith)
length-slice zero (suc w) (x ∷ xs) h = ap suc (length-slice zero w xs (omega arith))
length-slice (suc a) w [] h = absurd (omega arith)
length-slice (suc a) w (x ∷ xs) h = length-slice a w xs (omega arith)
