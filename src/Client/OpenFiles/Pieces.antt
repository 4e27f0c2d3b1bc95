-- ===== src/Client/OpenFiles/Pieces.antt =====
-- Contents of a file read in parts, and the fuel for the parts, for my_read and my_write of
-- snfs_lib/myfs.c.
use sthreads.Prelude.{
  ℕ, zero, suc, ◌+◌, ◌-◌, ◌*◌, ◌<◌, ◌≤◌, ◌≡◌, sym, ap, ◌∙◌, min, inl, inr, leb, ◌++◌, arith, length,
  take, drop, length-drop, take-min, take_add, take-take, drop_add, append_assoc, Bool-cases,
}
use sthreads.Block.{Bytes}

-- Two parts read one behind the other are the whole.
pub take-pieces :
    (n count off : ℕ) (acc bs : Bytes)
    → count ≤ n
    → (acc ++ take count (take count (drop off bs))) ++ take (n - count) (drop (off + count) bs)
      ≡ acc ++ take n (drop off bs)
take-pieces n count off acc bs h =
    let k : count + (n - count) ≡ n = omega arith in
    ap (λ xs. (acc ++ xs) ++ take (n - count) (drop (off + count) bs))
      (take-take count (drop off bs))
    ∙ append_assoc acc (take count (drop off bs)) _
    ∙ ap (λ xs. acc ++ (take count (drop off bs) ++ take (n - count) xs)) (drop_add off count bs)
    ∙ ap (λ xs. acc ++ xs)
        (sym (take_add count (n - count) (drop off bs)) ∙ ap (λ m. take m (drop off bs)) k)

-- The fuel is enough for what is left behind a full step.
pub fuel_left :
    (fuel size num : ℕ) → num ≤ suc fuel * size → num - min size num ≤ fuel * min size num
fuel_left fuel size num h = elim (Bool-cases (leb size num)) [
  | inl t ↦
      let le : size ≤ num = ground (arith, t) in
      let e : min size num ≡ size = omega (arith, le) in rw e (omega (arith, h))
  | inr t ↦
      let lt : num < size = ground (arith, t) in
      let e : num - min size num ≡ 0 = omega (arith, lt) in rw e (omega arith)
]

pub fuel_start : (fuel n size : ℕ) → n ≤ fuel * size → n ≤ fuel * min size n
fuel_start zero n size h = omega (arith, h)
fuel_start (suc fuel) n size h = elim (Bool-cases (leb size n)) [
  | inl t ↦
      let le : size ≤ n = ground (arith, t) in
      let e : min size n ≡ size = omega (arith, le) in rw e h
  | inr t ↦
      let lt : n < size = ground (arith, t) in
      let e : min size n ≡ n = omega (arith, lt) in rw e (omega arith)
]

pub take-drop_end :
    (num off : ℕ) (bs : Bytes)
    → take (min num (length bs - off)) (drop off bs) ≡ take num (drop off bs)
take-drop_end num off bs =
    let e : min num (length bs - off) ≡ min (length (drop off bs)) num =
      omega (arith, length-drop off bs) in
    ap (λ k. take k (drop off bs)) e ∙ take-min num (drop off bs)
