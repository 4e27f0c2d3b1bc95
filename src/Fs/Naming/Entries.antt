-- ===== src/Fs/Naming/Entries.antt =====
-- The entries of a page of a directory of snfs_server/fs.c, after one of them is written.
use sthreads.Prelude.{
  ℕ, zero, suc, ◌+◌, ◌*◌, ◌/◌, ◌%◌, ◌^◌, ◌<◌, ◌≤◌, ◌≡◌, ◌≢◌, inl, inr, refl, sym, ap, ◌∙◌, true,
  false, [], ◌∷◌, ◌++◌, arith, ◌==◌, length, get_or, take, drop, Bool-cases, length-append,
}
use sthreads.Block.{Bytes}
use sthreads.Block.Access.Ranges.{over, over_lem, length-over, slice-over_self, slice-over_apart}
use sthreads.Fs.Directory.{c_string, entry_name, entry_id}
use sthreads.Fs.Naming.{put_entry}

-- a text: no byte of it is NUL
pub data NoNul : Bytes → Type 0 where
  no_byte : NoNul []
  and_byte : {c : ℕ} {cs : Bytes} → c ≢ 0 → NoNul cs → NoNul (c ∷ cs)

c_string-append : (file rest : Bytes) → NoNul file → c_string ((file ++ 0 ∷ []) ++ rest) ≡ file
c_string-append [] rest no_byte = refl
c_string-append (c ∷ cs) rest (and_byte ne v) =
    let z : (c == 0) ≡ false = ground (arith, ne) in
    rw z (ap (λ ys. c ∷ ys) (c_string-append cs rest v))

take-drop : (n : ℕ) (xs : Bytes) → take n xs ++ drop n xs ≡ xs
take-drop zero xs = refl
take-drop (suc n) [] = refl
take-drop (suc n) (x ∷ xs) = ap (λ ys. x ∷ ys) (take-drop n xs)

-- A text is known from the bytes up to its NUL.
pub c_string-slice :
    (n : ℕ) (xs ys : Bytes)
    → take n xs ≡ take n ys
    → length (c_string xs) < n
    → n ≤ length xs
    → n ≤ length ys
    → c_string ys ≡ c_string xs
c_string-slice zero xs ys e h k m = absurd (omega arith)
c_string-slice (suc n) [] ys e h k m = absurd (omega arith)
c_string-slice (suc n) (x ∷ xs) [] e h k m = absurd (omega arith)
c_string-slice (suc n) (x ∷ xs) (y ∷ ys) e h k m =
    let first : x ≡ y = cc e in
    let rest : take n xs ≡ take n ys = cc e in
    elim (Bool-cases (x == 0)) [
      | inl t ↦ let t' : (y == 0) ≡ true = ap (λ z. z == 0) (sym first) ∙ t in rw (t, t') refl
      | inr t ↦
          let t' : (y == 0) ≡ false = ap (λ z. z == 0) (sym first) ∙ t in
          let l : suc (length (c_string xs)) < suc n = rw t at h in
          rw (t, t')
            (ap (λ z. z ∷ c_string ys) (sym first)
              ∙ ap (λ zs. x ∷ zs)
                  (c_string-slice n xs ys rest (omega (arith, l)) (omega (arith, k))
                    (omega (arith, m))))
    ]

pub get_or-slice :
    (a w k : ℕ) (xs : Bytes) → k < w → get_or xs (a + k) 0 ≡ get_or (take w (drop a xs)) k 0
get_or-slice zero zero k xs h = absurd (omega arith)
get_or-slice zero (suc w) k [] h = refl
get_or-slice zero (suc w) zero (x ∷ xs) h = refl
get_or-slice zero (suc w) (suc k) (x ∷ xs) h =
    let e : 0 + suc k ≡ suc (0 + k) = omega arith in
    ap (λ m. get_or (x ∷ xs) m 0) e ∙ get_or-slice zero w k xs (omega arith)
get_or-slice (suc a) zero k xs h = absurd (omega arith)
get_or-slice (suc a) (suc w) k [] h = refl
get_or-slice (suc a) (suc w) k (x ∷ xs) h =
    let e : suc a + k ≡ suc (a + k) = omega arith in
    ap (λ m. get_or (x ∷ xs) m 0) e ∙ get_or-slice a (suc w) k xs h

module _ (page file : Bytes) (i id : ℕ) where
  -- An entry of a whole page, a name that fits with its NUL, and the number of an inode in two bytes.
  pub record Fits : Type 0 where
    pub in_page : i * 16 + 16 ≤ length page
    pub fits : length file < 14
    pub text : NoNul file
    pub two_bytes : id < 2 ^ 16

  id_bytes : Bytes
  id_bytes = id % 256 ∷ id / 256 % 256 ∷ []

  named : Bytes
  unfolding id_bytes
  named = over (i * 16) (file ++ 0 ∷ []) page

  length-name : length (file ++ 0 ∷ []) ≡ length file + 1
  length-name = length-append file (0 ∷ [])

  put_entry-over :
      Fits
      → (put_entry page i file id ≡ over (i * 16 + 14) id_bytes named)
        × (length named ≡ length page)
  unfolding put_entry id_bytes named
  put_entry-over v =
      let room : i * 16 + length (file ++ 0 ∷ []) ≤ length page =
        omega (arith, length-name, v.in_page, v.fits) in
      let l = length-over (i * 16) (file ++ 0 ∷ []) page room in
      let e = over_lem (i * 16) (file ++ 0 ∷ []) page room in
      (
        rw e (
            over_lem (i * 16 + 14) id_bytes (over (i * 16) (file ++ 0 ∷ []) page)
              (omega (arith, l, v.in_page))),
        l,
      )

  -- The other entries are as they were.
  pub put_entry-others :
      (j : ℕ)
      → Fits
      → j ≢ i
      → take 16 (drop (j * 16) (put_entry page i file id)) ≡ take 16 (drop (j * 16) page)
  unfolding id_bytes named
  put_entry-others j v ne =
      let (e, l) = put_entry-over v in
      ap (λ p. take 16 (drop (j * 16) p)) e
      ∙ slice-over_apart (j * 16) 16 (i * 16 + 14) id_bytes named (omega (arith, l, v.in_page))
          (omega (arith, ne))
      ∙ slice-over_apart (j * 16) 16 (i * 16) (file ++ 0 ∷ []) page
          (omega (arith, length-name, v.in_page, v.fits)) (omega (arith, ne, length-name, v.fits))

  pub length-put_entry : Fits → length (put_entry page i file id) ≡ length page
  unfolding id_bytes
  length-put_entry v =
      let (e, l) = put_entry-over v in
      ap length e ∙ length-over (i * 16 + 14) id_bytes named (omega (arith, l, v.in_page)) ∙ l

  -- The entry has the name and the number.
  pub put_entry-entry :
      Fits
      → (entry_name (put_entry page i file id) i ≡ file)
        × (entry_id (put_entry page i file id) i ≡ id)
  unfolding entry_name entry_id id_bytes named
  put_entry-entry v =
      let (e, l) = put_entry-over v in
      let new = over (i * 16 + 14) id_bytes named in
      let name = file ++ 0 ∷ [] in
      let part : take (length name) (drop (i * 16) new) ≡ name =
        slice-over_apart (i * 16) (length name) (i * 16 + 14) id_bytes named
          (omega (arith, l, v.in_page)) (omega (arith, length-name, v.fits))
        ∙ slice-over_self (i * 16) name page (omega (arith, length-name, v.in_page, v.fits)) in
      let bytes : take 2 (drop (i * 16 + 14) new) ≡ id_bytes =
        slice-over_self (i * 16 + 14) id_bytes named (omega (arith, l, v.in_page)) in
      let low : get_or new (i * 16 + 14 + 0) 0 ≡ id % 256 =
        get_or-slice (i * 16 + 14) 2 0 new (omega arith) ∙ ap (λ b. get_or b 0 0) bytes in
      let high : get_or new (i * 16 + 14 + 1) 0 ≡ id / 256 % 256 =
        get_or-slice (i * 16 + 14) 2 1 new (omega arith) ∙ ap (λ b. get_or b 1 0) bytes in
      let low' : get_or new (i * 16 + 14) 0 ≡ id % 256 =
        ap (λ k. get_or new k 0) (omega arith) ∙ low in
      let high' : get_or new (i * 16 + 15) 0 ≡ id / 256 % 256 =
        ap (λ k. get_or new k 0) (omega arith) ∙ high in
      (
        ap (λ p. c_string (drop (i * 16) p)) e
            ∙ ap c_string (sym (take-drop (length name) (drop (i * 16) new)))
            ∙ ap (λ b. c_string (b ++ drop (length name) (drop (i * 16) new))) part
            ∙ c_string-append file (drop (length name) (drop (i * 16) new)) v.text,
        ap (λ p. get_or p (i * 16 + 14) 0 + 256 * get_or p (i * 16 + 15) 0) e
            ∙ omega (arith, low', high', v.two_bytes),
      )
