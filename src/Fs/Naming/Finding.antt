-- ===== src/Fs/Naming/Finding.antt =====
-- The search of fsi_dir_search of snfs_server/fs.c in a page to which fs_create or fs_mkdir added an entry.
use sthreads.Prelude.{
  ℕ, zero, suc, ◌+◌, ◌*◌, ◌<◌, ◌≤◌, ◌≡◌, ◌≢◌, inl, inr, refl, sym, ap, ◌∙◌, true, false, Option,
  none, some, [], ◌∷◌, arith, ◌==◌, if◌then◌else◌, length, get_or, drop, Bool-cases, length-drop,
}
use sthreads.Block.{Bytes}
use sthreads.Fs.Directory.{same_text, entry_name, entry_id, search_page}
use sthreads.Fs.Naming.{put_entry}
use sthreads.Fs.Naming.Entries.{
  Fits, c_string-slice, get_or-slice, put_entry-others, length-put_entry, put_entry-entry,
}

same_text_self : (a : Bytes) → same_text a a ≡ true
same_text_self [] = refl
same_text_self (x ∷ a) = ground (arith, same_text_self a)

same_text-eq : (a b : Bytes) → same_text a b ≡ true → a ≡ b
same_text-eq [] [] h = refl
same_text-eq [] (y ∷ b) h = absurd (cc h)
same_text-eq (x ∷ a) [] h = absurd (cc h)
same_text-eq (x ∷ a) (y ∷ b) h = elim (Bool-cases (x == y)) [
  | inl t ↦
      let e : x ≡ y = ground (arith, t) in
      let g : same_text a b ≡ true = rw t at h in
      ap (λ z. z ∷ a) e ∙ ap (λ c. y ∷ c) (same_text-eq a b g)
  | inr t ↦ absurd (cc (rw t at h))
]

same_text_ne : (a b : Bytes) → a ≢ b → same_text a b ≡ false
same_text_ne a b ne = elim (Bool-cases (same_text a b)) [
  | inl t ↦ absurd (ne (same_text-eq a b t))
  | inr t ↦ t
]

-- The search in `n` entries and then in one more.
or_else : Option ℕ → Option ℕ → Option ℕ
or_else none o = o
or_else (some x) o = some x

search_page-snoc :
    (f page : Bytes) (n k : ℕ)
    → search_page f page (suc n) k
      ≡ or_else
          (search_page f page n k)
          (if same_text (entry_name page (k + n)) f then some (entry_id page (k + n)) else none)
unfolding search_page or_else
search_page-snoc f page zero k =
    ap (λ j. if same_text (entry_name page j) f then some (entry_id page j) else none) (omega arith)
search_page-snoc f page (suc n) k = elim (Bool-cases (same_text (entry_name page k) f)) [
  | inl t ↦ rw t refl
  | inr t ↦ rw t (
      search_page-snoc f page n (suc k)
      ∙ ap
          (λ j.
            or_else (search_page f page n (suc k))
              (if same_text (entry_name page j) f then some (entry_id page j) else none))
          (omega arith))
]

search_page-same :
    (f page new : Bytes) (n k : ℕ)
    → ((j : ℕ)
        → j < k + n
        → (entry_name new j ≡ entry_name page j) × (entry_id new j ≡ entry_id page j))
    → search_page f new n k ≡ search_page f page n k
unfolding search_page
search_page-same f page new zero k h = refl
search_page-same f page new (suc n) k h =
    let (a, b) = h k (omega arith) in
    rw (a, b, search_page-same f page new n (suc k) (λ j l. h j (omega (arith, l)))) refl

module _ (page file : Bytes) (i id : ℕ) (v : Fits page file i id) where
  new : Bytes
  new = put_entry page i file id

  entry-same :
      (j : ℕ)
      → j < i
      → length (entry_name page j) < 14
      → (entry_name new j ≡ entry_name page j) × (entry_id new j ≡ entry_id page j)
  unfolding new entry_name entry_id
  entry-same j l t =
      let same = put_entry-others page file i id j v (omega (arith, l)) in
      let long : 16 ≤ length (drop (j * 16) page) =
        omega (arith, length-drop (j * 16) page, v.in_page, l) in
      let long' : 16 ≤ length (drop (j * 16) new) =
        omega (arith, length-drop (j * 16) new, length-put_entry page file i id v, v.in_page, l) in
      let byte : (k : ℕ) → k < 16 → get_or new (j * 16 + k) 0 ≡ get_or page (j * 16 + k) 0 = λ k u.
        get_or-slice (j * 16) 16 k new u
        ∙ ap (λ b. get_or b k 0) same
        ∙ sym (get_or-slice (j * 16) 16 k page u) in
      (
        c_string-slice 16 (drop (j * 16) page) (drop (j * 16) new) (sym same) (omega (arith, t))
            long long',
        rw (byte 14 (omega arith), byte 15 (omega arith)) refl,
      )

  -- In a page whose entries before the place i have names that end in their 14 bytes, and none
  -- of which has the name yet, an entry written at i, with a text that fits and a number of two
  -- bytes, is found by the search under its name with its number, and every other name gives
  -- what it gave.
  pub search_page-put_entry :
      (other : Bytes)
      → ((j : ℕ) → j < i → length (entry_name page j) < 14)
      → search_page file page i 0 ≡ none
      → other ≢ file
      → (search_page file (put_entry page i file id) (suc i) 0 ≡ some id)
        × (search_page other (put_entry page i file id) (suc i) 0 ≡ search_page other page i 0)
  unfolding new or_else
  search_page-put_entry other h miss ne =
      let kept = λ (f : Bytes).
        search_page-same f page new i 0
          (λ j l. entry-same j (omega (arith, l)) (h j (omega (arith, l)))) in
      let (name, number) = put_entry-entry page file i id v in
      let at : 0 + i ≡ i = omega arith in
      (
        search_page-snoc file new i 0
            ∙ rw (kept file, miss, at, name, number, same_text_self file) refl,
        search_page-snoc other new i 0
            ∙ rw (kept other, at, name, same_text_ne file other (λ e. ne (sym e)))
                (or_none (search_page other page i 0)),
      )
    where
      or_none : (o : Option ℕ) → or_else o none ≡ o
      or_none none = refl
      or_none (some x) = refl
