-- ===== src/Fs/Naming/Tests.antt =====
-- The theorem on the pages of directories of snfs_server/fs.c for a page with two places, of which one
-- is taken by the file "a" with the inode 2.
use sthreads.Prelude.{
  ℕ, zero, suc, ◌≡◌, ◌<◌, refl, ap, get_or, some, none, [], ◌∷◌, ◌++◌, arith, length, replicate,
}
use sthreads.Block.{Bytes}
use sthreads.Fs.Directory.{search_page, entry_name}
use sthreads.Fs.Naming.{put_entry}
use sthreads.Fs.Naming.Entries.{Fits, no_byte, and_byte}
use sthreads.Fs.Naming.Finding.{search_page-put_entry}

abbrev one_file : Bytes
one_file = b'a' ∷ replicate 13 0 ++ (2 ∷ 0 ∷ replicate 16 0)

b-Fits : Fits one_file (b'b' ∷ []) 1 3
b-Fits = record {
  in_page = omega arith;
  fits = omega arith;
  text = and_byte (omega arith) no_byte;
  two_bytes = omega arith;
}

names_end : (j : ℕ) → j < 1 → length (entry_name one_file j) < 14
unfolding entry_name
names_end zero h = omega arith
names_end (suc j) h = absurd (omega arith)

b_is_new : search_page (b'b' ∷ []) one_file 1 0 ≡ none
unfolding search_page entry_name
b_is_new = refl

search_page-put_entry_example :
    (search_page (b'b' ∷ []) (put_entry one_file 1 (b'b' ∷ []) 3) 2 0 ≡ some 3)
    × (search_page (b'a' ∷ []) (put_entry one_file 1 (b'b' ∷ []) 3) 2 0
        ≡ search_page (b'a' ∷ []) one_file 1 0)
search_page-put_entry_example =
    search_page-put_entry one_file (b'b' ∷ []) 1 3 b-Fits (b'a' ∷ []) names_end b_is_new
      (λ e. let first : 97 ≡ 98 = ap (λ xs. get_or xs 0 0) e in absurd (omega (arith, first)))
