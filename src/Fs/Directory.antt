-- ===== src/Fs/Directory.antt =====
-- The directories of snfs_server/fs.c: pages of 32 entries of 16 bytes, a name of 14 bytes with its
-- NUL and the number of the inode in two bytes. A text is the list of its bytes without the NUL. The
-- outer `none` of a result is a cache without a victim.
use sthreads.Prelude.{
  ℕ, zero, suc, ◌+◌, ◌-◌, ◌*◌, ◌/◌, min, Bool, true, false, ◌&&◌, not, Option, none, some, List, [],
  ◌∷◌, ◌++◌, ◌==◌, get_or, drop, if◌then◌else◌,
}
use sthreads.Block.{Bytes}
use sthreads.Fs.State.{Fs, fs_dir}
use sthreads.Fs.Bitmap.{is_set}
use sthreads.Fs.InodeCache.{ic_get, islot}
use sthreads.Fs.DirCache.{dc_read, ◌>>=◌}
use sthreads.Fs.Files.{dentry_size}

abbrev pub dir_page_entries : ℕ
dir_page_entries = 32

-- the text at the start of an array: what stands before the first NUL
abbrev pub c_string : Bytes → Bytes
c_string [] = []
c_string (c ∷ cs) = let rest = c_string cs in if c == 0 then [] else c ∷ rest

-- `strcmp(a, b) == 0`
abbrev pub same_text : Bytes → Bytes → Bool
same_text [] [] = true
same_text [] (b ∷ bs) = false
same_text (a ∷ cs) [] = false
same_text (a ∷ cs) (b ∷ bs) = a == b && same_text cs bs

-- `page[i].name` and `page[i].inodeid`
unfoldable pub entry_name : Bytes → ℕ → Bytes
entry_name page i = c_string (drop (i * dentry_size) page)

unfoldable pub entry_id : Bytes → ℕ → ℕ
entry_id page i = get_or page (i * dentry_size + 14) 0 + 256 * get_or page (i * dentry_size + 15) 0

-- The loop over `n` entries of a page from the entry `i` on: the inode of the first that has the name.
unfoldable pub search_page : Bytes → Bytes → ℕ → ℕ → Option ℕ
unfolding entry_name entry_id
search_page file page zero i = none
search_page file page (suc n) i =
    let rest = search_page file page n (suc i) in
    if same_text (entry_name page i) file then some (entry_id page i) else rest

-- The loop over `n` pages of the directory, of which `num` entries are left. The pointer `idir` is
-- the slot `p`.
unfoldable pub search_pages :
    (now dir p : ℕ) → Bytes → (n num iblock : ℕ) → Fs → Option (Fs × Option ℕ)
unfolding dc_read search_page
search_pages now dir p file zero num iblock fs = some (fs, none)
search_pages now dir p file (suc n) num iblock fs =
    dc_read now dir (get_or (islot fs p).content.blocks iblock 0) fs >>= λ r.
    elim (search_page file r.1 (min dir_page_entries num) 0) [
      | some id ↦ some (r.0, some id)
      | none ↦ search_pages now dir p file n (num - dir_page_entries) (suc iblock) r.0
    ]

-- how many pages hold `num` entries
abbrev pub num_pages : ℕ → ℕ
num_pages num = (num + 31) / dir_page_entries

unfoldable pub fsi_dir_search : (now dir : ℕ) → Bytes → Fs → Option (Fs × Option ℕ)
unfolding ic_get search_pages
fsi_dir_search now dir file fs = ic_get now dir fs >>= λ r.
    let num = (islot r.0 r.1).content.size / dentry_size in
    search_pages now dir r.1 file (num_pages num) num 0 r.0

-- `strtok` with "/": the parts between the slashes that are not empty. The first argument is the
-- part read so far.
abbrev pub end_token : Bytes → List Bytes → List Bytes
end_token [] ts = ts
end_token (c ∷ cs) ts = (c ∷ cs) ∷ ts

unfoldable pub tokens_from : Bytes → Bytes → List Bytes
tokens_from t [] = end_token t []
tokens_from t (c ∷ cs) =
    let rest = tokens_from [] cs in
    let more = tokens_from (t ++ c ∷ []) cs in if c == b'/' then end_token t rest else more

unfoldable pub tokens : Bytes → List Bytes
unfolding tokens_from
tokens path = tokens_from [] path

-- What fs_lookup returns: -1, 0, or 1 with what it wrote to `*fileid`, if it did.
pub data Lookup : Type 0 where
  malformed missing : Lookup
  found : Option ℕ → Lookup

-- The loop over the parts of the path, from the directory `dir` on.
unfoldable pub lookup_from : (now dir : ℕ) → Option ℕ → List Bytes → Fs → Option (Fs × Lookup)
unfolding is_set ic_get fsi_dir_search
lookup_from now dir id [] fs = some (fs, found id)
lookup_from now dir id (t ∷ ts) fs =
    if not (is_set fs.inode_bmap dir)
    then some (fs, malformed)
    else (ic_get now dir fs >>= λ r.
        if not ((islot r.0 r.1).content.itype == fs_dir)
        then some (r.0, malformed)
        else (fsi_dir_search now dir t r.0 >>= λ q. elim q.1 [
          | none ↦ some (q.0, missing)
          | some fid ↦ lookup_from now fid (some fid) ts q.0
        ]))

-- The path is shorter than the 200 bytes of the array that it is copied to.
unfoldable pub fs_lookup : ℕ → Bytes → Fs → Option (Fs × Lookup)
unfolding tokens lookup_from
fs_lookup now file fs =
    if get_or file 0 0 == b'/'
    then lookup_from now 1 none (tokens file) fs
    else some (fs, malformed)
