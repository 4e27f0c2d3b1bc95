-- ===== src/Client/Paths.antt =====
-- The path names of snfs_lib/myfs.c.
use sthreads.Prelude.{
  ℕ, ◌+◌, ◌-◌, Bool, false, ◌&&◌, ◌||◌, not, List, [], ◌∷◌, ◌++◌, length, ltb, leb, ◌==◌, get_or,
  take, drop, if◌then◌else◌,
}
use sthreads.Block.{Bytes}
use sthreads.Fs.Directory.{tokens}
use sthreads.Server.Protocol.{max_file_name_size, max_path_name_size}

-- `strchr(line, c) != NULL`
abbrev pub has_byte : ℕ → Bytes → Bool
has_byte c [] = false
has_byte c (b ∷ bs) = b == c || has_byte c bs

-- `strstr(line, "//") != NULL`
abbrev pub has_double_slash : Bytes → Bool
has_double_slash [] = false
has_double_slash (a ∷ []) = false
has_double_slash (a ∷ b ∷ bs) = (a == b'/' && b == b'/') || has_double_slash (b ∷ bs)

-- the loop over the parts: is one longer than a name may be?
unfoldable pub has_long : List Bytes → Bool
has_long [] = false
has_long (t ∷ ts) = ltb (max_file_name_size - 1) (length t) || has_long ts

-- Whether myparse returns 0. The test of the byte at the index `strlen(pathname)` is of the NUL, and
-- is never true; the path is copied to an array of 200 bytes before its length is tested.
unfoldable pub myparse : Bytes → Bool
unfolding tokens has_long
myparse path =
    if leb max_path_name_size (length path) || length path == 0
    then false
    else (if has_byte b' ' path || (has_double_slash path || not (get_or path 0 0 == b'/'))
        then false
        else not (has_long (tokens path)))

-- `strncpy(a, t, strlen(t))`, without a NUL: what was longer stays behind it.
abbrev pub overlay : Bytes → Bytes → Bytes
overlay a t = t ++ drop (length t) a

-- the loop over the parts: the array `newfilename` after it
unfoldable pub last_name : Bytes → List Bytes → Bytes
last_name a [] = a
last_name a (t ∷ ts) = last_name (overlay a t) ts

-- What my_open and my_mkdir find of a path: how many parts it has, the name of the file and the
-- name of its directory. A count below 0 of bytes to copy would be a huge one; the name is never
-- longer than the path.
pub record Names : Type 0 where
  pub parts : ℕ
  pub newfilename : Bytes
  pub newdirname : Bytes

unfoldable pub split_path : Bytes → Names
unfolding tokens last_name
split_path name =
    let ts = tokens name in
    let last = last_name [] ts in
    if ltb 1 (length ts)
    then record {
      parts = length ts;
      newfilename = last;
      newdirname = take (length name - (length last + 1)) name;
    }
    else record { parts = length ts; newfilename = overlay last (drop 1 name); newdirname = name }
