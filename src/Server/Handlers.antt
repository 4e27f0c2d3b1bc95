-- ===== src/Server/Handlers.antt =====
-- The handlers of snfs_server/snfs.c, and the choice of the handler in thread_consumer of
-- snfs_server/server.c. `now` is what time(NULL) returns. The outer `none` of a result is a cache
-- without a victim.
use sthreads.Prelude.{
  ℕ, ◌*◌, ◌%◌, ◌^◌, Bool, true, false, Option, none, some, List, [], ◌∷◌, length, leb, ◌==◌, take,
  if◌then◌else◌,
}
use sthreads.Block.{Bytes}
use sthreads.Fs.State.{Fs, fs_dir, fs_file}
use sthreads.Fs.DirCache.{◌>>=◌}
use sthreads.Fs.Files.{Result, fails, dies, returns, Attrs, fs_get_attrs, fs_read}
use sthreads.Fs.Directory.{malformed, missing, found, fs_lookup}
use sthreads.Fs.Metadata.{fs_new, fs_format}
use sthreads.Fs.Naming.{FileName, fs_create, fs_mkdir, fs_readdir, fs_copy}
use sthreads.Fs.Writing.{fs_write}
use sthreads.Server.Protocol.{
  DirEntry, Request, ping_req, lookup_req, read_req, write_req, create_req, mkdir_req, readdir_req,
  copy_req, other, res_ok, res_error, res_unknown, ResBody, no_body, ping_res, lookup_res, read_res,
  write_res, create_res, mkdir_res, readdir_res, Response, max_read_data, max_write_data, snfs_dir,
  snfs_file,
}

-- What a handler leaves: a response, or `exits` for exit(-1).
pub data Reply : Type 0 where
  replies : Response → Reply
  exits : Reply

abbrev pub num_blocks : ℕ
num_blocks = 8 * 1024 * 2

unfoldable pub snfs_init : ℕ → Option Fs
unfolding fs_new fs_format
snfs_init now = fs_new num_blocks >>= fs_format now

-- The response as the handlers prepare it, and as they complete it.
abbrev pub refuses : ℕ → Reply
refuses t = replies (record { mtype = t; status = res_error; body = no_body })

abbrev pub grants : ℕ → ResBody → Reply
grants t b = replies (record { mtype = t; status = res_ok; body = b })

-- `(inodeid_t) fhandle`
abbrev pub inodeid : ℕ → ℕ
inodeid h = h % 2 ^ 16

unfoldable pub snfs_ping : Bytes → Fs → Option (Fs × Reply)
snfs_ping msg fs = some (fs, grants 1 (ping_res (b'h' ∷ b'e' ∷ b'l' ∷ b'l' ∷ b'o' ∷ [])))

-- `unset` is what stands in the variable `fileid`, which fs_lookup leaves as it is on the path "/".
abbrev pub or_unset : ℕ → Option ℕ → ℕ
or_unset unset none = unset
or_unset unset (some id) = id

unfoldable pub lookup_reply : ℕ → Result Attrs → Reply
lookup_reply fileid (returns a) = grants 2 (lookup_res fileid a.size)
lookup_reply fileid fails = refuses 2
lookup_reply fileid dies = exits

unfoldable pub snfs_lookup : (now unset : ℕ) → Bytes → Fs → Option (Fs × Reply)
unfolding fs_lookup fs_get_attrs lookup_reply
snfs_lookup now unset file fs = fs_lookup now file fs >>= λ r. elim r.1 [
  | malformed ↦ some (r.0, refuses 2)
  | missing ↦ some (r.0, refuses 2)
  | found id ↦
      let fileid = inodeid (or_unset unset id) in
      fs_get_attrs now fileid r.0 >>= λ q. some (q.0, lookup_reply fileid q.1)
]

unfoldable pub read_reply : Result Bytes → Reply
read_reply (returns bs) = grants 3 (read_res bs (length bs))
read_reply fails = refuses 3
read_reply dies = exits

unfoldable pub snfs_read : (now fhandle offset count : ℕ) → Fs → Option (Fs × Reply)
unfolding fs_read read_reply
snfs_read now fhandle offset count fs =
    if leb count max_read_data
    then (fs_read now (inodeid fhandle) offset count fs >>= λ r. some (r.0, read_reply r.1))
    else some (fs, refuses 3)

unfoldable pub write_reply : Result Attrs → Reply
write_reply (returns a) = grants 4 (write_res a.size)
write_reply fails = refuses 4
write_reply dies = exits

-- `junk` is what stands in a local array of fs_write. The data field has room for the greatest count.
unfoldable pub snfs_write :
    (now : ℕ) → (junk : Bytes) → (fhandle offset count : ℕ) → Bytes → Fs → Option (Fs × Reply)
unfolding fs_write fs_get_attrs write_reply
snfs_write now junk fhandle offset count bs fs =
    let file = inodeid fhandle in
    if leb count max_write_data
    then (fs_write now file offset junk (take count bs) fs >>= λ r. elim r.1 [
      | returns _ ↦ fs_get_attrs now file r.0 >>= λ q. some (q.0, write_reply q.1)
      | fails ↦ some (r.0, refuses 4)
      | dies ↦ some (r.0, exits)
    ])
    else some (fs, refuses 4)

unfoldable pub create_reply : ℕ → (ℕ → ResBody) → Result ℕ → Reply
create_reply t body (returns id) = grants t (body id)
create_reply t body fails = refuses t
create_reply t body dies = exits

-- `name[MAX_FILE_NAME_SIZE - 1] = '\0'`
abbrev pub cut_name : Bytes → Bytes
cut_name = take 13

unfoldable pub snfs_create : (now dir : ℕ) → Bytes → Fs → Option (Fs × Reply)
unfolding fs_create create_reply
snfs_create now dir name fs = fs_create now (inodeid dir) (cut_name name) fs >>= λ r.
    some (r.0, create_reply 5 create_res r.1)

unfoldable pub snfs_mkdir : (now dir : ℕ) → Bytes → Fs → Option (Fs × Reply)
unfolding fs_mkdir create_reply
snfs_mkdir now dir f fs =
    fs_mkdir now (inodeid dir) (cut_name f) fs >>= λ r. some (r.0, create_reply 6 mkdir_res r.1)

-- An entry of the listing, or `none` for the exit on an unknown type.
unfoldable pub dir_entry : FileName → Option DirEntry
dir_entry x =
    if x.itype == fs_dir
    then some (record { name = x.name; len = length x.name; etype = snfs_dir })
    else (if x.itype == fs_file
        then some (record { name = x.name; len = length x.name; etype = snfs_file })
        else none)

unfoldable pub dir_entries : List FileName → Option (List DirEntry)
unfolding dir_entry
dir_entries [] = some []
dir_entries (x ∷ xs) = dir_entry x >>= λ y. dir_entries xs >>= λ ys. some (y ∷ ys)

unfoldable pub readdir_reply : Result (List FileName) → Reply
unfolding dir_entries
readdir_reply (returns xs) = elim (dir_entries xs) [
  | none ↦ exits
  | some ys ↦ grants 7 (readdir_res (length xs) ys)
]
readdir_reply fails = refuses 7
readdir_reply dies = exits

-- The array that fs_readdir fills has MAX_READDIR_ENTRIES places, and `cmax` is at most that.
unfoldable pub snfs_readdir : (now dir cmax : ℕ) → Fs → Option (Fs × Reply)
unfolding fs_readdir readdir_reply
snfs_readdir now dir cmax fs =
    fs_readdir now (inodeid dir) cmax fs >>= λ r. some (r.0, readdir_reply r.1)

unfoldable pub snfs_copy : Bytes → Bytes → Fs → Option (Fs × Reply)
unfolding fs_copy
snfs_copy srcpath tgtpath fs =
    let r = fs_copy srcpath tgtpath fs in
    some (r.0, elim r.1 [ returns _ ↦ grants 8 no_body | fails ↦ refuses 8 | dies ↦ exits ])

-- The table of services: the handler of a request, or the answer to an unknown one.
unfoldable pub handle : (now unset : ℕ) → Bytes → Request → Fs → Option (Fs × Reply)
unfolding snfs_ping snfs_lookup snfs_read snfs_write snfs_create snfs_mkdir snfs_readdir snfs_copy
handle now unset junk (ping_req msg) = snfs_ping msg
handle now unset junk (lookup_req pname) = snfs_lookup now unset pname
handle now unset junk (read_req h offset count) = snfs_read now h offset count
handle now unset junk (write_req h offset count bs) = snfs_write now junk h offset count bs
handle now unset junk (create_req dir name) = snfs_create now dir name
handle now unset junk (mkdir_req dir f) = snfs_mkdir now dir f
handle now unset junk (readdir_req dir cmax) = snfs_readdir now dir cmax
handle now unset junk (copy_req s t) = snfs_copy s t
handle now unset junk (other t) =
    λ fs. some (fs, replies (record { mtype = 0; status = res_unknown; body = no_body }))

-- Which requests run under the writers' lock; the others run under the readers', and an unknown
-- one under none.
unfoldable pub is_write : Request → Bool
is_write (write_req _ _ _ _) = true
is_write (create_req _ _) = true
is_write (mkdir_req _ _) = true
is_write (copy_req _ _) = true
is_write _ = false
