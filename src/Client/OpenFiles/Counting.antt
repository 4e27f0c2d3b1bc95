-- ===== src/Client/OpenFiles/Counting.antt =====
-- The count of the open files of snfs_lib/myfs.c against their list.
pub mod Transfers
pub mod Calls
use sthreads.Prelude.{
  ℕ, zero, suc, ◌+◌, ◌-◌, ◌<◌, ◌≤◌, ◌≡◌, refl, sym, ap, ◌∙◌, min, Bool, true, false, not, ◌||◌,
  ◌&&◌, Option, none, some, List, [], ◌∷◌, ◌++◌, arith, inl, inr, ◌==◌, leb, get_or, if◌then◌else◌,
  length, take, drop, Bool-cases, length-append,
}
use sthreads.Block.{Bytes}
use sthreads.Server.Protocol.{DirEntry, max_read_data, max_write_data, max_readdir_entries}
use sthreads.Client.Interface.{Call, stat_ok, stat_error, aborts, waits, Api}
use sthreads.Client.Paths.{Names, myparse, split_path}
use sthreads.Client.OpenFiles.{
  max_open_files, o_create, FileDesc, Lib, node_get, node_remove, node_put, add_open, open_new,
  open_missing, my_open,
}

-- The count is the length of the list, and there is a slot for each.
pub record IsLib {S : Type 0} (l : Lib S) : Type 0 where
  pub counted : l.open_files ≡ length l.open_list
  pub bounded : l.open_files ≤ max_open_files

-- how a call ended
pub data Ended {A : Type 0} (c : Call A) : Type 0 where
  went_well : (a : A) → c ≡ stat_ok a → Ended c
  went_wrong : c ≡ stat_error → Ended c
  went_out : c ≡ aborts → Ended c
  goes_on : c ≡ waits → Ended c

pub call_cases : {A : Type 0} (c : Call A) → Ended c
call_cases (stat_ok a) = went_well a refl
call_cases stat_error = went_wrong refl
call_cases aborts = went_out refl
call_cases waits = goes_on refl

pub length-node_put :
    (q : List FileDesc) (id : ℕ) (e : FileDesc) → length (node_put q id e) ≡ length q
unfolding node_put
length-node_put [] id e = refl
length-node_put (x ∷ q) id e = ground (arith, length-node_put q id e)

pub length-node_remove :
    (q : List FileDesc) (id : ℕ) (d : FileDesc)
    → node_get q id ≡ some d
    → suc (length (node_remove q id)) ≡ length q
unfolding node_get node_remove
length-node_remove [] id d e = absurd (cc e)
length-node_remove (x ∷ q) id d e = elim (Bool-cases (x.file_id == id)) [
  | inl t ↦ rw t refl
  | inr t ↦ rw t (ap suc (length-node_remove q id d (ground (arith, e, t))))
]

module _ {S : Type 0} (api : Api S) where
  pub conn-IsLib : (l : Lib S) (s : S) → IsLib l → IsLib (record l { conn = s })
  conn-IsLib l s v = record { counted = v.counted; bounded = v.bounded }

  pub put_desc-IsLib :
      (l : Lib S) (s : S) (id : ℕ) (e : FileDesc)
      → IsLib l
      → IsLib (record l { conn = s; open_list = node_put l.open_list id e })
  put_desc-IsLib l s id e v = record {
    counted = v.counted ∙ sym (length-node_put l.open_list id e);
    bounded = v.bounded;
  }

  add_open-IsLib :
      (fh fsize : ℕ) (l : Lib S)
      → IsLib l
      → l.open_files < max_open_files
      → IsLib (add_open api fh fsize l).0
  unfolding add_open
  add_open-IsLib fh fsize l v f = record {
    counted = omega (
      arith,
      v.counted,
      length-append l.open_list
          (record { file_id = fh; size = fsize; read_offset = 0; write_offset = 0 } ∷ []),
    );
    bounded = omega (arith, f);
  }

  open_new-IsLib :
      (dir fsize : ℕ) (name : Bytes) (l : Lib S)
      → IsLib l
      → l.open_files < max_open_files
      → IsLib (open_new api dir fsize name l).0
  unfolding open_new
  open_new-IsLib dir fsize name l v f =
      let r = api.create dir name l.conn in
      let k = conn-IsLib l r.0 v in
      elim (call_cases r.1) [
        | went_well fh e ↦ rw (open_new, e) (add_open-IsLib fh fsize (record l { conn = r.0 }) k f)
        | went_wrong e ↦ rw (open_new, e) k
        | went_out e ↦ rw (open_new, e) k
        | goes_on e ↦ rw (open_new, e) k
      ]

  open_missing-IsLib :
      (names : Names) (flags : ℕ) (l : Lib S)
      → IsLib l
      → l.open_files < max_open_files
      → IsLib (open_missing api names flags l).0
  unfolding open_missing
  open_missing-IsLib names flags l v f =
      let r = api.lookup names.newdirname l.conn in
      let l' = record l { conn = r.0 } in
      let k = conn-IsLib l r.0 v in
      let new = λ (dir fsize : ℕ). open_new-IsLib dir fsize names.newfilename l' k f in
      elim (call_cases r.1) [
        | went_well (dir, fsize) e ↦ elim (Bool-cases (flags == o_create)) [
          | inl t ↦ rw (open_missing, e, t) (new (if names.parts == 1 then 1 else dir) fsize)
          | inr t ↦ rw (open_missing, e, t) k
        ]
        | went_wrong e ↦ elim (Bool-cases (flags == o_create)) [
          | inl t ↦ rw (open_missing, e, t) (new (if names.parts == 1 then 1 else 0) 0)
          | inr t ↦ rw (open_missing, e, t) k
        ]
        | went_out e ↦ rw (open_missing, e) k
        | goes_on e ↦ rw (open_missing, e) k
      ]

  pub my_open-IsLib :
      (name : Bytes) (flags : ℕ) (l : Lib S) → IsLib l → IsLib (my_open api name flags l).0
  unfolding my_open
  my_open-IsLib name flags l v =
      let r = api.lookup name l.conn in
      let l' = record l { conn = r.0 } in
      let k = conn-IsLib l r.0 v in
      elim (Bool-cases
        (not l.lib_initted || (leb max_open_files l.open_files || not (myparse name)))) [
          | inl t ↦ rw t v
          | inr t ↦
              let room : l.open_files < max_open_files = ground (arith, t) in
              elim (call_cases r.1) [
                | went_well (fh, fsize) e ↦ rw (t, e) (add_open-IsLib fh fsize l' k room)
                | went_wrong e ↦ rw (t, e) (open_missing-IsLib (split_path name) flags l' k room)
                | went_out e ↦ rw (t, e) k
                | goes_on e ↦ rw (t, e) k
              ]
        ]
