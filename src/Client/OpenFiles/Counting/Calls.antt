-- ===== src/Client/OpenFiles/Counting/Calls.antt =====
-- The count of the open files of snfs_lib/myfs.c through all calls.
use sthreads.Prelude.{
  ℕ, ◌≡◌, refl, ap, ◌∙◌, Bool, true, false, not, ◌||◌, ◌&&◌, List, [], ◌∷◌, arith, inl, inr, ◌==◌,
  get_or, length, Bool-cases,
}
use sthreads.Block.{Bytes}
use sthreads.Server.Protocol.{max_readdir_entries}
use sthreads.Client.Interface.{Api}
use sthreads.Client.Paths.{Names, myparse, split_path}
use sthreads.Client.OpenFiles.{Lib, static_lib, my_init_lib, my_open, my_read, my_write, my_close}
use sthreads.Client.Directories.{list_names, my_listdir, mkdir_in, mkdir_new, my_mkdir}
use sthreads.Client.OpenFiles.Counting.{
  IsLib, went_well, went_wrong, went_out, goes_on, call_cases, conn-IsLib, my_open-IsLib,
}
use sthreads.Client.OpenFiles.Counting.Transfers.{my_read-IsLib, my_write-IsLib, my_close-IsLib}

module _ {S : Type 0} (api : Api S) where
  list_names-IsLib : (dir : ℕ) (l : Lib S) → IsLib l → IsLib (list_names api dir l).0
  unfolding list_names
  list_names-IsLib dir l v =
      let r = api.readdir dir max_readdir_entries l.conn in
      let k = conn-IsLib api l r.0 v in
      elim (call_cases r.1) [
        | went_well list e ↦ rw (list_names, e) k
        | went_wrong e ↦ rw (list_names, e) k
        | went_out e ↦ rw (list_names, e) k
        | goes_on e ↦ rw (list_names, e) k
      ]

  my_listdir-IsLib : (path : Bytes) (l : Lib S) → IsLib l → IsLib (my_listdir api path l).0
  unfolding my_listdir
  my_listdir-IsLib path l v =
      let r = api.lookup path l.conn in
      let k = conn-IsLib api l r.0 v in
      elim (Bool-cases (not l.lib_initted || not (myparse path))) [
        | inl t ↦ rw t v
        | inr t ↦ elim (Bool-cases (length path == 1 && get_or path 0 0 == b'/')) [
          | inl z ↦ rw (t, z) (list_names-IsLib 1 l v)
          | inr z ↦ elim (call_cases r.1) [
            | went_well (dir, fsize) e ↦
                rw (t, z, e) (list_names-IsLib dir (record l { conn = r.0 }) k)
            | went_wrong e ↦ rw (t, z, e) k
            | went_out e ↦ rw (t, z, e) k
            | goes_on e ↦ rw (t, z, e) k
          ]
        ]
      ]

  mkdir_in-IsLib :
      (dir : ℕ) (name : Bytes) (l : Lib S) → IsLib l → IsLib (mkdir_in api dir name l).0
  unfolding mkdir_in
  mkdir_in-IsLib dir name l v =
      let r = api.mkdir dir name l.conn in
      let k = conn-IsLib api l r.0 v in
      elim (call_cases r.1) [
        | went_well newdir e ↦ rw (mkdir_in, e) k
        | went_wrong e ↦ rw (mkdir_in, e) k
        | went_out e ↦ rw (mkdir_in, e) k
        | goes_on e ↦ rw (mkdir_in, e) k
      ]

  mkdir_new-IsLib : (names : Names) (l : Lib S) → IsLib l → IsLib (mkdir_new api names l).0
  unfolding mkdir_new
  mkdir_new-IsLib names l v =
      let r = api.lookup names.newdirname l.conn in
      let k = conn-IsLib api l r.0 v in
      elim (Bool-cases (names.parts == 1)) [
        | inl t ↦ rw (mkdir_new, t) (mkdir_in-IsLib 1 names.newfilename l v)
        | inr t ↦ elim (call_cases r.1) [
          | went_well (dir, fsize) e ↦
              rw (mkdir_new, t, e)
                (mkdir_in-IsLib dir names.newfilename (record l { conn = r.0 }) k)
          | went_wrong e ↦ rw (mkdir_new, t, e) k
          | went_out e ↦ rw (mkdir_new, t, e) k
          | goes_on e ↦ rw (mkdir_new, t, e) k
        ]
      ]

  my_mkdir-IsLib : (name : Bytes) (l : Lib S) → IsLib l → IsLib (my_mkdir api name l).0
  unfolding my_mkdir
  my_mkdir-IsLib name l v =
      let r = api.lookup name l.conn in
      let k = conn-IsLib api l r.0 v in
      elim (Bool-cases (not l.lib_initted || not (myparse name))) [
        | inl t ↦ rw t v
        | inr t ↦ elim (call_cases r.1) [
          | went_well (fh, fsize) e ↦ rw (t, e) k
          | went_wrong e ↦ rw (t, e) (mkdir_new-IsLib (split_path name) (record l { conn = r.0 }) k)
          | went_out e ↦ rw (t, e) k
          | goes_on e ↦ rw (t, e) k
        ]
      ]

  -- A call of the library with its arguments, and the fuel of its loop.
  pub data Made : Type 0 where
    opens : (name : Bytes) → (flags : ℕ) → Made
    reads : (fuel id num : ℕ) → Made
    writes : (fuel id : ℕ) → (ds : Bytes) → Made
    closes : (id : ℕ) → Made
    lists : (path : Bytes) → Made
    makes : (name : Bytes) → Made

  unfoldable pub make : Made → Lib S → Lib S
  make (opens name flags) l = (my_open api name flags l).0
  make (reads fuel id num) l = (my_read api fuel id num l).0
  make (writes fuel id ds) l = (my_write api fuel id ds l).0
  make (closes id) l = (my_close api id l).0
  make (lists path) l = (my_listdir api path l).0
  make (makes name) l = (my_mkdir api name l).0

  unfoldable pub make_all : List Made → Lib S → Lib S
  make_all [] l = l
  make_all (m ∷ ms) l = make_all ms (make m l)

  make-IsLib : (m : Made) (l : Lib S) → IsLib l → IsLib (make m l)
  unfolding make
  make-IsLib (opens name flags) l v = my_open-IsLib api name flags l v
  make-IsLib (reads fuel id num) l v = my_read-IsLib api fuel id num l v
  make-IsLib (writes fuel id ds) l v = my_write-IsLib api fuel id ds l v
  make-IsLib (closes id) l v = my_close-IsLib api id l v
  make-IsLib (lists path) l v = my_listdir-IsLib path l v
  make-IsLib (makes name) l v = my_mkdir-IsLib name l v

  -- Before my_init_lib succeeds no call changes anything.
  make-static : (m : Made) (l : Lib S) → l.lib_initted ≡ false → make m l ≡ l
  unfolding make my_open my_read my_write my_close my_listdir my_mkdir
  make-static (opens name flags) l e = rw e refl
  make-static (reads fuel id num) l e = rw e refl
  make-static (writes fuel id ds) l e = rw e refl
  make-static (closes id) l e = rw e refl
  make-static (lists path) l e = rw e refl
  make-static (makes name) l e = rw e refl

  make_all-static : (ms : List Made) (l : Lib S) → l.lib_initted ≡ false → make_all ms l ≡ l
  unfolding make_all
  make_all-static [] l e = refl
  make_all-static (m ∷ ms) l e = ap (make_all ms) (make-static m l e) ∙ make_all-static ms l e

  all-IsLib : (ms : List Made) (l : Lib S) → IsLib l → IsLib (make_all ms l)
  unfolding make_all
  all-IsLib [] l v = v
  all-IsLib (m ∷ ms) l v = all-IsLib ms (make m l) (make-IsLib m l v)

  -- Whatever the servers answer, and whatever calls are made from the start of the program
  -- before a my_init_lib that succeeds or fails and after it, the count of the open files is
  -- the length of their list and at most the 10 that may be open.
  pub make_all-IsLib :
      (before after : List Made) (started : Bool) (s c : S)
      → IsLib (make_all after (my_init_lib api started c (make_all before (static_lib api s))).0)
  unfolding my_init_lib static_lib
  make_all-IsLib before after true s c =
      rw (make_all-static before (static_lib api s) refl)
        (all-IsLib after _ (record { counted = refl; bounded = omega arith }))
  make_all-IsLib before after false s c =
      rw (make_all-static before (static_lib api s) refl)
        (all-IsLib after _ (record { counted = refl; bounded = omega arith }))
