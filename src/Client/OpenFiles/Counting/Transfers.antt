-- ===== src/Client/OpenFiles/Counting/Transfers.antt =====
-- The count of the open files of snfs_lib/myfs.c through reads, writes and closes.
use sthreads.Prelude.{
  ℕ, zero, suc, ◌-◌, ◌≡◌, refl, min, true, Option, none, some, List, [], ◌++◌, arith, inl, inr,
  ◌==◌, length, take, drop, Bool-cases,
}
use sthreads.Block.{Bytes}
use sthreads.Server.Protocol.{max_read_data, max_write_data}
use sthreads.Client.Interface.{Api}
use sthreads.Client.OpenFiles.{
  add_int, FileDesc, Lib, node_get, node_remove, node_put, read_amount, sub32, my_read_loop,
  my_read, my_write_loop, my_write, my_close,
}
use sthreads.Client.OpenFiles.Counting.{
  IsLib, went_well, went_wrong, went_out, goes_on, call_cases, length-node_remove, conn-IsLib,
  put_desc-IsLib,
}

module _ {S : Type 0} (api : Api S) where
  my_read_loop-IsLib :
      (fuel id size num : ℕ) (d : FileDesc) (acc : Bytes) (l : Lib S)
      → IsLib l
      → IsLib (my_read_loop api fuel id size num d acc l).0
  unfolding my_read_loop
  my_read_loop-IsLib zero id size num d acc l v = v
  my_read_loop-IsLib (suc fuel) id size num d acc l v =
      let r = api.read id d.read_offset (min size num) l.conn in
      let k = conn-IsLib api l r.0 v in
      elim (Bool-cases (num == 0)) [
        | inl t ↦ rw (my_read_loop, t) v
        | inr t ↦ elim (call_cases r.1) [
          | went_well (bs, nread) e ↦
              let d' = record d { read_offset = add_int d.read_offset nread } in
              let rest =
                my_read_loop-IsLib fuel id (min size num) (sub32 num nread) d'
                  (acc ++ take nread bs)
                  (record l { conn = r.0; open_list = node_put l.open_list id d' })
                  (put_desc-IsLib api l r.0 id d' v) in
              rw (my_read_loop, t, e) rest
          | went_wrong e ↦ rw (my_read_loop, t, e) k
          | went_out e ↦ rw (my_read_loop, t, e) k
          | goes_on e ↦ rw (my_read_loop, t, e) k
        ]
      ]

  my_write_loop-IsLib :
      (fuel id size counter : ℕ) (d : FileDesc) (ds : Bytes) (l : Lib S)
      → IsLib l
      → IsLib (my_write_loop api fuel id size counter d ds l).0
  unfolding my_write_loop
  my_write_loop-IsLib zero id size counter d ds l v = v
  my_write_loop-IsLib (suc fuel) id size counter d ds l v =
      let n = min size (length ds) in
      let r = api.write id d.write_offset (take n ds) l.conn in
      let k = conn-IsLib api l r.0 v in
      elim (Bool-cases (length ds == 0)) [
        | inl t ↦ rw (my_write_loop, t) v
        | inr t ↦ elim (call_cases r.1) [
          | went_well fsize e ↦
              let d' = record d { size = fsize; write_offset = add_int d.write_offset n } in
              let rest =
                my_write_loop-IsLib fuel id n (add_int counter n) d' (drop n ds)
                  (record l { conn = r.0; open_list = node_put l.open_list id d' })
                  (put_desc-IsLib api l r.0 id d' v) in
              rw (my_write_loop, t, e) rest
          | went_wrong e ↦ rw (my_write_loop, t, e) k
          | went_out e ↦ rw (my_write_loop, t, e) k
          | goes_on e ↦ rw (my_write_loop, t, e) k
        ]
      ]

  -- whether a descriptor is open
  data Found (q : List FileDesc) (id : ℕ) : Type 0 where
    is_open : (d : FileDesc) → node_get q id ≡ some d → Found q id
    is_closed : node_get q id ≡ none → Found q id

  find_desc : (q : List FileDesc) (id : ℕ) → Found q id
  find_desc q id = go (node_get q id) refl
    where
      go : (o : Option FileDesc) → node_get q id ≡ o → Found q id
      go none e = is_closed e
      go (some d) e = is_open d e

  pub my_read-IsLib : (fuel id num : ℕ) (l : Lib S) → IsLib l → IsLib (my_read api fuel id num l).0
  unfolding my_read
  my_read-IsLib fuel id num l v = elim (Bool-cases l.lib_initted) [
    | inr t ↦ simp t v
    | inl t ↦ elim (find_desc l.open_list id) [
      | is_closed e ↦ simp (t, e) v
      | is_open d e ↦
          let n = read_amount d num in
          elim (Bool-cases (d.read_offset == d.size)) [
            | inl z ↦ simp (t, e, z) v
            | inr z ↦ simp (t, e, z) (my_read_loop-IsLib fuel id (min max_read_data n) n d [] l v)
          ]
    ]
  ]

  pub my_write-IsLib :
      (fuel id : ℕ) (ds : Bytes) (l : Lib S) → IsLib l → IsLib (my_write api fuel id ds l).0
  unfolding my_write
  my_write-IsLib fuel id ds l v = elim (Bool-cases l.lib_initted) [
    | inr t ↦ simp t v
    | inl t ↦ elim (find_desc l.open_list id) [
      | is_closed e ↦ simp (t, e) v
      | is_open d e ↦
          simp (t, e) (my_write_loop-IsLib fuel id (min max_write_data (length ds)) 0 d ds l v)
    ]
  ]

  pub my_close-IsLib : (id : ℕ) (l : Lib S) → IsLib l → IsLib (my_close api id l).0
  unfolding my_close
  my_close-IsLib id l v = elim (Bool-cases l.lib_initted) [
    | inr t ↦ simp t v
    | inl t ↦ elim (find_desc l.open_list id) [
      | is_closed e ↦ simp (t, e) v
      | is_open d e ↦
          let closed : IsLib (record l {
            open_list = node_remove l.open_list id;
            lib_initted = true;
            open_files = l.open_files - 1;
          }) =
            record {
              counted = omega (arith, v.counted, length-node_remove l.open_list id d e);
              bounded = omega (arith, v.bounded);
            } in
          simp (t, e) closed
    ]
  ]
