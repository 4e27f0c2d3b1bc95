-- ===== src/Client/OpenFiles.antt =====
-- The calls of snfs_lib/myfs.c: open files over the SNFS API. The list of open files is the list of
-- its descriptors; the linked cells of snfs_lib/queue.c are in Client.FileQueue. The first result is
-- -1, or exit and endless waiting passed on from the API; `spins` is a loop that is still running when the
-- fuel ends.
pub mod Serving
pub mod Pieces
pub mod Reading
pub mod Writing
pub mod Counting
pub mod Stalling
use sthreads.Prelude.{
  ℕ, zero, suc, ◌+◌, ◌-◌, ◌%◌, ◌^◌, min, Bool, true, false, ◌&&◌, ◌||◌, not, Option, none, some,
  List, [], ◌∷◌, ◌++◌, map, length, ltb, leb, ◌==◌, get_or, take, drop, if◌then◌else◌,
}
use sthreads.Block.{Bytes}
use sthreads.Server.Protocol.{DirEntry, max_read_data, max_write_data, max_readdir_entries}
use sthreads.Client.Interface.{Call, stat_ok, stat_error, aborts, waits, Api}
use sthreads.Client.Paths.{Names, myparse, split_path}

abbrev pub max_open_files : ℕ
max_open_files = 10

abbrev pub o_create : ℕ
o_create = 1

-- `struct _file_desc`. An offset is an `int`, given by the pattern of its 32 bits: below 2^31 it is the
-- number itself, and from 2^31 on the pattern stands for a negative one.
pub record FileDesc : Type 0 where
  pub file_id : ℕ
  pub size : ℕ
  pub read_offset : ℕ
  pub write_offset : ℕ

-- the static variables, with the state of the connection
pub record Lib (S : Type 0) : Type 0 where
  pub conn : S
  pub open_list : List FileDesc
  pub lib_initted : Bool
  pub open_files : ℕ

pub data Outcome {ℓ} (A : Type ℓ) : Type ℓ where
  returns : A → Outcome A
  minus_one aborted waiting spins : Outcome A

-- the list of open files: enqueue, get and remove, by the file's number
abbrev pub enqueue : List FileDesc → FileDesc → List FileDesc
enqueue q d = q ++ d ∷ []

unfoldable pub node_get : List FileDesc → ℕ → Option FileDesc
node_get [] id = none
node_get (d ∷ q) id = let rest = node_get q id in if d.file_id == id then some d else rest

unfoldable pub node_remove : List FileDesc → ℕ → List FileDesc
node_remove [] id = []
node_remove (d ∷ q) id = let rest = node_remove q id in if d.file_id == id then q else d ∷ rest

-- a change through the pointer that queue_node_get gives
unfoldable pub node_put : List FileDesc → ℕ → FileDesc → List FileDesc
node_put [] id e = []
node_put (d ∷ q) id e = let rest = node_put q id e in if d.file_id == id then e ∷ q else d ∷ rest

-- `a += b` of an `int`, which wraps around in the builds
abbrev pub add_int : ℕ → ℕ → ℕ
add_int a b = (a + b) % 2 ^ 32

-- subtraction of `unsigned` numbers
abbrev pub sub32 : ℕ → ℕ → ℕ
sub32 a b = (a + 2 ^ 32 - b) % 2 ^ 32

-- How much is read of a file, at most to its end. The sum of the test is one of `unsigned` numbers.
abbrev pub read_amount : FileDesc → ℕ → ℕ
read_amount d num =
    if ltb d.size ((d.read_offset + num) % 2 ^ 32) then sub32 d.size d.read_offset else num

module _ {S : Type 0} (api : Api S) where
  -- the static variables when the program starts
  unfoldable pub static_lib : S → Lib S
  static_lib c = record { conn = c; open_list = []; lib_initted = false; open_files = 0 }

  -- `started` tells whether mkstemp and snfs_init succeeded, and `c` is the connection that they
  -- leave. The count of the open files is not assigned.
  unfoldable pub my_init_lib : (started : Bool) (c : S) → Lib S → Lib S × Outcome ℕ
  my_init_lib started c l =
      if started
      then (record l { conn = c; open_list = []; lib_initted = true }, returns 0)
      else (record l { conn = c }, minus_one)

  -- the descriptor that my_open adds
  unfoldable pub add_open : (file_fh fsize : ℕ) → Lib S → Lib S × Outcome ℕ
  add_open file_fh fsize l = (
    record l {
      open_list =
          enqueue l.open_list
            (record { file_id = file_fh; size = fsize; read_offset = 0; write_offset = 0 });
      open_files = l.open_files + 1;
    },
    returns file_fh,
  )

  -- The create behind a failed lookup, in the directory `dir`.
  unfoldable pub open_new : (dir fsize : ℕ) → Bytes → Lib S → Lib S × Outcome ℕ
  unfolding add_open
  open_new dir fsize name l =
      let r = api.create dir name l.conn in
      let l' = record l { conn = r.0 } in
      elim r.1 [
        | stat_ok fh ↦ add_open fh fsize l'
        | stat_error ↦ (l', minus_one)
        | aborts ↦ (l', aborted)
        | waits ↦ (l', waiting)
      ]

  -- The part of my_open behind a failed lookup: the directory is looked up, whose failure is not
  -- looked at and leaves the handle 0, and the size that it gives stays in `fsize`.
  unfoldable pub open_missing : Names → ℕ → Lib S → Lib S × Outcome ℕ
  unfolding open_new
  open_missing names flags l =
      let r = api.lookup names.newdirname l.conn in
      let l' = record l { conn = r.0 } in
      let go : ℕ → ℕ → Lib S × Outcome ℕ = λ dir fsize.
        if flags == o_create
        then open_new (if names.parts == 1 then 1 else dir) fsize names.newfilename l'
        else (l', minus_one) in
      elim r.1 [
        | stat_ok (dir, fsize) ↦ go dir fsize
        | stat_error ↦ go 0 0
        | aborts ↦ (l', aborted)
        | waits ↦ (l', waiting)
      ]

  unfoldable pub my_open : Bytes → ℕ → Lib S → Lib S × Outcome ℕ
  unfolding myparse split_path open_missing add_open
  my_open name flags l =
      let r = api.lookup name l.conn in
      let l' = record l { conn = r.0 } in
      if not l.lib_initted || (leb max_open_files l.open_files || not (myparse name))
      then (l, minus_one)
      else elim r.1 [
        | stat_ok (fh, fsize) ↦ add_open fh fsize l'
        | stat_error ↦ open_missing (split_path name) flags l'
        | aborts ↦ (l', aborted)
        | waits ↦ (l', waiting)
      ]

  abbrev pub put_desc : Lib S → ℕ → FileDesc → Lib S
  put_desc l id d = record l { open_list = node_put l.open_list id d }

  -- The loop of my_read, on fuel: `num` bytes are still to be read, `size` at a time, and `acc` was
  -- read before.
  unfoldable pub my_read_loop :
      (fuel id size num : ℕ) → FileDesc → Bytes → Lib S → Lib S × Outcome Bytes
  unfolding node_put
  my_read_loop zero id size num d acc l = (l, if num == 0 then returns acc else spins)
  my_read_loop (suc fuel) id size num d acc l =
      let count = min size num in
      let r = api.read id d.read_offset count l.conn in
      let l' = record l { conn = r.0 } in
      let go : Lib S × Outcome Bytes = elim r.1 [
        | stat_ok (bs, nread) ↦
            let d' = record d { read_offset = add_int d.read_offset nread } in
            my_read_loop fuel id count (sub32 num nread) d' (acc ++ take nread bs)
              (put_desc l' id d')
        | stat_error ↦ (l', minus_one)
        | aborts ↦ (l', aborted)
        | waits ↦ (l', waiting)
      ] in
      if num == 0 then (l, returns acc) else go

  -- What is put in the buffer. The `int` that my_read returns is its length, which is below 2^31
  -- where the theorems speak of it.
  unfoldable pub my_read : (fuel id num : ℕ) → Lib S → Lib S × Outcome Bytes
  unfolding node_get my_read_loop
  my_read fuel id num l =
      if not l.lib_initted then (l, minus_one) else elim (node_get l.open_list id) [
        | none ↦ (l, minus_one)
        | some d ↦
            let n = read_amount d num in
            let rest = my_read_loop fuel id (min max_read_data n) n d [] l in
            if d.read_offset == d.size then (l, returns []) else rest
      ]

  -- The loop of my_write, on fuel: the bytes `bs` are still to be written, and `counter` were, an
  -- `int` as the offsets are.
  unfoldable pub my_write_loop :
      (fuel id size counter : ℕ) → FileDesc → Bytes → Lib S → Lib S × Outcome ℕ
  unfolding node_put
  my_write_loop zero id size counter d bs l = (l, if length bs == 0 then returns counter else spins)
  my_write_loop (suc fuel) id size counter d bs l =
      let count = min size (length bs) in
      let r = api.write id d.write_offset (take count bs) l.conn in
      let l' = record l { conn = r.0 } in
      let go : Lib S × Outcome ℕ = elim r.1 [
        | stat_ok fsize ↦
            let d' = record d { size = fsize; write_offset = add_int d.write_offset count } in
            my_write_loop fuel id count (add_int counter count) d' (drop count bs)
              (put_desc l' id d')
        | stat_error ↦ (l', minus_one)
        | aborts ↦ (l', aborted)
        | waits ↦ (l', waiting)
      ] in
      if length bs == 0 then (l, returns counter) else go

  unfoldable pub my_write : (fuel id : ℕ) → Bytes → Lib S → Lib S × Outcome ℕ
  unfolding node_get my_write_loop
  my_write fuel id bs l =
      if not l.lib_initted then (l, minus_one) else elim (node_get l.open_list id) [
        | none ↦ (l, minus_one)
        | some d ↦ my_write_loop fuel id (min max_write_data (length bs)) 0 d bs l
      ]

  unfoldable pub my_close : ℕ → Lib S → Lib S × Outcome (Unit {0})
  unfolding node_get node_remove
  my_close id l = if not l.lib_initted then (l, minus_one) else elim (node_get l.open_list id) [
    | none ↦ (l, minus_one)
    | some d ↦ (
      record l { open_list = node_remove l.open_list id; open_files = l.open_files - 1 },
      returns tt,
    )
  ]
