-- ===== src/Block.antt =====
-- snfs_server/block.c: a disk of blocks of one size, kept in one array of bytes.
pub mod Access
use sthreads.Prelude.{
  ℕ, ◌+◌, ◌*◌, ◌%◌, ◌^◌, ◌≤◌, ◌<◌, Bool, Option, none, some, List, ◌++◌, leb, ◌==◌, take, drop,
  replicate, if◌then◌else◌,
}

-- A `char` is a number below 256; it is only moved.
abbrev pub Bytes : Type 0
Bytes = List ℕ

pub record Blocks : Type 0 where
  pub block_size : ℕ
  pub num_blocks : ℕ
  pub bytes : Bytes

-- `unsigned` multiplication
abbrev pub mul32 : ℕ → ℕ → ℕ
mul32 a b = a * b % 2 ^ 32

unfoldable pub block_new : ℕ → ℕ → Option Blocks
block_new n sz =
    if mul32 n sz == 0
    then none
    else some (record { block_size = sz; num_blocks = n; bytes = replicate (mul32 n sz) 0 })

-- `none` is the result -1, which leaves the caller's buffer as it was.
unfoldable pub block_read : Blocks → ℕ → Option Bytes
block_read d k =
    if leb d.num_blocks k
    then none
    else some (take d.block_size (drop (mul32 k d.block_size) d.bytes))

-- `none` is the result -1. The buffer holds at least a block.
unfoldable pub block_write : Blocks → ℕ → Bytes → Option Blocks
block_write d k block =
    let at : ℕ = mul32 k d.block_size in
    if leb d.num_blocks k
    then none
    else some (record d {
      bytes = take at d.bytes ++ (take d.block_size block ++ drop (at + d.block_size) d.bytes);
    })
