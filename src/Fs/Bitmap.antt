-- ===== src/Fs/Bitmap.antt =====
-- The bitmaps of snfs_server/fs.c: arrays of bytes, the bit `n` in the byte `n / 8`.
pub mod Clear
pub mod Marks
pub mod Setting
use sthreads.Prelude.{
  ℕ, zero, suc, ◌+◌, ◌*◌, ◌/◌, ◌%◌, ◌^◌, Bool, Option, none, some, ◌==◌, get_or, set, if◌then◌else◌,
}
use sthreads.Block.{Bytes}

-- `BMAP_ISSET`
unfoldable pub is_set : Bytes → ℕ → Bool
is_set bmap n = get_or bmap (n / 8) 0 / 2 ^ (n % 8) % 2 == 1

-- `BMAP_SET`: a bit that is clear is added.
unfoldable pub set_bit : Bytes → ℕ → Bytes
unfolding is_set
set_bit bmap n =
    if is_set bmap n then bmap else set bmap (n / 8) (get_or bmap (n / 8) 0 + 2 ^ (n % 8))

-- the loop of fsi_bmap_find_free over `n` bits from `i` on
unfoldable pub find_free_from : Bytes → ℕ → ℕ → Option ℕ
unfolding is_set
find_free_from bmap i zero = none
find_free_from bmap i (suc n) =
    let rest = find_free_from bmap (suc i) n in if is_set bmap i then rest else some i

unfoldable pub find_free : Bytes → ℕ → Option ℕ
unfolding find_free_from
find_free bmap size = find_free_from bmap 0 size
