-- ===== src/Client/OpenFiles/Stalling.antt =====
-- my_read of snfs_lib/myfs.c over servers that answer a read with no bytes, as fs_read of
-- snfs_server/fs.c does at the end of a file.
use sthreads.Prelude.{
  ℕ, zero, suc, ◌+◌, ◌<◌, ◌≡◌, refl, ap, ◌∙◌, subst, min, ◌^◌, true, false, some, [], ◌++◌, arith,
  ◌==◌, take,
}
use sthreads.Block.{Bytes}
use sthreads.Server.Protocol.{max_read_data}
use sthreads.Client.Interface.{stat_ok, Api}
use sthreads.Client.OpenFiles.{
  FileDesc, Lib, spins, node_get, put_desc, sub32, my_read_loop, read_amount, my_read,
}
use sthreads.Client.OpenFiles.Reading.{my_read_loop-step, my_read_more}

-- Reads of the file `id` at `off` give no bytes, and go on to do so.
pub record Stalls {S : Type 0} (api : Api S) (id off : ℕ) (At : S → Type 0) : Type 0 where
  pub no_bytes :
      (s : S) (count : ℕ)
      → At s
      → (s' : S) × (xs : Bytes) × (api.read id off count s ≡ (s', stat_ok (xs, 0))) × At s'

module _ {S : Type 0} (api : Api S) (id : ℕ) (At : S → Type 0) where
  my_read_loop-spins :
      (fuel size num : ℕ) (d : FileDesc) (acc : Bytes) (l : Lib S)
      → Stalls api id d.read_offset At
      → At l.conn
      → 0 < num
      → num < 2 ^ 32
      → d.read_offset < 2 ^ 32
      → (l' : Lib S) × (my_read_loop api fuel id size num d acc l ≡ (l', spins))
  unfolding my_read_loop
  my_read_loop-spins zero size num d acc l v a z w b =
      let more : (num == 0) ≡ false = ground (arith, z) in (l, rw more refl)
  my_read_loop-spins (suc fuel) size num d acc l v a z w b =
      let (s, xs, e, a') = v.no_bytes l.conn (min size num) a in
      let d' = record d { read_offset = d.read_offset + 0 } in
      let at : d.read_offset ≡ d.read_offset + 0 = omega arith in
      let left : sub32 num 0 ≡ num = omega arith in
      let (l', e') =
        my_read_loop-spins fuel (min size num) num d' (acc ++ take 0 xs)
          (put_desc api (record l { conn = s }) id d') (subst (λ k. Stalls api id k At) at v) a' z w
          (omega (arith, b)) in
      (
        l',
        my_read_loop-step api id fuel size num d acc l s xs 0 z (omega (arith, b)) e
            ∙ ap
                (λ k.
                  my_read_loop api fuel id (min size num) k d' (acc ++ take 0 xs)
                    (put_desc api (record l { conn = s }) id d'))
                left
            ∙ e',
      )

  -- Over servers that answer the reads of a file at the offset of its descriptor with no bytes,
  -- my_read is in its loop still after any number of messages, if the library is initialised
  -- and the descriptor has bytes left to read, at an offset and of a number of 32 bits.
  pub my_read-spins :
      (fuel num : ℕ) (d : FileDesc) (l : Lib S)
      → Stalls api id d.read_offset At
      → At l.conn
      → l.lib_initted ≡ true
      → node_get l.open_list id ≡ some d
      → (d.read_offset == d.size) ≡ false
      → 0 < read_amount d num
      → read_amount d num < 2 ^ 32
      → d.read_offset < 2 ^ 32
      → (l' : Lib S) × (my_read api fuel id num l ≡ (l', spins))
  my_read-spins fuel num d l v a i g t z w b =
      let n = read_amount d num in
      let (l', e) = my_read_loop-spins fuel (min max_read_data n) n d [] l v a z w b in
      (l', my_read_more api id fuel num n d l i g t refl ∙ e)
