-- ===== src/Client/OpenFiles/Writing.antt =====
-- What my_write of snfs_lib/myfs.c leaves, over servers that keep the file.
use sthreads.Prelude.{
  written_at, written_at-nothing, length-written_at, written_at-pieces, slice-written_at, ℕ, zero,
  suc, ◌+◌, ◌-◌, ◌*◌, ◌%◌, ◌^◌, ◌<◌, ◌≤◌, ◌≡◌, refl, sym, ap, ◌∙◌, subst, min, max, true, false,
  some, [], ◌∷◌, arith, ◌==◌, length, take, drop, length-take, length-drop,
}
use sthreads.Block.{Bytes}
use sthreads.Server.Protocol.{max_write_data}
use sthreads.Client.Interface.{stat_ok, Api}
use sthreads.Client.OpenFiles.{
  FileDesc, Lib, returns, node_get, put_desc, my_write_loop, my_write, my_read,
}
use sthreads.Client.OpenFiles.Serving.{Serves, Changed, unchanged, put_desc-Changed, put-now_is}
use sthreads.Client.OpenFiles.Pieces.{fuel_left, fuel_start}
use sthreads.Client.OpenFiles.Reading.{my_read-Read}

module _ {S : Type 0} (api : Api S) (id room : ℕ) (Holds : S → Bytes → Type 0)
    (v : Serves api id room Holds) where
  -- `l'` is what a write of `ds` through the descriptor `d` leaves.
  pub record Wrote (l l' : Lib S) (bs : Bytes) (d : FileDesc) (ds : Bytes) : Type 0 where
    pub holds : Holds l'.conn (written_at bs d.write_offset ds)
    pub changed : Changed l l' id (record d {
      size = length (written_at bs d.write_offset ds);
      write_offset = d.write_offset + length ds;
    })

  nothing_written :
      (d : FileDesc) (bs : Bytes) (l : Lib S)
      → Holds l.conn bs
      → node_get l.open_list id ≡ some d
      → d.size ≡ length bs
      → d.write_offset ≤ length bs
      → Wrote l l bs d []
  nothing_written d bs l h g z o =
      let same = written_at-nothing bs d.write_offset o in
      let size_same : d.size ≡ length (written_at bs d.write_offset []) =
        z ∙ ap length (sym same) in
      let at : d.write_offset ≡ d.write_offset + 0 = omega arith in
      record {
        holds = subst (Holds l.conn) (sym same) h;
        changed =
            subst
              (λ k.
                Changed l l id
                  (record d { size = length (written_at bs d.write_offset []); write_offset = k }))
              at
              (subst (λ k. Changed l l id (record d { size = k })) size_same (unchanged l id d g));
      }

  my_write_loop-step :
      (fuel size counter : ℕ) (d : FileDesc) (ds : Bytes) (l : Lib S) (s : S) (fsize : ℕ)
      → 0 < length ds
      → d.write_offset + length ds < 2 ^ 32
      → counter + length ds < 2 ^ 32
      → api.write id d.write_offset (take (min size (length ds)) ds) l.conn ≡ (s, stat_ok fsize)
      → my_write_loop api (suc fuel) id size counter d ds l
        ≡ my_write_loop api fuel id
            (min size (length ds))
            (counter + min size (length ds))
            (record d { size = fsize; write_offset = d.write_offset + min size (length ds) })
            (drop (min size (length ds)) ds)
            (put_desc api
              (record l { conn = s })
              id
              (record d { size = fsize; write_offset = d.write_offset + min size (length ds) }))
  unfolding my_write_loop
  my_write_loop-step fuel size counter d ds l s fsize z a b e =
      let more : (length ds == 0) ≡ false = ground (arith, z) in
      let e0 = ap (λ r. r.0) e in
      let e1 = ap (λ r. r.1) e in
      let n = min size (length ds) in
      let at : (d.write_offset + n) % 2 ^ 32 ≡ d.write_offset + n = omega (arith, a) in
      let sum : (counter + n) % 2 ^ 32 ≡ counter + n = omega (arith, b) in
      rw (more, e1, e0, at, sum) refl

  my_write_loop-Wrote :
      (fuel size counter : ℕ) (d : FileDesc) (ds bs : Bytes) (l : Lib S)
      → Holds l.conn bs
      → node_get l.open_list id ≡ some d
      → d.size ≡ length bs
      → d.write_offset ≤ length bs
      → d.write_offset + length ds ≤ room
      → room < 2 ^ 31
      → counter + length ds < 2 ^ 31
      → length ds ≤ fuel * size
      → size ≤ max_write_data
      → (l' : Lib S) × (my_write_loop api fuel id size counter d ds l
          ≡ (l', returns (counter + length ds)))
        × Wrote l l' bs d ds
  unfolding my_write_loop
  my_write_loop-Wrote zero size counter d [] bs l h g z o m u k f w =
      (l, ap (λ k. (l, returns k)) (omega arith), nothing_written d bs l h g z o)
  my_write_loop-Wrote (suc fuel) size counter d [] bs l h g z o m u k f w =
      (l, ap (λ k. (l, returns k)) (omega arith), nothing_written d bs l h g z o)
  my_write_loop-Wrote zero size counter d (y ∷ ds) bs l h g z o m u k f w = absurd (omega arith)
  my_write_loop-Wrote (suc fuel) size counter d (y ∷ ys) bs l h g z o m u k f w =
      let ds = y ∷ ys in
      let n = min size (length ds) in
      let len : length (take n ds) ≡ n = length-take n ds ∙ omega arith in
      let (s, e, h') =
        v.writes l.conn bs (take n ds) d.write_offset h o (omega (arith, len, m))
          (omega (arith, len, w)) in
      let bs' = written_at bs d.write_offset (take n ds) in
      let d' = record d { size = length bs'; write_offset = d.write_offset + n } in
      let l1 = put_desc api (record l { conn = s }) id d' in
      let left : length (drop n ds) ≡ length ds - n = length-drop n ds in
      let (l', e', w') =
        my_write_loop-Wrote fuel n (counter + n) d' (drop n ds) bs' l1 h'
          (put-now_is l id d d' g refl) refl
          (omega (arith, length-written_at bs d.write_offset (take n ds) o, len))
          (omega (arith, left, m)) u (omega (arith, left, k))
          (omega (arith, left, fuel_left fuel size (length ds) f)) (omega (arith, w)) in
      let whole = written_at-pieces bs d.write_offset n ds o (omega arith) in
      let at : d.write_offset + n + length (drop n ds) ≡ d.write_offset + length ds =
        omega (arith, left) in
      (
        l',
        my_write_loop-step fuel size counter d ds l s (length bs') (omega arith)
              (omega (arith, m, u)) (omega (arith, k)) e
            ∙ e'
            ∙ ap (λ k. (l', returns k)) (omega (arith, left)),
        record {
          holds = subst (Holds l'.conn) whole w'.holds;
          changed =
              put_desc-Changed l id s l' d d'
                (record d {
                  size = length (written_at bs d.write_offset ds);
                  write_offset = d.write_offset + length ds;
                })
                g refl
                (subst
                  (λ k. Changed l1 l' id (record d {
                    size = length (written_at bs d.write_offset ds);
                    write_offset = k;
                  }))
                  at
                  (subst
                    (λ xs. Changed l1 l' id (record d {
                      size = length xs;
                      write_offset = d.write_offset + n + length (drop n ds);
                    }))
                    whole w'.changed));
        },
      )

  my_write_more :
      (fuel : ℕ) (d : FileDesc) (ds : Bytes) (l : Lib S)
      → l.lib_initted ≡ true
      → node_get l.open_list id ≡ some d
      → my_write api fuel id ds l
        ≡ my_write_loop api fuel id (min max_write_data (length ds)) 0 d ds l
  unfolding my_write
  my_write_more fuel d ds l i g = simp (i, g) refl

  -- Over servers that keep the file and have room, my_write of an open file at an offset in it,
  -- with fuel for each 1024 bytes, ends with the count of all bytes; the file then has them at
  -- the offset, the descriptor the new size and the offset behind them, and the other open
  -- files are as they were.
  pub my_write-Wrote :
      (fuel : ℕ) (d : FileDesc) (ds bs : Bytes) (l : Lib S)
      → Holds l.conn bs
      → l.lib_initted ≡ true
      → node_get l.open_list id ≡ some d
      → d.size ≡ length bs
      → d.write_offset ≤ length bs
      → d.write_offset + length ds ≤ room
      → room < 2 ^ 31
      → length ds ≤ fuel * 1024
      → (l' : Lib S) × (my_write api fuel id ds l ≡ (l', returns (length ds))) × Wrote l l' bs d ds
  my_write-Wrote fuel d ds bs l h i g z o m u f =
      let (l', e, w) =
        my_write_loop-Wrote fuel (min max_write_data (length ds)) 0 d ds bs l h g z o m u
          (omega (arith, m, u)) (fuel_start fuel (length ds) 1024 f) (omega arith) in
      (l', my_write_more fuel d ds l i g ∙ e ∙ ap (λ k. (l', returns k)) (omega arith), w)

  -- Over servers that keep the file and have room, all below the 2^31 bytes that the offsets
  -- count, what my_write wrote through a descriptor whose two offsets are the same is what
  -- my_read then reads, both with fuel for each 1024 bytes.
  pub my_write-my_read :
      (fuel : ℕ) (d : FileDesc) (ds bs : Bytes) (l : Lib S)
      → Holds l.conn bs
      → l.lib_initted ≡ true
      → node_get l.open_list id ≡ some d
      → d.size ≡ length bs
      → d.read_offset ≡ d.write_offset
      → d.write_offset ≤ length bs
      → d.write_offset + length ds ≤ room
      → length bs < 2 ^ 31
      → room < 2 ^ 31
      → length ds ≤ fuel * 1024
      → (l1 : Lib S) × (l2 : Lib S) × (my_write api fuel id ds l ≡ (l1, returns (length ds)))
        × (my_read api fuel id (length ds) l1 ≡ (l2, returns ds))
  my_write-my_read fuel d ds bs l h i g z same o m b r f =
      let (l1, e1, w) = my_write-Wrote fuel d ds bs l h i g z o m r f in
      let bs' = written_at bs d.write_offset ds in
      let len : length bs' ≡ max (length bs) (d.write_offset + length ds) =
        length-written_at bs d.write_offset ds o in
      let d' = record d { size = length bs'; write_offset = d.write_offset + length ds } in
      let (l2, e2, v2) =
        my_read-Read api id room Holds v fuel (length ds) d' bs' l1 w.holds
          (w.changed.initted_same ∙ i) w.changed.now_is refl (omega (arith, len, same, o))
          (omega (arith, len, b, r, m)) (omega (arith, same, m, r)) (omega (arith, f)) in
      (
        l1,
        l2,
        e1,
        e2
            ∙ ap (λ xs. (l2, returns xs))
                (ap (λ k. take (length ds) (drop k bs')) same
                  ∙ slice-written_at bs d.write_offset ds o),
      )
