-- ===== src/Fs/Writing/Contents.antt =====
-- The contents of a file after the loops of fs_write of snfs_server/fs.c.
use sthreads.Prelude.{
  ℕ, ◌+◌, ◌-◌, ◌*◌, ◌/◌, ◌%◌, ◌≤◌, ◌≡◌, ◌⊎◌, inl, inr, refl, sym, ap, ◌∙◌, subst, max, some, List,
  [], ◌++◌, arith, ◌==◌, length, get_or, take, drop, length-drop, length-written_at, length-take,
  written_at, written_at-behind, written_at-grown,
}
use sthreads.Block.{Bytes}
use sthreads.Fs.State.{Fs}
use sthreads.Fs.BlockCache.Transparency.{IsSound}
use sthreads.Fs.DirCache.{◌>>=◌}
use sthreads.Fs.Files.Reading.{file_bytes}
use sthreads.Fs.Files.Contents.{file_bytes-kept, halves}
use sthreads.Fs.Writing.{Written, write_new, end_write, write_blocks}
use sthreads.Fs.Writing.Steps.{Changed, Changed-refl, Changed-trans, IsWriting, fewer_steps}
use sthreads.Fs.Writing.Old.{Off, AreBlocks, OldDone, write_old-OldDone, length-blocks}
use sthreads.Fs.Writing.New.{write_new-NewDone, new_nothing}

module _ (now p : ℕ) (blk : List ℕ) (count total : ℕ) (a : AreBlocks blk count total) where
  -- The blocks in use after the first loop.
  old_contents :
      (used offset s t : ℕ) (w w' : Written)
      → IsWriting p blk count s w.fs
      → used ≤ total
      → offset ≤ used * 512
      → w.iblock ≡ offset / 512
      → OldDone now p blk count total a (used - offset / 512) (offset % 512) t w w'
      → file_bytes w'.fs blk used 0
        ≡ written_at (file_bytes w.fs blk used 0) offset (take (used * 512 - offset) w.rest)
  old_contents used offset s t w w' v h o i d =
      let first : ℕ = offset / 512 in
      let n : ℕ = used - first in
      let ds : Bytes = take (used * 512 - offset) w.rest in
      let e : first + n ≡ used = omega arith in
      let z : n * 512 - offset % 512 ≡ used * 512 - offset = omega arith in
      let kept : file_bytes w'.fs blk first 0 ≡ file_bytes w.fs blk first 0 =
        file_bytes-kept w.fs w'.fs blk first 0 (λ j x y.
          d.changed.outside (get_or blk j 0) (omega (arith, a.inside j (omega arith), v.counted))
            (λ k x' y'. a.distinct j k (omega arith) (omega arith) (omega arith))) in
      let written : file_bytes w'.fs blk n first
          ≡ written_at (file_bytes w.fs blk n first) (offset % 512) ds =
        ap (file_bytes w'.fs blk n) (sym i)
        ∙ d.written
        ∙ ap
            (λ k.
              written_at (file_bytes w.fs blk n k) (offset % 512)
                (take (n * 512 - offset % 512) w.rest))
            i
        ∙ ap (λ k. written_at (file_bytes w.fs blk n first) (offset % 512) (take k w.rest)) z in
      let there : length (file_bytes w.fs blk first 0) + offset % 512 ≡ offset =
        omega (arith, length-blocks first 0 a v (omega arith)) in
      halves w'.fs blk first n used e
      ∙ ap (λ ys. ys ++ file_bytes w'.fs blk n first) kept
      ∙ ap (λ ys. file_bytes w.fs blk first 0 ++ ys) written
      ∙ sym (
          written_at-behind (file_bytes w.fs blk first 0) (file_bytes w.fs blk n first)
            (offset % 512) ds)
      ∙ ap (λ k. written_at (file_bytes w.fs blk first 0 ++ file_bytes w.fs blk n first) k ds) there
      ∙ ap (λ ys. written_at ys offset ds) (sym (halves w.fs blk first n used e))

  -- What the second loop leaves, from the first's end.
  record Added (used req t : ℕ) (w w' : Written) : Type 0 where
    pub goes_on : IsWriting p blk count t w'.fs
    pub changed : Changed w.fs (Off blk req used) w'.fs
    pub written : take (length w.rest) (file_bytes w'.fs blk req used) ≡ w.rest
    pub ends : w'.rest ≡ []

  second_loop_at :
      (used req t : ℕ) (w : Written)
      → IsWriting p blk count (req + t) w.fs
      → used + req ≤ total
      → length w.block ≡ 512
      → length w.rest ≤ req * 512
      → w.iblock ≡ used
      → (w' : Written) × (write_new now p (used + req - w.iblock) w ≡ some w')
        × Added used req t w w'
  second_loop_at used req t w v h b l e =
      let m : used + req - w.iblock ≡ req = omega (arith, e) in
      let (w', r, d) =
        write_new-NewDone now p blk count total a req t w (fewer_steps (omega arith) v)
          (omega (arith, e)) b l in
      (
        w',
        ap (λ k. write_new now p k w) m ∙ r,
        record {
          goes_on = d.goes_on;
          changed = subst (λ k. Changed w.fs (Off blk req k) w'.fs) e d.changed;
          written = ap (λ k. take (length w.rest) (file_bytes w'.fs blk req k)) (sym e) ∙ d.written;
          ends = d.ends;
        },
      )

  second_loop_nothing :
      (used req t : ℕ) (w : Written)
      → IsWriting p blk count (req + t) w.fs
      → w.rest ≡ []
      → (w' : Written) × (write_new now p (used + req - w.iblock) w ≡ some w')
        × Added used req t w w'
  second_loop_nothing used req t w v e = (
    w,
    new_nothing now p blk count total a (used + req - w.iblock) w (ap (λ ys. length ys == 0) e),
    record {
      goes_on = fewer_steps (omega arith) v;
      changed = Changed-refl w.fs (Off blk req used);
      written = ap (λ ys. take (length ys) (file_bytes w.fs blk req used)) e ∙ sym e;
      ends = e;
    },
  )

  added :
      (used req t : ℕ) (w : Written)
      → IsWriting p blk count (req + t) w.fs
      → used + req ≤ total
      → length w.block ≡ 512
      → (w.iblock ≡ used → length w.rest ≤ req * 512)
      → (w.iblock ≡ used) ⊎ (w.rest ≡ [])
      → (w' : Written) × (write_new now p (used + req - w.iblock) w ≡ some w')
        × Added used req t w w'
  added used req t w v h b l e = elim e [
    | inl i ↦ second_loop_at used req t w v h b (l i) i
    | inr n ↦ second_loop_nothing used req t w v n
  ]

  -- `fs'` shows the first `size` bytes of the file of `fs` with `bs` written over them from `offset`
  -- on, and the other blocks as they were.
  pub record Rewritten (fs fs' : Fs) (used req offset size : ℕ) (bs : Bytes) : Type 0 where
    pub sound : IsSound fs'
    pub contents :
        take (max (offset + length bs) size) (file_bytes fs' blk (used + req) 0)
        ≡ written_at (take size (file_bytes fs blk used 0)) offset bs
    pub changed : Changed fs (Off blk (used + req) 0) fs'

  rewritten :
      (used req offset size t : ℕ) (w w' w'' : Written)
      → IsWriting p blk count t w.fs
      → used + req ≤ total
      → offset ≤ size
      → size ≤ used * 512
      → w.iblock ≡ offset / 512
      → OldDone now p blk count total a (used - offset / 512) (offset % 512) (req + 8) w w'
      → Added used req 8 w' w''
      → Rewritten w.fs w''.fs used req offset size w.rest
  rewritten used req offset size t w w' w'' v h o s i d g =
      let n : ℕ = used * 512 - offset in
      let old = file_bytes w.fs blk used 0 in
      let len : length old ≡ used * 512 = length-blocks used 0 a v (omega arith) in
      let l : length (written_at old offset (take n w.rest)) ≡ used * 512 =
        length-written_at old offset (take n w.rest) (omega arith)
        ∙ omega (arith, len, o, s, length-take n w.rest) in
      let kept : file_bytes w''.fs blk used 0 ≡ written_at old offset (take n w.rest) =
        file_bytes-kept w'.fs w''.fs blk used 0 (λ j x y.
          g.changed.outside (get_or blk j 0)
            (omega (arith, a.inside j (omega arith), d.goes_on.counted))
            (λ k x' y'. a.distinct j k (omega arith) (omega arith) (omega arith)))
        ∙ old_contents used offset t (req + 8) w w' v (omega arith) (omega arith) i d in
      let left : w'.rest ≡ drop n w.rest = d.left ∙ ap (λ m. drop m w.rest) (omega (arith, o, s)) in
      let added : take (length (drop n w.rest)) (file_bytes w''.fs blk req used) ≡ drop n w.rest =
        ap (λ ys. take (length ys) (file_bytes w''.fs blk req used)) (sym left)
        ∙ g.written
        ∙ left in
      record {
        sound = g.goes_on.sound;
        contents =
            ap (take (max (offset + length w.rest) size)) (
              halves w''.fs blk used req (used + req) refl
              ∙ ap (λ ys. ys ++ file_bytes w''.fs blk req used) kept)
            ∙ written_at-grown old (file_bytes w''.fs blk req used) offset size n
                (max (offset + length w.rest) size) w.rest (omega arith) o (omega arith) refl added;
        changed =
            Changed-trans
              (λ k off. (
                λ j x y. off j (omega arith) (omega (arith, i)),
                λ j x y. off j (omega arith) (omega arith),
              ))
              d.changed g.changed;
      }

  -- The loops of fs_write return with all the data written, if the blocks of the file hold it.
  pub write_blocks-Rewritten :
      (file used req offset size : ℕ) (junk bs : Bytes) (fs : Fs)
      → IsWriting p blk count (used + used + (req + 8)) fs
      → used + req ≤ total
      → offset ≤ size
      → size ≤ used * 512
      → offset + length bs ≤ (used + req) * 512
      → length junk ≡ 512
      → (w : Written) × (write_blocks now file p offset junk bs used req fs
          ≡ end_write now file p (offset + length bs) w)
        × (w.rest ≡ [])
        × IsWriting p blk count 8 w.fs
        × Rewritten fs w.fs used req offset size bs
  unfolding write_blocks
  write_blocks-Rewritten file used req offset size junk bs fs v h o s l j =
      let n : ℕ = used - offset / 512 in
      let w : Written = record { fs = fs; block = junk; iblock = offset / 512; rest = bs } in
      let (w', r, d) =
        write_old-OldDone now p blk count total a n (offset % 512) (req + 8) w
          (fewer_steps (omega arith) v) (omega arith) (omega arith) j in
      let (w'', r', g) =
        added used req 8 w' d.goes_on h d.full
          (λ e. omega (arith, e, ap length d.left, length-drop (n * 512 - offset % 512) bs))
          (elim d.place [ inl e ↦ inl (omega (arith, e)) | inr e ↦ inr e ]) in
      (
        w'',
        ap
              (λ x. x >>= λ w.
                write_new now p (used + req - w.iblock) w
                >>= end_write now file p (offset + length bs))
              r
            ∙ ap (λ x. x >>= end_write now file p (offset + length bs)) r',
        g.ends,
        g.goes_on,
        rewritten used req offset size (used + used + (req + 8)) w w' w'' v h o s refl d g,
      )
