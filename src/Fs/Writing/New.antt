-- ===== src/Fs/Writing/New.antt =====
-- The loop of fs_write of snfs_server/fs.c over the blocks that a file is given.
use sthreads.Prelude.{
  ℕ, zero, suc, ◌+◌, ◌*◌, ◌≤◌, ◌≡◌, inl, inr, refl, sym, ap, ◌∙◌, min, true, some, List, [], ◌++◌,
  arith, ◌==◌, length, get_or, take, drop, drop-min, length-drop, drop_nil, append-nil,
  written_at-grown, Bool-cases,
}
use sthreads.Block.{Bytes}
use sthreads.Fs.State.{Fs}
use sthreads.Fs.BlockCache.Transparency.{shown}
use sthreads.Fs.Files.Reading.{file_bytes}
use sthreads.Fs.Files.Contents.{file_bytes-suc}
use sthreads.Fs.Writing.{patch, Written, write_new}
use sthreads.Fs.Writing.Steps.{
  Changed, Changed-refl, Changed-trans, after, IsWriting, fewer_steps, length-patch,
  patch-written_at, Put, new_step,
}
use sthreads.Fs.Writing.Old.{Off, AreBlocks, no_length}

-- A block with the head of the data in front of blocks with the rest begins with the data.
head_and_rest :
    (b f ds : Bytes)
    → length b ≡ 512
    → take (length (drop (min 512 (length ds)) ds)) f ≡ drop (min 512 (length ds)) ds
    → take (length ds) (patch b 0 ds ++ f) ≡ ds
head_and_rest b f ds l h =
    let d = drop-min 512 ds in
    ap (λ ys. take (length ds) (ys ++ f)) (patch-written_at b 0 ds l (omega arith))
    ∙ written_at-grown b f 0 0 512 (length ds) ds (omega arith) (omega arith) (omega (arith, l))
        (omega arith) (ap (λ ys. take (length ys) f) (sym d) ∙ h ∙ d)
    ∙ ap (λ ys. ds ++ ys) (drop_nil (length ds))
    ∙ append-nil ds

module _ (now p : ℕ) (blk : List ℕ) (count total : ℕ) (a : AreBlocks blk count total) where
  -- What the loop over `n` blocks from `w` leaves, with `t` steps of the clock to go.
  pub record NewDone (n t : ℕ) (w w' : Written) : Type 0 where
    pub goes_on : IsWriting p blk count t w'.fs
    pub changed : Changed w.fs (Off blk n w.iblock) w'.fs
    pub written : take (length w.rest) (file_bytes w'.fs blk n w.iblock) ≡ w.rest
    pub ends : w'.rest ≡ []

  pub new_nothing :
      (n : ℕ) (w : Written) → (length w.rest == 0) ≡ true → write_new now p n w ≡ some w
  unfolding write_new
  new_nothing zero w e = refl
  new_nothing (suc n) w e = rw (e, write_new) refl

  pub nothing_new :
      (n t s : ℕ) (w : Written)
      → IsWriting p blk count t w.fs
      → s ≤ t
      → w.rest ≡ []
      → NewDone n s w w
  nothing_new n t s w v h e = record {
    goes_on = fewer_steps h v;
    changed = Changed-refl w.fs (Off blk n w.iblock);
    written = ap (λ ys. take (length ys) (file_bytes w.fs blk n w.iblock)) e ∙ sym e;
    ends = e;
  }

  new_more :
      (n t : ℕ) (w w' : Written) (u : Fs)
      → IsWriting p blk count (suc n + t) w.fs
      → w.iblock + suc n ≤ total
      → length w.block ≡ 512
      → Put now p blk count w (patch w.block 0 w.rest) (n + t) u
      → NewDone n t (after w (patch w.block 0 w.rest) 0 u) w'
      → NewDone (suc n) t w w'
  new_more n t w w' u v h l q d =
      let i = w.iblock in
      let k = get_or blk i 0 in
      let kept : shown w'.fs k ≡ patch w.block 0 w.rest =
        d.changed.outside k
          (omega (arith, a.inside i (omega arith), v.counted, q.changed.blocks_same))
          (λ j x y. a.distinct i j (omega arith) (omega arith) (omega arith))
        ∙ q.here in
      record {
        goes_on = d.goes_on;
        changed =
            Changed-trans
              (λ k off.
                (off i (omega arith) (omega arith), λ j x y. off j (omega arith) (omega arith)))
              q.changed d.changed;
        written =
            ap (take (length w.rest)) (file_bytes-suc w'.fs blk n i)
            ∙ ap (λ ys. take (length w.rest) (ys ++ file_bytes w'.fs blk n (suc i))) kept
            ∙ head_and_rest w.block (file_bytes w'.fs blk n (suc i)) w.rest l d.written;
        ends = d.ends;
      }

  -- The loop over new blocks returns and writes all the data into them, if they hold it.
  pub write_new-NewDone :
      (n t : ℕ) (w : Written)
      → IsWriting p blk count (n + t) w.fs
      → w.iblock + n ≤ total
      → length w.block ≡ 512
      → length w.rest ≤ n * 512
      → (w' : Written) × (write_new now p n w ≡ some w') × NewDone n t w w'
  write_new-NewDone zero t w v h b l =
      let e : (length w.rest == 0) ≡ true = ground (arith, l) in
      (w, new_nothing 0 w e, nothing_new 0 (0 + t) t w v (omega arith) (no_length w.rest e))
  write_new-NewDone (suc n) t w v h b l = elim (Bool-cases (length w.rest == 0)) [
    | inl e ↦ (
      w,
      new_nothing (suc n) w e,
      nothing_new (suc n) (suc n + t) t w v (omega arith) (no_length w.rest e),
    )
    | inr e ↦
        let (u, r, q) =
          new_step now p blk count n (n + t) w (fewer_steps (omega arith) v) e
            (a.inside w.iblock (omega arith)) b in
        let (w', r', d) =
          write_new-NewDone n t (after w (patch w.block 0 w.rest) 0 u) q.goes_on (omega arith)
            (length-patch w.block 0 w.rest b (omega arith))
            (omega (arith, l, length-drop (min 512 (length w.rest)) w.rest)) in
        (w', r ∙ r', new_more n t w w' u v h b q d)
  ]
