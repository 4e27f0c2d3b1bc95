-- ===== src/Fs/Writing/Old.antt =====
-- The loop of fs_write of snfs_server/fs.c over the blocks that a file has in use.
use sthreads.Prelude.{
  ℕ, zero, suc, ◌+◌, ◌-◌, ◌*◌, ◌<◌, ◌≤◌, ◌≡◌, ◌≢◌, ◌⊎◌, inl, inr, refl, sym, ap, ◌∙◌, min, true,
  some, List, [], ◌++◌, ◌∷◌, arith, ◌==◌, length, get_or, take, drop, take_all, drop_add, drop-min,
  drop_all, take-take_add, drop-take_add, written_at, written_at-append, written_at-nothing,
  Bool-cases,
}
use sthreads.Block.{Bytes}
use sthreads.Fs.State.{Fs}
use sthreads.Fs.BlockCache.Transparency.{shown}
use sthreads.Fs.Files.Reading.{file_bytes, length-shown}
use sthreads.Fs.Files.Contents.{file_bytes-kept, file_bytes-suc, length-file_bytes}
use sthreads.Fs.Writing.{patch, Written, write_old}
use sthreads.Fs.Writing.Steps.{
  Changed, Changed-refl, Changed-trans, after, IsWriting, fewer_steps, patch-written_at, Put,
  old_step,
}

-- `k` is none of the blocks of the places from `i` to before `i + n`.
abbrev pub Off : List ℕ → ℕ → ℕ → ℕ → Type 0
Off blk n i k = (j : ℕ) → i ≤ j → j < i + n → k ≢ get_or blk j 0

-- What is written over two blocks is written over the first and then over the second.
over_blocks :
    (s f : Bytes) (start n : ℕ) (ds : Bytes)
    → length s ≡ 512
    → start ≤ 512
    → written_at (s ++ f) start (take (suc n * 512 - start) ds)
      ≡ written_at s start (take (512 - start) ds)
        ++ written_at f 0 (take (n * 512) (drop (min (512 - start) (length ds)) ds))
over_blocks s f start n ds l h =
    let e : suc n * 512 - start ≡ (512 - start) + n * 512 = omega (arith, h) in
    ap (λ m. written_at (s ++ f) start (take m ds)) e
    ∙ written_at-append s f start (512 - start) (take ((512 - start) + n * 512) ds)
        (omega (arith, l, h))
    ∙ ap
        (λ ys.
          written_at s start ys
          ++ written_at f 0 (drop (512 - start) (take ((512 - start) + n * 512) ds)))
        (take-take_add (512 - start) (n * 512) ds)
    ∙ ap (λ ys. written_at s start (take (512 - start) ds) ++ written_at f 0 ys)
        (drop-take_add (512 - start) (n * 512) ds
          ∙ ap (take (n * 512)) (sym (drop-min (512 - start) ds)))

left_over :
    (start n : ℕ) (ds : Bytes)
    → start ≤ 512
    → drop (n * 512) (drop (min (512 - start) (length ds)) ds) ≡ drop (suc n * 512 - start) ds
left_over start n ds h =
    let e : (512 - start) + n * 512 ≡ suc n * 512 - start = omega (arith, h) in
    ap (drop (n * 512)) (drop-min (512 - start) ds)
    ∙ sym (drop_add (512 - start) (n * 512) ds)
    ∙ ap (λ m. drop m ds) e

pub no_length : (ds : Bytes) → (length ds == 0) ≡ true → ds ≡ []
no_length [] h = refl
no_length (x ∷ ds) h = absurd (ground (arith, h))

empty_written : (m : ℕ) → written_at {A = ℕ} [] m [] ≡ []
empty_written zero = refl
empty_written (suc m) = refl

-- the places before `total` hold different blocks of the disk
pub record AreBlocks (blk : List ℕ) (count total : ℕ) : Type 0 where
  pub inside : (j : ℕ) → j < total → get_or blk j 0 < count
  pub distinct : (i j : ℕ) → i < total → j < total → i ≢ j → get_or blk i 0 ≢ get_or blk j 0

pub length-blocks :
    {p : ℕ} {blk : List ℕ} {count total t : ℕ} {fs : Fs} (n i : ℕ)
    → AreBlocks blk count total
    → IsWriting p blk count t fs
    → i + n ≤ total
    → length (file_bytes fs blk n i) ≡ n * 512
length-blocks {blk = blk} {fs = fs} n i a v h =
    length-file_bytes fs blk n i v.sound v.sized
      (λ j x y. omega (arith, v.counted, a.inside j (omega arith)))

module _ (now p : ℕ) (blk : List ℕ) (count total : ℕ) (a : AreBlocks blk count total) where
  -- What the loop over `n` blocks from `w` leaves, with `t` steps of the clock to go.
  pub record OldDone (n start t : ℕ) (w w' : Written) : Type 0 where
    pub goes_on : IsWriting p blk count t w'.fs
    pub changed : Changed w.fs (Off blk n w.iblock) w'.fs
    pub written :
        file_bytes w'.fs blk n w.iblock
        ≡ written_at (file_bytes w.fs blk n w.iblock) start (take (n * 512 - start) w.rest)
    pub left : w'.rest ≡ drop (n * 512 - start) w.rest
    pub place : (w'.iblock ≡ w.iblock + n) ⊎ (w'.rest ≡ [])
    pub full : length w'.block ≡ 512

  old_nothing :
      (n start : ℕ) (w : Written) → (length w.rest == 0) ≡ true → write_old now p n start w ≡ some w
  unfolding write_old
  old_nothing zero start w e = refl
  old_nothing (suc n) start w e = rw (e, write_old) refl

  nothing_left :
      (n start t : ℕ) (w : Written)
      → IsWriting p blk count (suc n + suc n + t) w.fs
      → w.iblock + suc n ≤ total
      → start ≤ 512
      → length w.block ≡ 512
      → w.rest ≡ []
      → OldDone (suc n) start t w w
  nothing_left n start t w v h s b e =
      let none_written : take (suc n * 512 - start) w.rest ≡ [] =
        ap (take (suc n * 512 - start)) e ∙ take_all (suc n * 512 - start) [] (omega arith) in
      record {
        goes_on = fewer_steps (omega arith) v;
        changed = Changed-refl w.fs (Off blk (suc n) w.iblock);
        written = sym (
            ap (written_at (file_bytes w.fs blk (suc n) w.iblock) start) none_written
            ∙ written_at-nothing (file_bytes w.fs blk (suc n) w.iblock) start
                (omega (arith, length-blocks (suc n) w.iblock a v h)));
        left =
            e
            ∙ sym (
                ap (drop (suc n * 512 - start)) e
                ∙ drop_all (suc n * 512 - start) [] (omega arith));
        place = inr e;
        full = b;
      }

  -- The bytes after a round and the rounds that follow it.
  old_written :
      (n start t : ℕ) (w w' : Written) (u : Fs)
      → IsWriting p blk count (suc n + suc n + t) w.fs
      → w.iblock + suc n ≤ total
      → start ≤ 512
      → Put now p blk count w
          (patch (shown w.fs (get_or blk w.iblock 0)) start w.rest)
          (n + n + t)
          u
      → OldDone n 0 t (after w (patch (shown w.fs (get_or blk w.iblock 0)) start w.rest) start u) w'
      → file_bytes w'.fs blk (suc n) w.iblock
        ≡ written_at
            (file_bytes w.fs blk (suc n) w.iblock)
            start
            (take (suc n * 512 - start) w.rest)
  old_written n start t w w' u v h s q d =
      let i = w.iblock in
      let k = get_or blk i 0 in
      let ds = drop (min (512 - start) (length w.rest)) w.rest in
      let lt : k < w.fs.blocks.num_blocks = omega (arith, a.inside i (omega arith), v.counted) in
      let len = length-shown w.fs k v.sound lt ∙ v.sized in
      let first : shown w'.fs k ≡ written_at (shown w.fs k) start (take (512 - start) w.rest) =
        d.changed.outside k (omega (arith, lt, q.changed.blocks_same))
          (λ j x y. a.distinct i j (omega arith) (omega arith) (omega arith))
        ∙ q.here
        ∙ patch-written_at (shown w.fs k) start w.rest len s in
      let kept : file_bytes u blk n (suc i) ≡ file_bytes w.fs blk n (suc i) =
        file_bytes-kept w.fs u blk n (suc i) (λ j x y.
          q.changed.outside (get_or blk j 0) (omega (arith, a.inside j (omega arith), v.counted))
            (a.distinct j i (omega arith) (omega arith) (omega arith))) in
      let z : n * 512 - 0 ≡ n * 512 = omega arith in
      file_bytes-suc w'.fs blk n i
      ∙ ap (λ ys. ys ++ file_bytes w'.fs blk n (suc i)) first
      ∙ ap (λ ys. written_at (shown w.fs k) start (take (512 - start) w.rest) ++ ys)
          (d.written
            ∙ ap (λ ys. written_at ys 0 (take (n * 512 - 0) ds)) kept
            ∙ ap (λ m. written_at (file_bytes w.fs blk n (suc i)) 0 (take m ds)) z)
      ∙ sym (over_blocks (shown w.fs k) (file_bytes w.fs blk n (suc i)) start n w.rest len s)
      ∙ ap (λ ys. written_at ys start (take (suc n * 512 - start) w.rest))
          (sym (file_bytes-suc w.fs blk n i))

  -- A round and the rounds that follow it.
  old_more :
      (n start t : ℕ) (w w' : Written) (u : Fs)
      → IsWriting p blk count (suc n + suc n + t) w.fs
      → w.iblock + suc n ≤ total
      → start ≤ 512
      → Put now p blk count w
          (patch (shown w.fs (get_or blk w.iblock 0)) start w.rest)
          (n + n + t)
          u
      → OldDone n 0 t (after w (patch (shown w.fs (get_or blk w.iblock 0)) start w.rest) start u) w'
      → OldDone (suc n) start t w w'
  old_more n start t w w' u v h s q d = record {
    goes_on = d.goes_on;
    changed =
        Changed-trans
          (λ k off.
            (off w.iblock (omega arith) (omega arith), λ j x y. off j (omega arith) (omega arith)))
          q.changed d.changed;
    written = old_written n start t w w' u v h s q d;
    left =
        let z : n * 512 - 0 ≡ n * 512 = omega arith in
        d.left
        ∙ ap (λ m. drop m (drop (min (512 - start) (length w.rest)) w.rest)) z
        ∙ left_over start n w.rest s;
    place = elim d.place [ inl e ↦ inl (omega (arith, e)) | inr e ↦ inr e ];
    full = d.full;
  }

  -- The loop over blocks in use returns, and writes the data over them from `start` on, as far as
  -- they reach.
  pub write_old-OldDone :
      (n start t : ℕ) (w : Written)
      → IsWriting p blk count (n + n + t) w.fs
      → w.iblock + n ≤ total
      → start ≤ 512
      → length w.block ≡ 512
      → (w' : Written) × (write_old now p n start w ≡ some w') × OldDone n start t w w'
  unfolding write_old file_bytes
  write_old-OldDone zero start t w v h s b =
      let z : 0 - start ≡ 0 = omega arith in
      (
        w,
        refl,
        record {
          goes_on = fewer_steps (omega arith) v;
          changed = Changed-refl w.fs (Off blk 0 w.iblock);
          written = sym (ap (λ m. written_at [] start (take m w.rest)) z ∙ empty_written start);
          left = sym (ap (λ m. drop m w.rest) z);
          place = inl (omega arith);
          full = b;
        },
      )
  write_old-OldDone (suc n) start t w v h s b = elim (Bool-cases (length w.rest == 0)) [
    | inl e ↦
        (w, old_nothing (suc n) start w e, nothing_left n start t w v h s b (no_length w.rest e))
    | inr e ↦
        let (u, r, q, len) =
          old_step now p blk count n start (n + n + t) w (fewer_steps (omega arith) v) e
            (a.inside w.iblock (omega arith)) s in
        let (w', r', d) =
          write_old-OldDone n 0 t
            (after w (patch (shown w.fs (get_or blk w.iblock 0)) start w.rest) start u) q.goes_on
            (omega arith) (omega arith) len in
        (w', r ∙ r', old_more n start t w w' u v h s q d)
  ]
