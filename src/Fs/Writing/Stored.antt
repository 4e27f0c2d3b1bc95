-- ===== src/Fs/Writing/Stored.antt =====
-- What write_file of snfs_server/fs.c leaves of a file and of the others.
use sthreads.Prelude.{
  ℕ, ◌+◌, ◌-◌, ◌*◌, ◌<◌, ◌≤◌, ◌≡◌, ◌≢◌, inl, inr, refl, sym, ap, ◌∙◌, subst, max, Bool, true, false,
  arith, length, ltb, get_or, take, written_at, Bool-cases,
}
use sthreads.Block.{Bytes}
use sthreads.Fs.State.{Fs, no_inode}
use sthreads.Fs.Bitmap.{is_set}
use sthreads.Fs.Bitmap.Clear.{Suffices-le}
use sthreads.Fs.BlockCache.Transparency.{shown}
use sthreads.Fs.Files.{offset_to_blocks}
use sthreads.Fs.Files.Reading.{file_bytes}
use sthreads.Fs.Files.Contents.{
  contents_of, file_contents, shown-same, offset_to_blocks_up, file_bytes-moved,
}
use sthreads.Fs.Writing.{inode_at, Written, write_blocks, write_file, alloc_blocks}
use sthreads.Fs.BlockCache.Frame.{SameRest}
use sthreads.Fs.Writing.Old.{AreBlocks}
use sthreads.Fs.Writing.Steps.{IsWriting}
use sthreads.Fs.Writing.Contents.{Rewritten, write_blocks-Rewritten}
use sthreads.Fs.Writing.Places.{block_at, InUse, HasPlaces, Allocated}
use sthreads.Fs.Writing.Allocating.{Outcome, found, full, alloc_blocks-Outcome}
use sthreads.Fs.Writing.File.{
  Settled, IsWritable, Allocated-IsWriting, InUse-AreBlocks, required, required_are, required-le,
  required-gt, sized_to, FileWritten, too_long, disk_full, stored_all, write_file_too_long,
  write_file_full, write_file_goes_on, file_contents-sized_to, end_write_all,
}

module _ (p : ℕ) (fs gs : Fs) (m : ℕ) (v : IsWritable p fs)
    (c : Allocated p (offset_to_blocks (inode_at fs p).size) m fs gs) where
  allocated_bytes :
      file_bytes gs (inode_at gs p).blocks (offset_to_blocks (inode_at fs p).size) 0
      ≡ file_bytes fs (inode_at fs p).blocks (offset_to_blocks (inode_at fs p).size) 0
  allocated_bytes =
      file_bytes-moved fs gs (inode_at fs p).blocks (inode_at gs p).blocks
        (offset_to_blocks (inode_at fs p).size) 0
        (λ j a b.
          ap (shown gs) (c.places_same j (omega arith))
          ∙ shown-same fs gs (block_at fs p j) c.disk_same c.cache_same)

  -- A marked block that was not the file's is none of its blocks after the allocation either.
  not_of_file :
      (n k : ℕ)
      → (n ≤ offset_to_blocks (inode_at fs p).size + m)
      → is_set fs.blk_bmap k ≡ true
      → ((j : ℕ) → j < offset_to_blocks (inode_at fs p).size → k ≢ block_at fs p j)
      → (j : ℕ) → j < n
      → k ≢ block_at gs p j
  not_of_file n k h e f j l q = elim (Bool-cases (ltb j (offset_to_blocks (inode_at fs p).size))) [
    | inl t ↦
        let i : j < offset_to_blocks (inode_at fs p).size = ground (arith, t) in
        f j i (q ∙ c.places_same j i)
    | inr t ↦
        let i : offset_to_blocks (inode_at fs p).size ≤ j = ground (arith, t) in
        absurd (cc (c.were_free j i (omega arith), q, e))
  ]

  top_contents :
      (now offset : ℕ) (bs : Bytes) (w : Written)
      (a : AreBlocks (inode_at gs p).blocks fs.blocks.num_blocks (
        offset_to_blocks (inode_at fs p).size + required (inode_at fs p).size (offset + length bs)))
      → p < length gs.icache
      → (inode_at w.fs p).blocks ≡ (inode_at gs p).blocks
      → Rewritten now p
          (inode_at gs p).blocks
          fs.blocks.num_blocks
          (offset_to_blocks (inode_at fs p).size
            + required (inode_at fs p).size (offset + length bs))
          a
          gs
          w.fs
          (offset_to_blocks (inode_at fs p).size)
          (required (inode_at fs p).size (offset + length bs))
          offset
          (inode_at fs p).size
          bs
      → file_contents (sized_to p (max (offset + length bs) (inode_at fs p).size) w.fs) p
        ≡ written_at (file_contents fs p) offset bs
  unfolding contents_of
  top_contents now offset bs w a h b d =
      let top : ℕ = max (offset + length bs) (inode_at fs p).size in
      let l : p < length w.fs.icache =
        subst (λ c. p < length c) (sym d.changed.rest_same.icache_same) h in
      file_contents-sized_to p top w.fs l
      ∙ ap (λ x. take top (file_bytes w.fs x (offset_to_blocks top) 0)) b
      ∙ ap (λ n. take top (file_bytes w.fs (inode_at gs p).blocks n 0))
          (sym (required_are (inode_at fs p).size (offset + length bs)))
      ∙ d.contents
      ∙ ap (λ ys. written_at (take (inode_at fs p).size ys) offset bs) allocated_bytes

  settled :
      (offset : ℕ) (bs : Bytes) (ws : Fs)
      → m ≡ required (inode_at fs p).size (offset + length bs)
      → offset_to_blocks (inode_at fs p).size + required (inode_at fs p).size (offset + length bs)
        ≤ 10
      → HasPlaces p gs
      → InUse p
          (offset_to_blocks (inode_at fs p).size
            + required (inode_at fs p).size (offset + length bs))
          gs
      → IsWriting p (inode_at gs p).blocks fs.blocks.num_blocks 8 ws
      → SameRest gs ws
      → Settled p
          (offset_to_blocks (inode_at fs p).size)
          (offset_to_blocks (max (offset + length bs) (inode_at fs p).size))
          fs
          ws
  settled offset bs ws e h q u g r =
      let same : (j : ℕ) → block_at ws p j ≡ block_at gs p j =
        λ j. ap (λ b. get_or b j 0) g.blocks_are in
      let t = required_are (inode_at fs p).size (offset + length bs) in
      let n : gs.blocks.num_blocks ≡ fs.blocks.num_blocks = ap (λ d. d.num_blocks) c.disk_same in
      let (x, slot) = c.slot_is in
      record {
        sound = g.sound;
        stamped = g.stamped;
        slot_is = (x, r.icache_same ∙ slot);
        inode_tab_same = r.inode_tab_same ∙ c.inode_tab_same;
        inode_bmap_same = r.inode_bmap_same ∙ c.inode_bmap_same;
        dcache_same = r.dcache_same ∙ c.dcache_same;
        bits_same = ap length r.blk_bmap_same ∙ c.bits_same;
        blocks_same = g.counted;
        size_same = g.sized ∙ sym v.sized;
        itype_same = ap (λ c. (get_or c p no_inode).content.itype) r.icache_same ∙ c.itype_same;
        total_fits = omega (arith, t, h);
        places = ap length g.blocks_are ∙ q.places;
        inside = λ j h. omega (arith, same j, n, u.inside j (omega (arith, t)));
        earlier_same = λ j h. same j ∙ c.places_same j h;
        later_same = λ j h. same j ∙ c.later_same j (omega (arith, e, t));
        were_free =
            λ j h h'. ap (is_set fs.blk_bmap) (same j) ∙ c.were_free j h (omega (arith, e, t));
      }

  stored :
      (now file offset : ℕ) (junk bs : Bytes)
      → m ≡ required (inode_at fs p).size (offset + length bs)
      → offset_to_blocks (inode_at fs p).size + required (inode_at fs p).size (offset + length bs)
        ≤ 10
      → HasPlaces p gs
      → InUse p
          (offset_to_blocks (inode_at fs p).size
            + required (inode_at fs p).size (offset + length bs))
          gs
      → offset ≤ (inode_at fs p).size
      → length junk ≡ 512
      → FileWritten now file p offset bs fs (
          write_blocks now file p offset junk bs
            (offset_to_blocks (inode_at fs p).size)
            (required (inode_at fs p).size (offset + length bs))
            gs)
  stored now file offset junk bs e h q u o j =
      let size : ℕ = (inode_at fs p).size in
      let used : ℕ = offset_to_blocks size in
      let req : ℕ = required size (offset + length bs) in
      let count_same : gs.blocks.num_blocks ≡ fs.blocks.num_blocks =
        ap (λ d. d.num_blocks) c.disk_same in
      let a : AreBlocks (inode_at gs p).blocks fs.blocks.num_blocks (used + req) =
        subst (λ n. AreBlocks (inode_at gs p).blocks n (used + req)) count_same
          (InUse-AreBlocks p (used + req) gs u) in
      let fits : offset + length bs ≤ (used + req) * 512 = omega (
        arith,
        required_are size (offset + length bs),
        offset_to_blocks_up (max (offset + length bs) size),
      ) in
      let (w, r, empty, g, d) =
        write_blocks-Rewritten now p (inode_at gs p).blocks fs.blocks.num_blocks (used + req) a file
          used req offset size junk bs gs
          (Allocated-IsWriting p used m (used + used + (req + 8)) fs gs v c (omega (arith, h)))
          (omega arith) o (omega (arith, offset_to_blocks_up size)) fits j in
      let size_same : (inode_at w.fs p).size ≡ size =
        ap (λ c. (get_or c p no_inode).content.size) d.changed.rest_same.icache_same
        ∙ c.size_same in
      subst (FileWritten now file p offset bs fs)
        (sym (r ∙ end_write_all now file p (offset + length bs) size w empty size_same))
        (stored_all w (settled offset bs w.fs e h q u g d.changed.rest_same)
          (top_contents now offset bs w a q.in_cache g.blocks_are d)
          (λ k l marked other.
            d.changed.outside k (omega (arith, l, count_same))
              (λ i x y. not_of_file (used + req) k (omega (arith, e)) marked other i (omega arith))
            ∙ shown-same fs gs k c.disk_same c.cache_same))

branch :
    (now file p offset : ℕ) (junk bs : Bytes) (fs gs : Fs) (ok : Bool) (m : ℕ)
    → IsWritable p fs
    → offset ≤ (inode_at fs p).size
    → length junk ≡ 512
    → ltb
        (10 - offset_to_blocks (inode_at fs p).size)
        (required (inode_at fs p).size (offset + length bs))
      ≡ false
    → offset_to_blocks (inode_at fs p).size + required (inode_at fs p).size (offset + length bs)
      ≤ 10
    → alloc_blocks p
        (required (inode_at fs p).size (offset + length bs))
        (offset_to_blocks (inode_at fs p).size)
        fs
      ≡ (gs, ok)
    → (ok ≡ true → m ≡ required (inode_at fs p).size (offset + length bs))
    → Allocated p (offset_to_blocks (inode_at fs p).size) m fs gs
    → HasPlaces p gs
    → Outcome p
        (offset_to_blocks (inode_at fs p).size + required (inode_at fs p).size (offset + length bs))
        gs
        ok
    → FileWritten now file p offset bs fs (write_file now file p offset junk bs fs)
branch now file p offset junk bs fs gs true m v o j e h r n c q (found u) =
    subst (FileWritten now file p offset bs fs)
      (sym (write_file_goes_on now file p offset junk bs fs gs e r))
      (stored p fs gs m v c now file offset junk bs (n refl) h q u o j)
branch now file p offset junk bs fs gs false m v o j e h r n c q (full all) =
    subst (FileWritten now file p offset bs fs)
      (sym (write_file_full now file p offset junk bs fs gs e r))
      (disk_full gs all (λ k. shown-same fs gs k c.disk_same c.cache_same))

-- What fs_write does behind its checks, in all its branches.
pub write_file-FileWritten :
    (now file p offset : ℕ) (junk bs : Bytes) (fs : Fs)
    → IsWritable p fs
    → offset ≤ (inode_at fs p).size
    → length junk ≡ 512
    → FileWritten now file p offset bs fs (write_file now file p offset junk bs fs)
write_file-FileWritten now file p offset junk bs fs v o j =
    let size : ℕ = (inode_at fs p).size in
    let used : ℕ = offset_to_blocks size in
    let req : ℕ = required size (offset + length bs) in
    elim (Bool-cases (ltb (10 - used) req)) [
      | inl e ↦
          subst (FileWritten now file p offset bs fs)
            (sym (write_file_too_long now file p offset junk bs fs e))
            (too_long (required-gt size (offset + length bs) e))
      | inr e ↦
          let h : used + req ≤ 10 = required-le size (offset + length bs) v.fits e in
          let (gs, ok, r, m, n, c, q, u) =
            alloc_blocks-Outcome p req used fs v.has_places
              (Suffices-le _ _ (omega (arith, h)) v.suffices) v.in_use h in
          branch now file p offset junk bs fs gs ok m v o j e h r n c q u
    ]
