-- ===== src/Fs/Writing/Ending.antt =====
-- The end of fs_write of snfs_server/fs.c: the inode gets its size, and the metadata can be stored.
use sthreads.Prelude.{
  ℕ, zero, suc, ◌^◌, ◌<◌, ◌≤◌, ◌≡◌, ◌≢◌, refl, sym, ap, ◌∙◌, subst, inl, inr, List, [], ◌∷◌, arith,
  length, get_or, set, set-set, get_or-set_self, Option-cases,
}
use native.Mathlib.Decide.{ℕ_discrete, dec_lt}
use sthreads.Cache.{find, holds}
use sthreads.Fs.State.{Fs, Inode, no_inode, no_page}
use sthreads.Fs.Bitmap.Clear.{Suffices}
use sthreads.Fs.DirCache.Flushing.{HasPages}
use sthreads.Fs.InodeCache.{islot, ic_mark, ic_dirty}
use sthreads.Fs.InodeCache.Transparency.{inode_shown, HasInodes, assign, ic_dirty-assign}
use sthreads.Fs.InodeCache.Flushing.{SameDisk}
use sthreads.Fs.InodeCache.Getting.{Got}
use sthreads.Fs.Files.{offset_to_blocks}
use sthreads.Fs.Files.Contents.{IsSound-same, IsStamped-same, offset_to_blocks_up}
use sthreads.Fs.Metadata.Layout.{IsInode, AllWords, all_none, all_more}
use sthreads.Fs.Metadata.Persisting.{IsStorable}
use sthreads.Fs.Writing.{inode_at}
use sthreads.Fs.Writing.File.{Settled, sized_to}

AllWords-get : {ws : List ℕ} → AllWords ws → (j : ℕ) → get_or ws j 0 < 2 ^ 32
AllWords-get all_none j = omega arith
AllWords-get (all_more h a) zero = h
AllWords-get (all_more h a) (suc j) = AllWords-get a j

AllWords-each : (ws : List ℕ) → ((j : ℕ) → j < length ws → get_or ws j 0 < 2 ^ 32) → AllWords ws
AllWords-each [] h = all_none
AllWords-each (w ∷ ws) h =
    all_more (h 0 (omega arith)) (AllWords-each ws (λ j l. h (suc j) (omega arith)))

ic_dirty-SameDisk :
    (now id : ℕ) (fs : Fs)
    → SameDisk fs (ic_dirty now id fs) × ((ic_dirty now id fs).lru_clock ≡ fs.lru_clock)
unfolding ic_dirty ic_mark
ic_dirty-SameDisk now id fs = elim (Option-cases (find (holds id) fs.icache)) [
  | inl e ↦
      rw (e, ic_dirty)
        (
          record {
            blocks_same = refl;
            bcache_same = refl;
            blk_bmap_same = refl;
            inode_bmap_same = refl;
            dcache_same = refl;
          },
          refl,
        )
  | inr (i, e) ↦
      rw (e, ic_dirty)
        (
          record {
            blocks_same = refl;
            bcache_same = refl;
            blk_bmap_same = refl;
            inode_bmap_same = refl;
            dcache_same = refl;
          },
          refl,
        )
]

-- What fsi_store_fsdata needs besides the caches of the file.
pub record IsStorageOf (fs : Fs) : Type 0 where
  pub enough : 10 ≤ fs.blocks.num_blocks
  pub number_fits : fs.blocks.num_blocks < 2 ^ 32
  pub suffices : Suffices 10 fs.blocks.num_blocks fs.blk_bmap
  pub has_pages : HasPages fs
  pub fit : (k : ℕ) → k < 64 → IsInode (inode_shown fs k)
  pub blk_bits : length fs.blk_bmap ≡ 512
  pub inode_bits : length fs.inode_bmap ≡ 512

module _ (now file p used top : ℕ) (fs gs ws : Fs) (lt : file < 64) (g : Got file fs gs p)
    (s : Settled p used (offset_to_blocks top) gs ws) where
  -- the inode that is put
  unfoldable pub new_inode_is : Inode
  new_inode_is = record (inode_at ws p) { size = top }

  before : Fs
  before = record ws { icache = gs.icache }

  before-HasInodes : HasInodes before
  unfolding before
  before-HasInodes =
      let v =
        subst (λ t. HasInodes (record gs { inode_tab = t })) (sym s.inode_tab_same) g.inodes.has in
      record { table = v.table; slots = v.slots; coherent = v.coherent }

  before-same : (k : ℕ) → inode_shown before k ≡ inode_shown gs k
  unfolding before inode_shown
  before-same k = ap (λ t. inode_shown (record gs { inode_tab = t }) k) s.inode_tab_same

  sized_to-assign : sized_to p top ws ≡ assign before p new_inode_is
  unfolding before new_inode_is assign
  sized_to-assign =
      let (x, e) = s.slot_is in
      let y : Inode = record (inode_at ws p) { size = top } in
      ap (λ c. record ws { icache = set c p (record (get_or c p no_inode) { content = y }) }) e
      ∙ ap
          (λ t. record ws {
            icache =
                set (set gs.icache p (record (islot gs p) { content = x })) p
                  (record t { content = y });
          })
          (get_or-set_self gs.icache p (record (islot gs p) { content = x }) no_inode g.in_cache)
      ∙ ap (λ c. record ws { icache = c })
          (set-set gs.icache p (record (islot gs p) { content = x })
            (record (islot gs p) { content = y }))

  unfoldable pub ended : Fs
  ended = ic_dirty now file (sized_to p top ws)

  pub ended-inodes :
      HasInodes ended
      × (inode_shown ended file ≡ new_inode_is)
      × ((k : ℕ) → k < 64 → k ≢ file → inode_shown ended k ≡ inode_shown fs k)
  unfolding ended before
  ended-inodes =
      let (a, b, _, c) =
        ic_dirty-assign now file p new_inode_is before before-HasInodes g.is_valid g.is_key in
      subst
        (λ u.
          HasInodes (ic_dirty now file u)
          × (inode_shown (ic_dirty now file u) file ≡ new_inode_is)
          × ((k : ℕ) → k < 64 → k ≢ file → inode_shown (ic_dirty now file u) k ≡ inode_shown fs k))
        (sym sized_to-assign) (a, b, λ k h ne. c k h ne ∙ before-same k ∙ g.inodes.same k h)

  pub ended-SameDisk : SameDisk ws ended
  unfolding ended
  ended-SameDisk =
      let (d, _) = ic_dirty-SameDisk now file (sized_to p top ws) in
      record {
        blocks_same = d.blocks_same;
        bcache_same = d.bcache_same;
        blk_bmap_same = d.blk_bmap_same;
        inode_bmap_same = d.inode_bmap_same;
        dcache_same = d.dcache_same;
      }

  ended-clock : ended.lru_clock ≡ ws.lru_clock
  unfolding ended
  ended-clock = let (_, c) = ic_dirty-SameDisk now file (sized_to p top ws) in c

  new-IsInode : IsStorageOf fs → IsInode new_inode_is
  unfolding new_inode_is
  new-IsInode v =
      let old : IsInode (inode_at gs p) = subst IsInode (sym g.is_shown) (v.fit file lt) in
      let n : gs.blocks.num_blocks ≡ fs.blocks.num_blocks =
        ap (λ d. d.num_blocks) g.inodes.disk.blocks_same in
      record {
        itype_fits = omega (arith, s.itype_same, old.itype_fits);
        size_fits = omega (arith, s.total_fits, offset_to_blocks_up top);
        blocks_fit = AllWords-each (inode_at ws p).blocks (λ j l.
            elim (dec_lt j (offset_to_blocks top)) [
              | yes h ↦ omega (arith, s.inside j h, n, v.number_fits)
              | no h ↦
                  omega (arith, s.later_same j (omega (arith, h)), AllWords-get old.blocks_fit j)
            ]);
        ten = s.places;
      }

  pages_kept : HasPages fs → HasPages ended
  pages_kept v =
      let c : ended.dcache ≡ fs.dcache =
        ended-SameDisk.dcache_same ∙ s.dcache_same ∙ g.inodes.disk.dcache_same in
      let n : ended.blocks.num_blocks ≡ fs.blocks.num_blocks =
        ap (λ d. d.num_blocks) ended-SameDisk.blocks_same
        ∙ s.blocks_same
        ∙ ap (λ d. d.num_blocks) g.inodes.disk.blocks_same in
      let z : ended.blocks.block_size ≡ fs.blocks.block_size =
        ap (λ d. d.block_size) ended-SameDisk.blocks_same
        ∙ s.size_same
        ∙ ap (λ d. d.block_size) g.inodes.disk.blocks_same in
      record {
        inside = λ j ok. omega (
          arith,
          n,
          ap (λ c. (get_or c j no_page).key) c,
          v.inside j (sym (ap (λ c. (get_or c j no_page).valid) c) ∙ ok),
        );
        whole = λ j ok.
            ap (λ c. length (get_or c j no_page).content.entries) c
            ∙ v.whole j (sym (ap (λ c. (get_or c j no_page).valid) c) ∙ ok)
            ∙ sym z;
      }

  -- The state at the end can be stored.
  pub ended-IsStorable : fs.blocks.block_size ≡ 512 → IsStorageOf fs → IsStorable ended
  ended-IsStorable z v =
      let d = ended-SameDisk in
      let (a, b, c) = ended-inodes in
      let t = IsStamped-same ws ended 8 d.bcache_same ended-clock s.stamped in
      record {
        sound = IsSound-same ws ended d.blocks_same d.bcache_same s.sound;
        stamped = record { behind = t.behind; room = omega (arith, t.room) };
        sized =
            ap (λ d. d.block_size) d.blocks_same
            ∙ s.size_same
            ∙ ap (λ d. d.block_size) g.inodes.disk.blocks_same
            ∙ z;
        enough = omega (
          arith,
          v.enough,
          s.blocks_same,
          ap (λ d. d.num_blocks) d.blocks_same,
          ap (λ d. d.num_blocks) g.inodes.disk.blocks_same,
        );
        has_pages = pages_kept v.has_pages;
        inodes = a;
        fit = λ k h. elim (ℕ_discrete k file) [
          | yes e ↦ subst IsInode (sym (ap (inode_shown ended) e ∙ b)) (new-IsInode v)
          | no ne ↦ subst IsInode (sym (c k h ne)) (v.fit k h)
        ];
        blk_bits =
            ap length d.blk_bmap_same
            ∙ s.bits_same
            ∙ ap length g.inodes.disk.blk_bmap_same
            ∙ v.blk_bits;
        inode_bits =
            ap length d.inode_bmap_same
            ∙ ap length s.inode_bmap_same
            ∙ ap length g.inodes.disk.inode_bmap_same
            ∙ v.inode_bits;
      }
