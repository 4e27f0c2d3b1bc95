-- ===== src/Fs/Writing/Places.antt =====
-- The allocation of a block in fs_write of snfs_server/fs.c.
use sthreads.Prelude.{
  ℕ, suc, ◌+◌, ◌/◌, ◌<◌, ◌≤◌, ◌≡◌, ◌≢◌, inl, inr, refl, sym, ap, ◌∙◌, subst, true, false, arith,
  length, length-set, get_or, set, set-set, set-get_or, get_or-set_self, get_or-set_ne, Bool-cases,
}
use native.Mathlib.Decide.{ℕ_discrete}
use sthreads.Fs.State.{Fs, Inode, no_inode}
use sthreads.Fs.Bitmap.{is_set, set_bit}
use sthreads.Fs.Bitmap.Setting.{is_set-set_bit_self, is_set-set_bit_ne, length-set_bit}
use sthreads.Fs.InodeCache.{islot}
use sthreads.Fs.Writing.{inode_at, put_block}

-- the block in the place `j` of the inode in the slot `p`
abbrev pub block_at : Fs → ℕ → ℕ → ℕ
block_at fs p j = get_or (inode_at fs p).blocks j 0

-- The first `n` places of the inode in the slot `p` hold different blocks, which are marked.
pub record InUse (p n : ℕ) (fs : Fs) : Type 0 where
  pub inside : (j : ℕ) → j < n → block_at fs p j < fs.blocks.num_blocks
  pub distinct : (i j : ℕ) → i < n → j < n → i ≢ j → block_at fs p i ≢ block_at fs p j
  pub marked : (j : ℕ) → j < n → is_set fs.blk_bmap (block_at fs p j) ≡ true

-- The slot `p` holds an inode with places for ten blocks.
pub record HasPlaces (p : ℕ) (fs : Fs) : Type 0 where
  pub in_cache : p < length fs.icache
  pub places : length (inode_at fs p).blocks ≡ 10

-- What an allocation for the `n` places from `i` on leaves as it was.
pub record Allocated (p i n : ℕ) (fs fs' : Fs) : Type 0 where
  pub disk_same : fs'.blocks ≡ fs.blocks
  pub cache_same : fs'.bcache ≡ fs.bcache
  pub clock_same : fs'.lru_clock ≡ fs.lru_clock
  pub inode_tab_same : fs'.inode_tab ≡ fs.inode_tab
  pub inode_bmap_same : fs'.inode_bmap ≡ fs.inode_bmap
  pub dcache_same : fs'.dcache ≡ fs.dcache
  pub bits_same : length fs'.blk_bmap ≡ length fs.blk_bmap
  pub slot_is : (x : Inode) × (fs'.icache ≡ set fs.icache p (record (islot fs p) { content = x }))
  pub itype_same : (inode_at fs' p).itype ≡ (inode_at fs p).itype
  pub later_same : (j : ℕ) → i + n ≤ j → block_at fs' p j ≡ block_at fs p j
  pub size_same : (inode_at fs' p).size ≡ (inode_at fs p).size
  pub places_same : (j : ℕ) → j < i → block_at fs' p j ≡ block_at fs p j
  pub marks_kept : (k : ℕ) → is_set fs.blk_bmap k ≡ true → is_set fs'.blk_bmap k ≡ true
  pub were_free : (j : ℕ) → i ≤ j → j < i + n → is_set fs.blk_bmap (block_at fs' p j) ≡ false
  pub new_ones :
      (k : ℕ)
      → is_set fs'.blk_bmap k ≡ true
      → is_set fs.blk_bmap k ≡ false
      → (j : ℕ) × (i ≤ j) × (j < i + n) × (block_at fs' p j ≡ k)

pub Allocated-refl : (p i : ℕ) (fs : Fs) → Allocated p i 0 fs fs
Allocated-refl p i fs = record {
  disk_same = refl;
  cache_same = refl;
  clock_same = refl;
  inode_tab_same = refl;
  inode_bmap_same = refl;
  dcache_same = refl;
  bits_same = refl;
  slot_is = ((inode_at fs p), sym (set-get_or fs.icache p no_inode));
  itype_same = refl;
  later_same = λ j h. refl;
  size_same = refl;
  places_same = λ j h. refl;
  marks_kept = λ k h. h;
  were_free = λ j h h'. absurd (omega arith);
  new_ones = λ k h h'. absurd (cc (h, h'));
}

-- what a round with the block `k` leaves
abbrev pub allocate : (p i k : ℕ) → Fs → Fs
allocate p i k fs = record (put_block fs p i k) { blk_bmap = set_bit fs.blk_bmap k }

module _ (p i k : ℕ) (fs : Fs) (v : HasPlaces p fs) (h : i < 10) (lt : k < fs.blocks.num_blocks)
    (free : is_set fs.blk_bmap k ≡ false) (bit_inside : k / 8 < length fs.blk_bmap) where
  put_is :
      (inode_at (allocate p i k fs) p)
      ≡ record (inode_at fs p) { blocks = set (inode_at fs p).blocks i k }
  put_is = ap (λ s. s.content) (get_or-set_self fs.icache p _ no_inode v.in_cache)

  block_at_self : block_at (allocate p i k fs) p i ≡ k
  block_at_self =
      ap (λ x. get_or x.blocks i 0) put_is
      ∙ get_or-set_self (inode_at fs p).blocks i k 0 (omega (arith, v.places))

  block_at_ne : (j : ℕ) → i ≢ j → block_at (allocate p i k fs) p j ≡ block_at fs p j
  block_at_ne j ne =
      ap (λ x. get_or x.blocks j 0) put_is ∙ get_or-set_ne (inode_at fs p).blocks i j k 0 ne

  marks_after : (m : ℕ) → is_set fs.blk_bmap m ≡ true → is_set (set_bit fs.blk_bmap k) m ≡ true
  marks_after m e = elim (ℕ_discrete k m) [
    | yes q ↦ absurd (cc (q, e, free))
    | no ne ↦ is_set-set_bit_ne fs.blk_bmap k m bit_inside ne ∙ e
  ]

  pub allocate-HasPlaces : HasPlaces p (allocate p i k fs)
  allocate-HasPlaces = record {
    in_cache = omega (arith, v.in_cache, length-set fs.icache p _);
    places = ap (λ x. length x.blocks) put_is ∙ length-set (inode_at fs p).blocks i k ∙ v.places;
  }

  pub allocate-Allocated : Allocated p i 1 fs (allocate p i k fs)
  allocate-Allocated = record {
    disk_same = refl;
    cache_same = refl;
    clock_same = refl;
    inode_tab_same = refl;
    inode_bmap_same = refl;
    dcache_same = refl;
    bits_same = length-set_bit fs.blk_bmap k;
    slot_is = (record (inode_at fs p) { blocks = set (inode_at fs p).blocks i k }, refl);
    itype_same = ap (λ x. x.itype) put_is;
    later_same = λ j l. block_at_ne j (omega arith);
    size_same = ap (λ x. x.size) put_is;
    places_same = λ j l. block_at_ne j (omega arith);
    marks_kept = marks_after;
    were_free = λ j a b.
        let e : i ≡ j = omega arith in
        subst (λ j. is_set fs.blk_bmap (block_at (allocate p i k fs) p j) ≡ false) e
          (ap (is_set fs.blk_bmap) block_at_self ∙ free);
    new_ones = λ m a b. elim (ℕ_discrete k m) [
      | yes q ↦ (i, omega arith, omega arith, block_at_self ∙ q)
      | no ne ↦ absurd (cc (is_set-set_bit_ne fs.blk_bmap k m bit_inside ne, a, b))
    ];
  }

  -- The new block is none of those that the places before hold, since those are marked.
  not_used : InUse p i fs → (j : ℕ) → j < i → block_at fs p j ≢ k
  not_used u j l e = cc (u.marked j l, e, free)

  new_differs :
      InUse p i fs
      → (j : ℕ) → j < i
      → block_at (allocate p i k fs) p i ≢ block_at (allocate p i k fs) p j
  new_differs u j l e = not_used u j l (sym (block_at_ne j (omega arith)) ∙ sym e ∙ block_at_self)

  pub allocate-InUse : InUse p i fs → InUse p (suc i) (allocate p i k fs)
  allocate-InUse u = record {
    inside = λ j l. elim (ℕ_discrete i j) [
      | yes q ↦
          subst (λ j. block_at (allocate p i k fs) p j < fs.blocks.num_blocks) q
            (omega (arith, block_at_self, lt))
      | no ne ↦ omega (arith, block_at_ne j ne, u.inside j (omega arith))
    ];
    distinct = λ x y a b ne. elim (ℕ_discrete i x) [
      | yes q ↦
          subst (λ x. block_at (allocate p i k fs) p x ≢ block_at (allocate p i k fs) p y) q
            (new_differs u y (omega arith))
      | no nx ↦ elim (ℕ_discrete i y) [
        | yes q ↦
            subst (λ y. block_at (allocate p i k fs) p x ≢ block_at (allocate p i k fs) p y) q
              (λ e. new_differs u x (omega arith) (sym e))
        | no ny ↦ λ e.
            u.distinct x y (omega arith) (omega arith) ne
              (sym (block_at_ne x nx) ∙ e ∙ block_at_ne y ny)
      ]
    ];
    marked = λ j l. elim (ℕ_discrete i j) [
      | yes q ↦
          subst (λ j. is_set (set_bit fs.blk_bmap k) (block_at (allocate p i k fs) p j) ≡ true) q
            (ap (is_set (set_bit fs.blk_bmap k)) block_at_self
              ∙ is_set-set_bit_self fs.blk_bmap k bit_inside)
      | no ne ↦
          ap (is_set (set_bit fs.blk_bmap k)) (block_at_ne j ne)
          ∙ marks_after (block_at fs p j) (u.marked j (omega arith))
    ];
  }

pub Allocated-trans :
    {p i n : ℕ} {fs gs hs : Fs}
    → p < length fs.icache
    → Allocated p i 1 fs gs
    → Allocated p (suc i) n gs hs
    → Allocated p i (suc n) fs hs
Allocated-trans {p} {i} {n} {fs} {gs} {hs} l v w = record {
  inode_tab_same = w.inode_tab_same ∙ v.inode_tab_same;
  inode_bmap_same = w.inode_bmap_same ∙ v.inode_bmap_same;
  dcache_same = w.dcache_same ∙ v.dcache_same;
  bits_same = w.bits_same ∙ v.bits_same;
  slot_is =
      let (x, e) = v.slot_is in
      let (y, e') = w.slot_is in
      (
        y,
        e'
            ∙ ap (λ c. set c p (record (get_or c p no_inode) { content = y })) e
            ∙ ap
                (λ s.
                  set (set fs.icache p (record (islot fs p) { content = x })) p
                    (record s { content = y }))
                (get_or-set_self fs.icache p (record (islot fs p) { content = x }) no_inode l)
            ∙ set-set fs.icache p (record (islot fs p) { content = x })
                (record (islot fs p) { content = y }),
      );
  itype_same = w.itype_same ∙ v.itype_same;
  later_same = λ j h. w.later_same j (omega arith) ∙ v.later_same j (omega arith);
  disk_same = w.disk_same ∙ v.disk_same;
  cache_same = w.cache_same ∙ v.cache_same;
  clock_same = w.clock_same ∙ v.clock_same;
  size_same = w.size_same ∙ v.size_same;
  places_same = λ j h. w.places_same j (omega arith) ∙ v.places_same j h;
  marks_kept = λ k h. w.marks_kept k (v.marks_kept k h);
  were_free = λ j a b. elim (ℕ_discrete i j) [
    | yes e ↦
        ap (is_set fs.blk_bmap) (w.places_same j (omega arith)) ∙ v.were_free j a (omega arith)
    | no ne ↦
        let late : is_set gs.blk_bmap (block_at hs p j) ≡ false =
          w.were_free j (omega arith) (omega arith) in
        elim (Bool-cases (is_set fs.blk_bmap (block_at hs p j))) [
          | inl e ↦ absurd (cc (v.marks_kept (block_at hs p j) e, late))
          | inr e ↦ e
        ]
  ];
  new_ones = λ k h h'. elim (Bool-cases (is_set gs.blk_bmap k)) [
    | inl e ↦
        let (j, a, b, c) = v.new_ones k e h' in
        (j, a, omega arith, w.places_same j (omega arith) ∙ c)
    | inr e ↦ let (j, a, b, c) = w.new_ones k h e in (j, omega arith, omega arith, c)
  ];
}
