-- ===== src/Fs/InodeCache/Flushing.antt =====
-- The write-backs of the inode cache of snfs_server/fs.c change nothing that the cache shows.
use sthreads.Prelude.{
  ℕ, zero, suc, ◌<◌, ◌≡◌, refl, sym, ap, ◌∙◌, subst, Bool, true, false, ◌&&◌, List, inl, inr, arith,
  length, get_or, set, length-set, get_or-set_self, get_or-set_ne, Bool-cases,
}
use native.Mathlib.Decide.{ℕ_discrete}
use sthreads.Cache.{Slot, expired}
use sthreads.Cache.Coherence.{valid-lt, at-set_self, at-set_ne, view_held}
use sthreads.Cache.Placing.{MayPlace, place-Coherent, place-view_self, place-view_ne}
use sthreads.Fs.State.{Fs, Inode, null_inode, inode_cache_size}
use sthreads.Fs.InodeCache.{islot, tab_get, ic_flush, ic_flush_if, ic_flush_expired}
use sthreads.Fs.InodeCache.Transparency.{inode_shown, HasInodes}

-- What an operation of the inode cache leaves alone outside of the cache, its table and the clock.
pub record SameDisk (fs fs' : Fs) : Type 0 where
  pub blocks_same : fs'.blocks ≡ fs.blocks
  pub bcache_same : fs'.bcache ≡ fs.bcache
  pub blk_bmap_same : fs'.blk_bmap ≡ fs.blk_bmap
  pub inode_bmap_same : fs'.inode_bmap ≡ fs.inode_bmap
  pub dcache_same : fs'.dcache ≡ fs.dcache

pub SameDisk-trans : {fs gs hs : Fs} → SameDisk fs gs → SameDisk gs hs → SameDisk fs hs
SameDisk-trans v w = record {
  blocks_same = w.blocks_same ∙ v.blocks_same;
  bcache_same = w.bcache_same ∙ v.bcache_same;
  blk_bmap_same = w.blk_bmap_same ∙ v.blk_bmap_same;
  inode_bmap_same = w.inode_bmap_same ∙ v.inode_bmap_same;
  dcache_same = w.dcache_same ∙ v.dcache_same;
}

-- The inodes that `fs'` shows are those of `fs`.
pub record SameInodes (fs fs' : Fs) : Type 0 where
  pub has : HasInodes fs'
  pub same : (k : ℕ) → k < 64 → inode_shown fs' k ≡ inode_shown fs k
  pub disk : SameDisk fs fs'

pub SameInodes-trans : {fs gs hs : Fs} → SameInodes fs gs → SameInodes gs hs → SameInodes fs hs
SameInodes-trans v w = record {
  has = w.has;
  same = λ k h. w.same k h ∙ v.same k h;
  disk = SameDisk-trans v.disk w.disk;
}

unfoldable pub ic_placed : Fs → List Inode → ℕ → Slot Inode → ℕ → Fs
ic_placed fs tab i s c = record fs { inode_tab = tab; icache = set fs.icache i s; lru_clock = c }

-- A slot that may be put in its place and holds what was shown keeps what the cache shows.
pub ic_placed-SameInodes :
    (fs : Fs) (tab : List Inode) (i : ℕ) (s : Slot Inode) (c : ℕ)
    → HasInodes fs
    → length tab ≡ 64
    → MayPlace null_inode 64 (tab_get fs) (λ k. get_or tab k null_inode) fs.icache i s
    → s.content ≡ inode_shown fs s.key
    → SameInodes fs (ic_placed fs tab i s c)
unfolding ic_placed inode_shown
ic_placed-SameInodes fs tab i s c v l m e = record {
  has = record {
    table = l;
    slots = length-set fs.icache i s ∙ v.slots;
    coherent = place-Coherent null_inode fs.icache i s v.coherent m;
  };
  same = λ k h. elim (ℕ_discrete k s.key) [
    | yes q ↦
        ap (inode_shown (ic_placed fs tab i s c)) q
        ∙ place-view_self null_inode fs.icache i s v.coherent m
        ∙ e
        ∙ ap (inode_shown fs) (sym q)
    | no ne ↦ place-view_ne null_inode fs.icache i s v.coherent m k h ne
  ];
  disk = record {
    blocks_same = refl;
    bcache_same = refl;
    blk_bmap_same = refl;
    inode_bmap_same = refl;
    dcache_same = refl;
  };
}

pub SameInodes-refl : (fs : Fs) → HasInodes fs → SameInodes fs fs
SameInodes-refl fs v = record {
  has = v;
  same = λ k h. refl;
  disk = record {
    blocks_same = refl;
    bcache_same = refl;
    blk_bmap_same = refl;
    inode_bmap_same = refl;
    dcache_same = refl;
  };
}

pub slot_shown :
    (fs : Fs) (i : ℕ)
    → HasInodes fs
    → (islot fs i).valid ≡ true
    → (islot fs i).content ≡ inode_shown fs (islot fs i).key
unfolding inode_shown
slot_shown fs i v h = sym (view_held null_inode fs.icache i (islot fs i).key v.coherent h refl)

-- The slots keep their keys and stamps, and the clock stands.
pub record SameSlots (fs fs' : Fs) : Type 0 where
  pub clock : fs'.lru_clock ≡ fs.lru_clock
  pub stamps : (j : ℕ) → (islot fs' j).lru ≡ (islot fs j).lru
  pub valids : (j : ℕ) → (islot fs' j).valid ≡ (islot fs j).valid
  pub keys : (j : ℕ) → (islot fs' j).key ≡ (islot fs j).key

pub SameSlots-refl : (fs : Fs) → SameSlots fs fs
SameSlots-refl fs = record {
  clock = refl;
  stamps = λ j. refl;
  valids = λ j. refl;
  keys = λ j. refl;
}

pub SameSlots-trans : {fs gs hs : Fs} → SameSlots fs gs → SameSlots gs hs → SameSlots fs hs
SameSlots-trans u w = record {
  clock = w.clock ∙ u.clock;
  stamps = λ j. w.stamps j ∙ u.stamps j;
  valids = λ j. w.valids j ∙ u.valids j;
  keys = λ j. w.keys j ∙ u.keys j;
}

module _ (fs : Fs) (i : ℕ) (v : HasInodes fs) (h : (islot fs i).valid ≡ true) where
  clean_slot : Slot Inode
  clean_slot = record (islot fs i) { dirty = false }

  saved_tab : List Inode
  saved_tab = set fs.inode_tab (islot fs i).key (islot fs i).content

  saved : Fs
  saved = ic_placed fs saved_tab i clean_slot fs.lru_clock

  saved_slot :
      {A : Type 0} (f : Slot Inode → A) (j : ℕ)
      → f clean_slot ≡ f (islot fs i)
      → f (islot saved j) ≡ f (islot fs j)
  unfolding saved ic_placed
  saved_slot f j e = elim (ℕ_discrete i j) [
    | yes q ↦
        subst (λ j. f (islot saved j) ≡ f (islot fs j)) q
          (ap f (at-set_self null_inode fs.icache i clean_slot (valid-lt null_inode fs.icache i h))
            ∙ e)
    | no ne ↦ ap f (at-set_ne null_inode fs.icache i j clean_slot ne)
  ]

  saved-SameSlots : SameSlots fs saved
  unfolding saved clean_slot ic_placed
  saved-SameSlots = record {
    clock = refl;
    stamps = λ j. saved_slot (λ s. s.lru) j refl;
    valids = λ j. saved_slot (λ s. s.valid) j refl;
    keys = λ j. saved_slot (λ s. s.key) j refl;
  }

  saved-SameInodes : SameInodes fs saved
  unfolding saved saved_tab clean_slot
  saved-SameInodes =
      let k = (islot fs i).key in
      let lt : k < length fs.inode_tab = omega (arith, v.table, v.coherent.inside i h) in
      ic_placed-SameInodes fs saved_tab i clean_slot fs.lru_clock v
        (length-set fs.inode_tab k (islot fs i).content ∙ v.table)
        (record {
          in_array = valid-lt null_inode fs.icache i h;
          is_valid = h;
          key_in = v.coherent.inside i h;
          alone = λ j ne hj ej. ne (v.coherent.distinct j i hj h ej);
          fresh = λ _. sym (get_or-set_self fs.inode_tab k (islot fs i).content null_inode lt);
          kept = λ c _ ne.
              get_or-set_ne fs.inode_tab k c (islot fs i).content null_inode (λ q. ne (sym q));
          unsaved = λ _ ne. absurd (ne refl);
        })
        (slot_shown fs i v h)

  flush_is : (islot fs i).dirty ≡ true → ic_flush fs i ≡ saved
  unfolding ic_flush saved saved_tab clean_slot ic_placed
  flush_is d = rw (h, d, ic_flush) refl

  saved_clean : ((islot saved i).valid && (islot saved i).dirty) ≡ false
  unfolding saved ic_placed clean_slot
  saved_clean =
      ap (λ s. s.valid && s.dirty)
        (at-set_self null_inode fs.icache i clean_slot (valid-lt null_inode fs.icache i h))
      ∙ ground arith

pub ic_flush-Same :
    (fs : Fs) (i : ℕ)
    → HasInodes fs
    → SameInodes fs (ic_flush fs i)
      × SameSlots fs (ic_flush fs i)
      × (((islot (ic_flush fs i) i).valid && (islot (ic_flush fs i) i).dirty) ≡ false)
unfolding ic_flush
ic_flush-Same fs i v = elim (Bool-cases ((islot fs i).valid && (islot fs i).dirty)) [
  | inr e ↦
      let q : ic_flush fs i ≡ fs = rw (e, ic_flush) in
      rw q (SameInodes-refl fs v, SameSlots-refl fs, e)
  | inl e ↦
      let h : (islot fs i).valid ≡ true = ground (arith, e) in
      let q : ic_flush fs i ≡ saved fs i v h = flush_is fs i v h (ground (arith, e)) in
      rw q (saved-SameInodes fs i v h, saved-SameSlots fs i v h, saved_clean fs i v h)
]

-- The loop over expired slots.
pub ic_flush_if-Same :
    (t : Slot Inode → Bool) (n i : ℕ) (fs : Fs)
    → HasInodes fs
    → SameInodes fs (ic_flush_if t n i fs) × SameSlots fs (ic_flush_if t n i fs)
unfolding ic_flush_if
ic_flush_if-Same t zero i fs v = (SameInodes-refl fs v, SameSlots-refl fs)
ic_flush_if-Same t (suc n) i fs v = elim (Bool-cases (t (islot fs i))) [
  | inr e ↦ rw e (ic_flush_if-Same t n (suc i) fs v)
  | inl e ↦
      let (a, b, _) = ic_flush-Same fs i v in
      let (a', b') = ic_flush_if-Same t n (suc i) (ic_flush fs i) a.has in
      rw e (SameInodes-trans a a', SameSlots-trans b b')
]

pub ic_flush_expired-Same :
    (now : ℕ) (fs : Fs)
    → HasInodes fs
    → SameInodes fs (ic_flush_expired now fs) × SameSlots fs (ic_flush_expired now fs)
unfolding ic_flush_expired
ic_flush_expired-Same now fs v = ic_flush_if-Same (expired now) inode_cache_size 0 fs v
