-- ===== src/Fs/BlockCache/Untouched.antt =====
-- The write-backs of the block cache of snfs_server/fs.c leave the keys and the stamps of the slots.
use sthreads.Prelude.{
  ℕ, zero, suc, ◌≡◌, refl, ap, ◌∙◌, Bool, false, inl, inr, ◌&&◌, Bool-cases, Option-cases,
}
use sthreads.Block.{Bytes, block_write}
use sthreads.Cache.{Slot, expired}
use sthreads.Fs.State.{Fs, block_cache_size}
use sthreads.Fs.BlockCache.{bslot, disk_write, bc_flush, bc_flush_if, bc_flush_expired}
use sthreads.Fs.BlockCache.Flushing.{bc_flush-bslot}

-- The slots hold the same blocks with the same stamps.
pub record Untouched (fs fs' : Fs) : Type 0 where
  pub clock : fs'.lru_clock ≡ fs.lru_clock
  pub stamps : (j : ℕ) → (bslot fs' j).lru ≡ (bslot fs j).lru
  pub valids : (j : ℕ) → (bslot fs' j).valid ≡ (bslot fs j).valid
  pub keys : (j : ℕ) → (bslot fs' j).key ≡ (bslot fs j).key

Untouched-refl : (fs : Fs) → Untouched fs fs
Untouched-refl fs = record {
  clock = refl;
  stamps = λ j. refl;
  valids = λ j. refl;
  keys = λ j. refl;
}

Untouched-trans : {fs gs hs : Fs} → Untouched fs gs → Untouched gs hs → Untouched fs hs
Untouched-trans u w = record {
  clock = w.clock ∙ u.clock;
  stamps = λ j. w.stamps j ∙ u.stamps j;
  valids = λ j. w.valids j ∙ u.valids j;
  keys = λ j. w.keys j ∙ u.keys j;
}

disk_write-clock : (fs : Fs) (k : ℕ) (b : Bytes) → (disk_write fs k b).lru_clock ≡ fs.lru_clock
unfolding disk_write
disk_write-clock fs k b = elim (Option-cases (block_write fs.blocks k b)) [
  | inl e ↦ rw (e, disk_write)
  | inr (d, e) ↦ rw (e, disk_write)
]

bc_flush-clock : (fs : Fs) (i : ℕ) → (bc_flush fs i).lru_clock ≡ fs.lru_clock
unfolding bc_flush
bc_flush-clock fs i = elim (Bool-cases ((bslot fs i).valid && (bslot fs i).dirty)) [
  | inr e ↦ rw (e, bc_flush)
  | inl e ↦ rw (e, bc_flush) (disk_write-clock fs (bslot fs i).key (bslot fs i).content)
]

slot_field :
    {A : Type 0} (f : Slot Bytes → A) (fs : Fs) (i j : ℕ)
    → ((s : Slot Bytes) → f (record s { dirty = false }) ≡ f s)
    → f (bslot (bc_flush fs i) j) ≡ f (bslot fs j)
slot_field f fs i j h = elim (bc_flush-bslot fs i j) [
  | inl e ↦ ap f e
  | inr (_, e) ↦ ap f e ∙ h (bslot fs j)
]

pub bc_flush-Untouched : (fs : Fs) (i : ℕ) → Untouched fs (bc_flush fs i)
bc_flush-Untouched fs i = record {
  clock = bc_flush-clock fs i;
  stamps = λ j. slot_field (λ s. s.lru) fs i j (λ s. refl);
  valids = λ j. slot_field (λ s. s.valid) fs i j (λ s. refl);
  keys = λ j. slot_field (λ s. s.key) fs i j (λ s. refl);
}

bc_flush_if-Untouched :
    (t : Slot Bytes → Bool) (n i : ℕ) (fs : Fs) → Untouched fs (bc_flush_if t n i fs)
unfolding bc_flush_if
bc_flush_if-Untouched t zero i fs = Untouched-refl fs
bc_flush_if-Untouched t (suc n) i fs = elim (Bool-cases (t (bslot fs i))) [
  | inr e ↦ rw e (bc_flush_if-Untouched t n (suc i) fs)
  | inl e ↦ rw e (
      Untouched-trans (bc_flush-Untouched fs i) (bc_flush_if-Untouched t n (suc i) (bc_flush fs i)))
]

pub bc_flush_expired-Untouched : (now : ℕ) (fs : Fs) → Untouched fs (bc_flush_expired now fs)
unfolding bc_flush_expired
bc_flush_expired-Untouched now fs = bc_flush_if-Untouched (expired now) block_cache_size 0 fs
