-- ===== src/Fs/BlockCache/Flushing.antt =====
-- The write-backs of the block cache of snfs_server/fs.c change nothing that the cache shows.
use sthreads.Prelude.{
  [], ℕ, zero, suc, ◌+◌, ◌<◌, ◌≤◌, ◌≡◌, ◌⊎◌, refl, sym, Bool, true, false, ◌&&◌, inl, inr, arith,
  set, ap, ◌∙◌, subst, Bool-cases, Option-cases,
}
use native.Mathlib.Decide.{ℕ_discrete}
use sthreads.Block.{Bytes, Blocks, block_write}
use sthreads.Block.Access.{block_write-block_read}
use sthreads.Cache.{Slot, expired}
use sthreads.Cache.Coherence.{
  at, view_missing, view_held, held_cases, valid-lt, at-set_self, at-set_ne,
}
use sthreads.Cache.Placing.{MayPlace}
use sthreads.Fs.State.{Fs, block_cache_size}
use sthreads.Fs.BlockCache.{
  bslot, disk_write, bc_flush, bc_flush_if, bc_flush_expired, bc_flush_all,
}
use sthreads.Fs.BlockCache.Transparency.{
  stored, shown, IsSound, SameView, SameView-refl, SameView-trans, Shows, Shows-SameView, placed,
  placed-Shows, stored-some, stored-same, shown_held,
}

flush_dirty :
    (fs : Fs) (i : ℕ) (v : IsSound fs)
    → (bslot fs i).valid ≡ true
    → (bslot fs i).dirty ≡ true
    → (d : Blocks) × (bc_flush fs i
        ≡ placed fs d i (record (bslot fs i) { dirty = false }) fs.lru_clock)
      × Shows fs (bslot fs i).key (bslot fs i).content (bc_flush fs i)
unfolding bc_flush disk_write placed
flush_dirty fs i v h e =
    let (d, wrote, w, n, z, same, other) =
      block_write-block_read v.whole (bslot fs i).key (bslot fs i).content (v.coherent.inside i h)
        (v.sized i h) in
    let m : MayPlace [] fs.blocks.num_blocks (stored fs.blocks) (stored d) fs.bcache i
        (record (bslot fs i) { dirty = false }) =
      record {
        in_array = valid-lt [] fs.bcache i h;
        is_valid = h;
        key_in = v.coherent.inside i h;
        alone = λ j ne hj ej. ne (v.coherent.distinct j i hj h ej);
        fresh = λ _. sym (stored-some d (bslot fs i).key (bslot fs i).content same);
        kept = λ c hc ne. stored-same fs.blocks d c (other c hc ne);
        unsaved = λ _ ne. absurd (ne refl);
      } in
    let eq : bc_flush fs i ≡ placed fs d i (record (bslot fs i) { dirty = false }) fs.lru_clock =
      rw (h, e, wrote, bc_flush, disk_write, placed) in
    (
      d,
      eq,
      subst (Shows fs (bslot fs i).key (bslot fs i).content) (sym eq) (
          placed-Shows fs v d i (record (bslot fs i) { dirty = false }) fs.lru_clock w n z m
            (v.sized i h)),
    )

-- A write-back keeps the cache sound and its view.
pub bc_flush-IsSound :
    (fs : Fs) (i : ℕ) → IsSound fs → IsSound (bc_flush fs i) × SameView fs (bc_flush fs i)
unfolding bc_flush
bc_flush-IsSound fs i v = elim (Bool-cases ((bslot fs i).valid && (bslot fs i).dirty)) [
  | inr e ↦ let eq : bc_flush fs i ≡ fs = rw (e, bc_flush) in rw eq (v, SameView-refl fs)
  | inl e ↦
      let h : (bslot fs i).valid ≡ true = ground (arith, e) in
      let (d, _, w) = flush_dirty fs i v h (ground (arith, e)) in
      (w.sound, Shows-SameView w (shown_held fs i (bslot fs i).key v h refl))
]

disk_write-bcache : (fs : Fs) (k : ℕ) (b : Bytes) → (disk_write fs k b).bcache ≡ fs.bcache
unfolding disk_write
disk_write-bcache fs k b = elim (Option-cases (block_write fs.blocks k b)) [
  | inl e ↦ rw (e, disk_write)
  | inr (d, e) ↦ rw (e, disk_write)
]

-- A write-back changes nothing in the array but a `dirty`.
bc_flush-bcache :
    (fs : Fs) (i : ℕ)
    → (((bc_flush fs i).bcache ≡ fs.bcache) × (((bslot fs i).valid && (bslot fs i).dirty) ≡ false))
      ⊎ (((bc_flush fs i).bcache ≡ set fs.bcache i (record (bslot fs i) { dirty = false }))
          × ((bslot fs i).valid ≡ true))
unfolding bc_flush
bc_flush-bcache fs i = elim (Bool-cases ((bslot fs i).valid && (bslot fs i).dirty)) [
  | inr e ↦ inl (rw (e, bc_flush), e)
  | inl e ↦ inr (
    rw (e, bc_flush)
        (ap (λ a. set a i (record (bslot fs i) { dirty = false }))
          (disk_write-bcache fs (bslot fs i).key (bslot fs i).content)),
    ground (arith, e),
  )
]

-- A write-back leaves the other slots, and its own slot but for `dirty`.
pub bc_flush-bslot :
    (fs : Fs) (i j : ℕ)
    → (bslot (bc_flush fs i) j ≡ bslot fs j)
      ⊎ ((i ≡ j) × (bslot (bc_flush fs i) j ≡ record (bslot fs j) { dirty = false }))
bc_flush-bslot fs i j = elim (bc_flush-bcache fs i) [
  | inl (e, _) ↦ inl (ap (λ a. at [] a j) e)
  | inr (e, h) ↦ elim (ℕ_discrete i j) [
    | no ne ↦ inl (ap (λ a. at [] a j) e ∙ at-set_ne [] fs.bcache i j _ ne)
    | yes i≡j ↦ inr (
      i≡j,
      subst (λ j. bslot (bc_flush fs i) j ≡ record (bslot fs j) { dirty = false }) i≡j
          (ap (λ a. at [] a i) e ∙ at-set_self [] fs.bcache i _ (valid-lt [] fs.bcache i h)),
    )
  ]
]

-- After its write-back a slot holds nothing unsaved.
pub bc_flush-clean :
    (fs : Fs) (i : ℕ) → ((bslot (bc_flush fs i) i).valid && (bslot (bc_flush fs i) i).dirty) ≡ false
bc_flush-clean fs i = elim (bc_flush-bcache fs i) [
  | inl (e, c) ↦ ap (λ a. (at [] a i).valid && (at [] a i).dirty) e ∙ c
  | inr (e, h) ↦
      ap (λ a. (at [] a i).valid && (at [] a i).dirty) e
      ∙ rw
          (at-set_self [] fs.bcache i (record (bslot fs i) { dirty = false })
            (valid-lt [] fs.bcache i h))
          (ground arith)
]

pub bc_flush_if-IsSound :
    (t : Slot Bytes → Bool) (n i : ℕ) (fs : Fs)
    → IsSound fs
    → IsSound (bc_flush_if t n i fs) × SameView fs (bc_flush_if t n i fs)
unfolding bc_flush_if
bc_flush_if-IsSound t zero i fs v = (v, SameView-refl fs)
bc_flush_if-IsSound t (suc n) i fs v = elim (Bool-cases (t (bslot fs i))) [
  | inr e ↦ rw e (bc_flush_if-IsSound t n (suc i) fs v)
  | inl e ↦
      let (v', s) = bc_flush-IsSound fs i v in
      let (v'', s') = bc_flush_if-IsSound t n (suc i) (bc_flush fs i) v' in
      rw e (v'', SameView-trans s s')
]

-- The loop over all slots leaves nothing unsaved in those that it visits.
bc_flush_if-clean :
    (n i : ℕ) (fs : Fs) (j : ℕ)
    → ((bslot fs j).valid && (bslot fs j).dirty) ≡ false ⊎ (i ≤ j) × (j < i + n)
    → ((bslot (bc_flush_if (λ s. true) n i fs) j).valid
        && (bslot (bc_flush_if (λ s. true) n i fs) j).dirty)
      ≡ false
unfolding bc_flush_if
bc_flush_if-clean zero i fs j (inl h) = h
bc_flush_if-clean zero i fs j (inr (h, h')) = absurd (omega arith)
bc_flush_if-clean (suc n) i fs j h =
    bc_flush_if-clean n (suc i) (bc_flush fs i) j (elim (ℕ_discrete i j) [
      | yes e ↦ inl (
          subst (λ j. ((bslot (bc_flush fs i) j).valid && (bslot (bc_flush fs i) j).dirty) ≡ false)
            e (bc_flush-clean fs i))
      | no ne ↦ elim h [
        | inl c ↦ elim (bc_flush-bslot fs i j) [ inl e ↦ inl (rw e c) | inr (e, _) ↦ absurd (ne e) ]
        | inr (a, b) ↦ inr (omega arith, omega arith)
      ]
    ])

saved_shown :
    (fs : Fs) (k : ℕ)
    → IsSound fs
    → ((j : ℕ) → (bslot fs j).valid ≡ true → (bslot fs j).dirty ≡ false)
    → stored fs.blocks k ≡ shown fs k
unfolding shown
saved_shown fs k v c = elim (held_cases [] fs.bcache k) [
  | inr m ↦ sym (view_missing [] (stored fs.blocks) fs.bcache k m)
  | inl (j, ok, e) ↦
      ap (stored fs.blocks) (sym e)
      ∙ sym (v.coherent.saved j ok (c j ok))
      ∙ sym (view_held [] fs.bcache j k v.coherent ok e)
]

flush_all_lem :
    (fs : Fs)
    → IsSound fs
    → (j : ℕ) → (bslot (bc_flush_if (λ s. true) block_cache_size 0 fs) j).valid ≡ true
    → (bslot (bc_flush_if (λ s. true) block_cache_size 0 fs) j).dirty ≡ false
flush_all_lem fs v j h =
    let (w, _) = bc_flush_if-IsSound (λ s. true) block_cache_size 0 fs v in
    let lt = valid-lt [] (bc_flush_if (λ s. true) block_cache_size 0 fs).bcache j h in
    let c =
      bc_flush_if-clean block_cache_size 0 fs j (inr (omega arith, omega (arith, lt, w.slots))) in
    ground (arith, h, c)

-- Bc_flush_all keeps a sound block cache sound and what it shows, and makes the disk hold every
-- block as the cache shows it.
pub bc_flush_all-stored :
    (fs : Fs)
    → IsSound fs
    → IsSound (bc_flush_all fs)
      × ((k : ℕ)
          → k < fs.blocks.num_blocks
          → (shown (bc_flush_all fs) k ≡ shown fs k)
            × (stored (bc_flush_all fs).blocks k ≡ shown fs k))
unfolding bc_flush_all
bc_flush_all-stored fs v =
    let (v', s) = bc_flush_if-IsSound (λ _. true) block_cache_size 0 fs v in
    (
      v',
      λ k h. (
        s.same k h,
        saved_shown (bc_flush_if (λ _. true) block_cache_size 0 fs) k v' (flush_all_lem fs v)
            ∙ s.same k h,
      ),
    )

-- bc_flush_expired keeps the cache sound and its view.
pub bc_flush_expired-IsSound :
    (now : ℕ) (fs : Fs)
    → IsSound fs
    → IsSound (bc_flush_expired now fs) × SameView fs (bc_flush_expired now fs)
unfolding bc_flush_expired
bc_flush_expired-IsSound now fs = bc_flush_if-IsSound (expired now) block_cache_size 0 fs
