-- ===== src/Fs/InodeCache/Saving.antt =====
-- After ic_flush_all of snfs_server/fs.c the table holds the inodes that the cache shows.
use sthreads.Prelude.{
  ℕ, zero, suc, ◌+◌, ◌<◌, ◌≤◌, ◌≡◌, ◌≢◌, ◌⊎◌, inl, inr, refl, sym, ap, ◌∙◌, subst, true, false,
  ◌&&◌, arith, get_or-set_ne, Bool-cases,
}
use native.Mathlib.Decide.{ℕ_discrete}
use sthreads.Cache.Coherence.{valid-lt, view_missing, held_cases}
use sthreads.Fs.State.{Fs, null_inode, no_inode, inode_cache_size}
use sthreads.Fs.InodeCache.{islot, tab_get, ic_flush, ic_flush_if, ic_flush_all}
use sthreads.Fs.InodeCache.Transparency.{inode_shown, HasInodes}
use sthreads.Fs.InodeCache.Flushing.{
  SameInodes, SameSlots, slot_shown, ic_flush-Same, ic_flush_if-Same,
}

ic_flush-other : (fs : Fs) (i j : ℕ) → i ≢ j → islot (ic_flush fs i) j ≡ islot fs j
unfolding ic_flush
ic_flush-other fs i j ne = elim (Bool-cases ((islot fs i).valid && (islot fs i).dirty)) [
  | inr e ↦ rw (e, ic_flush) refl
  | inl e ↦ rw (e, ic_flush) (get_or-set_ne fs.icache i j _ no_inode ne)
]

-- The loop over all slots leaves nothing unsaved in those that it visits.
ic_flush_if-clean :
    (n i : ℕ) (fs : Fs) (j : ℕ)
    → HasInodes fs
    → (((islot fs j).valid && (islot fs j).dirty) ≡ false) ⊎ ((i ≤ j) × (j < i + n))
    → ((islot (ic_flush_if (λ s. true) n i fs) j).valid
        && (islot (ic_flush_if (λ s. true) n i fs) j).dirty)
      ≡ false
unfolding ic_flush_if
ic_flush_if-clean zero i fs j v (inl h) = h
ic_flush_if-clean zero i fs j v (inr (h, h')) = absurd (omega arith)
ic_flush_if-clean (suc n) i fs j v h =
    let (a, b, c) = ic_flush-Same fs i v in
    ic_flush_if-clean n (suc i) (ic_flush fs i) j a.has (elim (ℕ_discrete i j) [
      | yes e ↦ inl (
          subst (λ j. ((islot (ic_flush fs i) j).valid && (islot (ic_flush fs i) j).dirty) ≡ false)
            e c)
      | no ne ↦ elim h [
        | inl q ↦ inl (ap (λ s. s.valid && s.dirty) (ic_flush-other fs i j ne) ∙ q)
        | inr (x, y) ↦ inr (omega arith, omega arith)
      ]
    ])

saved_in_table :
    (fs : Fs) (k : ℕ)
    → HasInodes fs
    → ((j : ℕ) → (islot fs j).valid ≡ true → (islot fs j).dirty ≡ false)
    → tab_get fs k ≡ inode_shown fs k
unfolding inode_shown
saved_in_table fs k v c = elim (held_cases null_inode fs.icache k) [
  | inr m ↦ sym (view_missing null_inode (tab_get fs) fs.icache k m)
  | inl (j, ok, e) ↦
      ap (tab_get fs) (sym e)
      ∙ sym (v.coherent.saved j ok (c j ok))
      ∙ slot_shown fs j v ok
      ∙ ap (inode_shown fs) e
]

-- ic_flush_all keeps the inodes that are shown, and puts them in the table.
pub ic_flush_all-saved :
    (fs : Fs)
    → HasInodes fs
    → SameInodes fs (ic_flush_all fs)
      × SameSlots fs (ic_flush_all fs)
      × ((k : ℕ) → k < 64 → tab_get (ic_flush_all fs) k ≡ inode_shown fs k)
unfolding ic_flush_all
ic_flush_all-saved fs v =
    let (a, b) = ic_flush_if-Same (λ s. true) inode_cache_size 0 fs v in
    (
      a,
      b,
      λ k h.
          saved_in_table (ic_flush_if (λ s. true) inode_cache_size 0 fs) k a.has (λ j ok.
            let lt =
              valid-lt null_inode (ic_flush_if (λ s. true) inode_cache_size 0 fs).icache j ok in
            ground (
              arith,
              ok,
              ic_flush_if-clean inode_cache_size 0 fs j v
                  (inr (omega arith, omega (arith, lt, a.has.slots))),
            ))
          ∙ a.same k h,
    )
