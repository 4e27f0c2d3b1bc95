-- ===== src/Fs/InodeCache/Transparency.antt =====
-- The inode cache of snfs_server/fs.c: a change of an inode through its pointer, which ic_dirty
-- makes good.
use sthreads.Prelude.{
  ℕ, ◌<◌, ◌≡◌, ◌≢◌, refl, sym, ap, ◌∙◌, subst, true, some, List, inl, inr, arith, length, set,
  length-set, set-set, get_or-set_self, get_or-set_ne, if◌then◌else◌, Option-cases,
}
use native.Mathlib.Decide.{ℕ_discrete}
use sthreads.Cache.{Slot, find, holds}
use sthreads.Cache.Coherence.{view, Coherent, valid-lt, at-set_self, at-set_ne}
use sthreads.Cache.Finding.{find-holds, find-none}
use sthreads.Cache.Placing.{MayPlace, place-Coherent, place-view_self, place-view_ne}
use sthreads.Fs.State.{Fs, Inode, null_inode, no_inode, inode_cache_size}
use sthreads.Fs.InodeCache.{islot, set_islot, tab_get, ic_mark, ic_dirty}

-- What the inode cache shows of the inode `id`.
unfoldable pub inode_shown : Fs → ℕ → Inode
inode_shown fs id = view null_inode (tab_get fs) fs.icache id

-- The table has 64 inodes, and the cache is coherent with it.
pub record HasInodes (fs : Fs) : Type 0 where
  pub table : length fs.inode_tab ≡ 64
  pub slots : length fs.icache ≡ inode_cache_size
  pub coherent : Coherent null_inode 64 (tab_get fs) fs.icache

-- `*p = x`, for the pointer to the slot `i`
unfoldable pub assign : Fs → ℕ → Inode → Fs
assign fs i x = set_islot fs i (record (islot fs i) { content = x })

module _ (now id i : ℕ) (x : Inode) (fs : Fs) (v : HasInodes fs) (h : (islot fs i).valid ≡ true)
    (e : (islot fs i).key ≡ id) where
  in_cache : i < length fs.icache
  in_cache = valid-lt null_inode fs.icache i h

  here : islot (assign fs i x) i ≡ record (islot fs i) { content = x }
  unfolding assign
  here = at-set_self null_inode fs.icache i (record (islot fs i) { content = x }) in_cache

  -- The slot that ic_dirty finds is the one that was changed.
  found : find (holds id) (assign fs i x).icache ≡ some i
  unfolding assign
  found = elim (Option-cases (find (holds id) (assign fs i x).icache)) [
    | inl o ↦ absurd (
        ground (
          arith,
          h,
          e,
          ap (λ s. s.valid) here,
          ap (λ s. s.key) here,
          find-none no_inode (holds id) i (assign fs i x).icache o (
              omega
                (arith, in_cache, length-set fs.icache i (record (islot fs i) { content = x }))),
        ))
    | inr (j, o) ↦
        let (ok, key) = find-holds no_inode id j (assign fs i x).icache o in
        elim (ℕ_discrete i j) [
          | yes i≡j ↦ o ∙ ap some (sym i≡j)
          | no ne ↦
              let there : islot (assign fs i x) j ≡ islot fs j =
                at-set_ne null_inode fs.icache i j (record (islot fs i) { content = x }) ne in
              absurd (
                ne (
                  v.coherent.distinct i j h (sym (ap (λ s. s.valid) there) ∙ ok)
                    (e ∙ sym key ∙ ap (λ s. s.key) there)))
        ]
  ]

  marked : Slot Inode
  marked = record (islot fs i) {
    dirty = true;
    dirty_time = if (islot fs i).dirty then (islot fs i).dirty_time else now;
    content = x;
  }

  result : Fs
  result = record fs { inode_tab = set fs.inode_tab id x; icache = set fs.icache i marked }

  remark : List (Slot Inode) → Slot Inode → Fs
  remark slots s = record fs {
    inode_tab = set fs.inode_tab id s.content;
    icache =
        set slots i (record s { dirty = true; dirty_time = if s.dirty then s.dirty_time else now });
  }

  ic_dirty-find : ic_dirty now id (assign fs i x) ≡ ic_mark now id i (assign fs i x)
  unfolding ic_dirty
  ic_dirty-find = rw (found, ic_dirty) refl

  ic_mark-assign : ic_mark now id i (assign fs i x) ≡ result
  unfolding ic_mark assign result marked remark
  ic_mark-assign =
      ap (remark (set fs.icache i (record (islot fs i) { content = x }))) here
      ∙ ap (λ c. record fs { inode_tab = set fs.inode_tab id x; icache = c })
          (set-set fs.icache i (record (islot fs i) { content = x }) marked)

  stored_self : id < 64 → tab_get result id ≡ x
  unfolding result
  stored_self l = get_or-set_self fs.inode_tab id x null_inode (omega (arith, l, v.table))

  result-MayPlace :
      id < 64 → MayPlace null_inode 64 (tab_get fs) (tab_get result) fs.icache i marked
  unfolding result marked
  result-MayPlace l = record {
    in_array = in_cache;
    is_valid = h;
    key_in = v.coherent.inside i h;
    alone = λ j ne hj ej. ne (v.coherent.distinct j i hj h ej);
    fresh = λ q. absurd (cc q);
    kept = λ c _ ne. get_or-set_ne fs.inode_tab id c x null_inode (λ q. ne (sym q ∙ sym e));
    unsaved = λ _ ne. absurd (ne refl);
  }

  id_in : id < 64
  id_in = subst (λ k. k < 64) e (v.coherent.inside i h)

  shown :
      HasInodes result
      × (inode_shown result id ≡ x)
      × (tab_get result id ≡ x)
      × ((k : ℕ) → k < 64 → k ≢ id → inode_shown result k ≡ inode_shown fs k)
  unfolding inode_shown result marked
  shown =
      let m = result-MayPlace id_in in
      (
        record {
          table = length-set fs.inode_tab id x ∙ v.table;
          slots = length-set fs.icache i marked ∙ v.slots;
          coherent = place-Coherent null_inode fs.icache i marked v.coherent m;
        },
        ap (inode_shown result) (sym e)
            ∙ place-view_self null_inode fs.icache i marked v.coherent m,
        stored_self id_in,
        λ k hk ne. place-view_ne null_inode fs.icache i marked v.coherent m k hk (λ q. ne (q ∙ e)),
      )

  -- If the slot of an inode is in use, in a coherent cache before a table of 64 inodes, and its
  -- inode is changed through the pointer to the slot, ic_dirty makes the cache show the new
  -- inode and no other anew, puts it in the table, and keeps the cache coherent.
  pub ic_dirty-assign :
      HasInodes (ic_dirty now id (assign fs i x))
      × (inode_shown (ic_dirty now id (assign fs i x)) id ≡ x)
      × (tab_get (ic_dirty now id (assign fs i x)) id ≡ x)
      × ((k : ℕ)
          → k < 64
          → k ≢ id
          → inode_shown (ic_dirty now id (assign fs i x)) k ≡ inode_shown fs k)
  ic_dirty-assign =
      subst
        (λ u.
          HasInodes u
          × (inode_shown u id ≡ x)
          × (tab_get u id ≡ x)
          × ((k : ℕ) → k < 64 → k ≢ id → inode_shown u k ≡ inode_shown fs k))
        (sym (ic_dirty-find ∙ ic_mark-assign)) shown
