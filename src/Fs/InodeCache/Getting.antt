-- ===== src/Fs/InodeCache/Getting.antt =====
-- A pointer to an inode in the inode cache of snfs_server/fs.c.
use sthreads.Prelude.{
  ℕ, suc, ◌<◌, ◌≤◌, ◌≡◌, ◌≢◌, refl, sym, ap, ◌∙◌, subst, true, false, ◌&&◌, some, none, inl, inr,
  arith, length, length-set, Option-cases,
}
use native.Mathlib.Nat.{mod-eq_of_lt}
use sthreads.Cache.{Slot, find, holds, ulong_max, next_clock}
use sthreads.Cache.Coherence.{valid-lt, at-set_self, view_missing}
use sthreads.Cache.Evicting.{MayEvict, victim-MayEvict}
use sthreads.Cache.Finding.{find-holds, find-none}
use sthreads.Cache.Placing.{MayPlace}
use sthreads.Fs.State.{Fs, Inode, null_inode, no_inode}
use sthreads.Fs.InodeCache.{
  islot, tab_get, ic_victim, ic_flush, ic_flush_expired, ic_put, ic_fill, ic_get,
}
use sthreads.Fs.InodeCache.Transparency.{inode_shown, HasInodes}
use sthreads.Fs.InodeCache.Flushing.{
  SameInodes, SameInodes-trans, SameSlots, ic_placed, ic_placed-SameInodes, slot_shown,
  ic_flush-Same, ic_flush_expired-Same,
}

-- No stamp of the inode cache is ahead of the clock, which has a step to go.
pub record IsTimed (fs : Fs) : Type 0 where
  pub behind : (i : ℕ) → (islot fs i).lru ≤ fs.lru_clock
  pub room : suc fs.lru_clock < ulong_max

SameSlots-IsTimed : {fs gs : Fs} → SameSlots fs gs → IsTimed fs → IsTimed gs
SameSlots-IsTimed s t = record {
  behind = λ i. omega (arith, s.stamps i, s.clock, t.behind i);
  room = omega (arith, s.clock, t.room);
}

-- The slot `p` holds the inode `id`, as it was shown, and the clock has made its step.
pub record Got (id : ℕ) (fs fs' : Fs) (p : ℕ) : Type 0 where
  pub inodes : SameInodes fs fs'
  pub in_cache : p < length fs'.icache
  pub is_valid : (islot fs' p).valid ≡ true
  pub is_key : (islot fs' p).key ≡ id
  pub is_shown : (islot fs' p).content ≡ inode_shown fs id
  pub clock : fs'.lru_clock ≡ suc fs.lru_clock

put_is :
    (fs : Fs) (i : ℕ) (s : Slot Inode)
    → ic_put fs i s
      ≡ ic_placed fs fs.inode_tab i
          (record s { lru = next_clock fs.lru_clock })
          (next_clock fs.lru_clock)
unfolding ic_put ic_placed
put_is fs i s = refl

-- A slot for `id` that may be put in the place `i`.
put-Got :
    (id i : ℕ) (s : Slot Inode) (fs : Fs)
    → HasInodes fs
    → suc fs.lru_clock < ulong_max
    → MayPlace null_inode 64
        (tab_get fs)
        (tab_get fs)
        fs.icache
        i
        (record s { lru = next_clock fs.lru_clock })
    → s.key ≡ id
    → s.content ≡ inode_shown fs id
    → Got id fs (ic_put fs i s) i
unfolding ic_put
put-Got id i s fs v room m e c =
    let t : ℕ = next_clock fs.lru_clock in
    let s' : Slot Inode = record s { lru = t } in
    let q : next_clock fs.lru_clock ≡ suc fs.lru_clock =
      mod-eq_of_lt (omega (arith, room)) ∙ omega arith in
    let a =
      ic_placed-SameInodes fs fs.inode_tab i s' t v v.table m (c ∙ ap (inode_shown fs) (sym e)) in
    let here : islot (ic_put fs i s) i ≡ s' = at-set_self null_inode fs.icache i s' m.in_array in
    record {
      inodes = subst (SameInodes fs) (sym (put_is fs i s)) a;
      in_cache = omega (arith, m.in_array, length-set fs.icache i s');
      is_valid = ap (λ s. s.valid) here ∙ m.is_valid;
      is_key = ap (λ s. s.key) here ∙ e;
      is_shown = ap (λ s. s.content) here ∙ c;
      clock = q;
    }

Got-after :
    {id : ℕ} {fs gs hs : Fs} {p : ℕ}
    → id < 64
    → SameInodes fs gs
    → SameSlots fs gs
    → Got id gs hs p
    → Got id fs hs p
Got-after {id} h a b g = record {
  inodes = SameInodes-trans a g.inodes;
  in_cache = g.in_cache;
  is_valid = g.is_valid;
  is_key = g.is_key;
  is_shown = g.is_shown ∙ a.same id h;
  clock = g.clock ∙ ap suc b.clock;
}

get_hit :
    (id i : ℕ) (fs : Fs)
    → HasInodes fs
    → IsTimed fs
    → (islot fs i).valid ≡ true
    → (islot fs i).key ≡ id
    → Got id fs (ic_put fs i (islot fs i)) i
get_hit id i fs v t h e =
    put-Got id i (islot fs i) fs v t.room
      (record {
        in_array = valid-lt null_inode fs.icache i h;
        is_valid = h;
        key_in = v.coherent.inside i h;
        alone = λ j ne hj ej. ne (v.coherent.distinct j i hj h ej);
        fresh = v.coherent.saved i h;
        kept = λ _ _ _. refl;
        unsaved = λ _ ne. absurd (ne refl);
      })
      e (slot_shown fs i v h ∙ ap (inode_shown fs) e)

get_miss :
    (id i : ℕ) (fs : Fs)
    → HasInodes fs
    → IsTimed fs
    → id < 64
    → i < length fs.icache
    → ((islot fs i).valid && (islot fs i).dirty) ≡ false
    → ((j : ℕ) → (islot fs j).valid ≡ true → (islot fs j).key ≢ id)
    → Got id fs (ic_fill id i fs) i
unfolding ic_fill inode_shown
get_miss id i fs v t lt h c m =
    put-Got id i
      (record (islot fs i) { valid = true; dirty = false; key = id; content = tab_get fs id }) fs v
      t.room
      (record {
        in_array = h;
        is_valid = refl;
        key_in = lt;
        alone = λ j _ hj. m j hj;
        fresh = λ _. refl;
        kept = λ _ _ _. refl;
        unsaved = λ hi _. v.coherent.saved i hi (ground (arith, c, hi));
      })
      refl (sym (view_missing null_inode (tab_get fs) fs.icache id m))

ic_get_hit :
    (now id i : ℕ) (fs : Fs)
    → find (holds id) (ic_flush_expired now fs).icache ≡ some i
    → ic_get now id fs
      ≡ some (ic_put (ic_flush_expired now fs) i (islot (ic_flush_expired now fs) i), i)
unfolding ic_get
ic_get_hit now id i fs e = rw (e, ic_get) refl

ic_get_miss :
    (now id i : ℕ) (fs : Fs)
    → find (holds id) (ic_flush_expired now fs).icache ≡ none
    → ic_victim (ic_flush_expired now fs) ≡ some i
    → ic_get now id fs ≡ some (ic_fill id i (ic_flush (ic_flush_expired now fs) i), i)
unfolding ic_get
ic_get_miss now id i fs e e' = rw (e, e', ic_get) refl

-- The victim in a cache that does not hold `id`.
victim_is :
    (id : ℕ) (fs : Fs)
    → HasInodes fs
    → IsTimed fs
    → (i : ℕ) × (ic_victim fs ≡ some i) × (i < length fs.icache)
unfolding ic_victim MayEvict
victim_is id fs v t =
    let (i, h, (lt, _)) =
      victim-MayEvict fs.icache no_inode (omega (arith, v.slots))
        (λ x. omega (arith, t.behind x, t.room)) in
    (i, h, lt)

-- On a coherent inode cache whose stamps are not ahead of the clock, which has a step to go,
-- ic_get of a number of the table returns a slot that is in use for that number and holds its
-- inode as it was shown, keeps the cache coherent and all inodes that are shown, writes back what
-- it evicts, moves the clock by one, and leaves the disk, the block cache, the bitmaps and the
-- directory cache.
pub ic_get-Got :
    (now id : ℕ) (fs : Fs)
    → HasInodes fs
    → IsTimed fs
    → id < 64
    → (fs' : Fs) × (p : ℕ) × (ic_get now id fs ≡ some (fs', p)) × Got id fs fs' p
ic_get-Got now id fs v t lt =
    let gs = ic_flush_expired now fs in
    let (a, b) = ic_flush_expired-Same now fs v in
    let t' = SameSlots-IsTimed b t in
    elim (Option-cases (find (holds id) gs.icache)) [
      | inr (i, e) ↦
          let (ok, key) = find-holds no_inode id i gs.icache e in
          (
            ic_put gs i (islot gs i),
            i,
            ic_get_hit now id i fs e,
            Got-after lt a b (get_hit id i gs a.has t' ok key),
          )
      | inl e ↦
          let (i, e', h) = victim_is id gs a.has t' in
          let (a', b', c) = ic_flush-Same gs i a.has in
          let absent : (j : ℕ)
              → (islot (ic_flush gs i) j).valid ≡ true
              → (islot (ic_flush gs i) j).key ≢ id =
            λ j hj ej.
              let ok : (islot gs j).valid ≡ true = sym (b'.valids j) ∙ hj in
              absurd (
                ground (
                  arith,
                  find-none no_inode (holds id) j gs.icache e (valid-lt null_inode gs.icache j ok),
                  ok,
                  b'.keys j,
                  ej,
                )) in
          (
            ic_fill id i (ic_flush gs i),
            i,
            ic_get_miss now id i fs e e',
            Got-after lt a b (
                Got-after lt a' b' (
                  get_miss id i (ic_flush gs i) a'.has (SameSlots-IsTimed b' t') lt
                    (omega (arith, h, a.has.slots, a'.has.slots)) c absent)),
          )
    ]
