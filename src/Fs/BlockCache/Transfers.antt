-- ===== src/Fs/BlockCache/Transfers.antt =====
-- Reads and writes through the block cache of snfs_server/fs.c.
use sthreads.Prelude.{
  ℕ, suc, ◌+◌, ◌<◌, ◌≤◌, ◌≡◌, ◌≢◌, refl, sym, true, false, ◌&&◌, none, some, [], arith, length, set,
  ◌∙◌, subst,
}
use native.Mathlib.Decide.{ℕ_discrete}
use native.Mathlib.Nat.{mod-eq_of_lt}
use sthreads.Block.{Bytes}
use sthreads.Cache.{Slot, find, holds, ulong_max, next_clock}
use sthreads.Cache.Coherence.{at, valid-lt, at-set_self, at-set_ne}
use sthreads.Cache.Evicting.{victim-MayEvict, MayEvict}
use sthreads.Cache.Finding.{find-none}
use sthreads.Cache.Placing.{MayPlace}
use sthreads.Fs.State.{Fs, no_block}
use sthreads.Fs.BlockCache.{bslot, bc_victim, bc_flush, bc_put}
use sthreads.Fs.BlockCache.Transparency.{stored, IsSound, Shows, placed, placed-Shows}
use sthreads.Fs.BlockCache.Flushing.{bc_flush-IsSound}
use sthreads.Fs.BlockCache.Untouched.{Untouched, bc_flush-Untouched}

-- No stamp is ahead of the clock, and the clock has `n` steps to go before its greatest number.
pub record IsStamped (fs : Fs) (n : ℕ) : Type 0 where
  pub behind : (i : ℕ) → (bslot fs i).lru ≤ fs.lru_clock
  pub room : fs.lru_clock + n < ulong_max

pub Untouched-IsStamped :
    {fs fs' : Fs} {n : ℕ} → Untouched fs fs' → IsStamped fs n → IsStamped fs' n
Untouched-IsStamped u s = record {
  behind = λ i. omega (arith, u.stamps i, u.clock, s.behind i);
  room = omega (arith, u.clock, s.room);
}

pub hit-MayPlace :
    (fs : Fs) (v : IsSound fs) (i : ℕ) (s : Slot Bytes)
    → (bslot fs i).valid ≡ true
    → s.valid ≡ true
    → s.key ≡ (bslot fs i).key
    → (s.dirty ≡ false → s.content ≡ stored fs.blocks s.key)
    → MayPlace [] fs.blocks.num_blocks (stored fs.blocks) (stored fs.blocks) fs.bcache i s
hit-MayPlace fs v i s h ok e f = record {
  in_array = valid-lt [] fs.bcache i h;
  is_valid = ok;
  key_in = subst (λ k. k < fs.blocks.num_blocks) (sym e) (v.coherent.inside i h);
  alone = λ j ne hj ej. ne (v.coherent.distinct j i hj h (ej ∙ e));
  fresh = f;
  kept = λ _ _ _. refl;
  unsaved = λ _ ne. absurd (ne (sym e));
}

pub victim-MayPlace :
    (fs : Fs) (v : IsSound fs) (i : ℕ) (s : Slot Bytes)
    → i < length fs.bcache
    → ((bslot fs i).valid && (bslot fs i).dirty) ≡ false
    → ((j : ℕ) → (bslot fs j).valid ≡ true → (bslot fs j).key ≢ s.key)
    → s.valid ≡ true
    → s.key < fs.blocks.num_blocks
    → (s.dirty ≡ false → s.content ≡ stored fs.blocks s.key)
    → MayPlace [] fs.blocks.num_blocks (stored fs.blocks) (stored fs.blocks) fs.bcache i s
victim-MayPlace fs v i s h c m ok k f = record {
  in_array = h;
  is_valid = ok;
  key_in = k;
  alone = λ j _ hj. m j hj;
  fresh = f;
  kept = λ _ _ _. refl;
  unsaved = λ hi _. v.coherent.saved i hi (ground (arith, c, hi));
}

pub bc_put-IsStamped :
    (fs : Fs) (i n : ℕ) (s : Slot Bytes)
    → i < length fs.bcache
    → IsStamped fs (suc n)
    → IsStamped (bc_put fs i s) n
unfolding bc_put
bc_put-IsStamped fs i n s h t =
    let c : next_clock fs.lru_clock ≡ suc fs.lru_clock =
      mod-eq_of_lt (omega (arith, t.room)) ∙ omega arith in
    record {
      behind = λ j. elim (ℕ_discrete i j) [
        | yes e ↦
            subst
              (λ j.
                (at [] (set fs.bcache i (record s { lru = next_clock fs.lru_clock })) j).lru
                ≤ next_clock fs.lru_clock)
              e
              (rw (at-set_self [] fs.bcache i (record s { lru = next_clock fs.lru_clock }) h)
                (omega arith))
        | no ne ↦
            rw (at-set_ne [] fs.bcache i j (record s { lru = next_clock fs.lru_clock }) ne)
              (omega (arith, t.behind j, c))
      ];
      room = omega (arith, t.room, c);
    }

pub bc_put-Shows :
    (fs : Fs) (v : IsSound fs) (i : ℕ) (s : Slot Bytes)
    → MayPlace [] fs.blocks.num_blocks
        (stored fs.blocks)
        (stored fs.blocks)
        fs.bcache
        i
        (record s { lru = next_clock fs.lru_clock })
    → length s.content ≡ fs.blocks.block_size
    → Shows fs s.key s.content (bc_put fs i s)
unfolding bc_put placed
bc_put-Shows fs v i s m l =
    placed-Shows fs v fs.blocks i (record s { lru = next_clock fs.lru_clock })
      (next_clock fs.lru_clock) v.whole refl refl m l

-- The victim's slot after its write-back.
pub evicted :
    (k : ℕ) (fs : Fs) (v : IsSound fs)
    → find (holds k) fs.bcache ≡ none
    → {n : ℕ} → IsStamped fs n
    → (i : ℕ) × (bc_victim fs ≡ some i)
      × (i < length (bc_flush fs i).bcache)
      × ((j : ℕ) → (bslot (bc_flush fs i) j).valid ≡ true → (bslot (bc_flush fs i) j).key ≢ k)
unfolding bc_victim MayEvict
evicted k fs v e t =
    let (i, h, (lt, _)) =
      victim-MayEvict fs.bcache no_block (omega (arith, v.slots))
        (λ x. omega (arith, t.behind x, t.room)) in
    let (v', _) = bc_flush-IsSound fs i v in
    (
      i,
      h,
      omega (arith, v.slots, v'.slots),
      λ j hj ej.
          let u = bc_flush-Untouched fs i in
          let ok : (bslot fs j).valid ≡ true = sym (u.valids j) ∙ hj in
          absurd (
            ground (
              arith,
              find-none no_block (holds k) j fs.bcache e (valid-lt [] fs.bcache j ok),
              ok,
              u.keys j,
              ej,
            )),
    )
