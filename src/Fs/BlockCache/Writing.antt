-- ===== src/Fs/BlockCache/Writing.antt =====
-- A write through the block cache of snfs_server/fs.c.
use sthreads.Prelude.{
  ℕ, suc, ◌<◌, ◌≡◌, ◌≢◌, refl, sym, true, false, ◌&&◌, none, some, inl, inr, arith, length, ◌∙◌,
  subst, Option-cases, if◌then◌else◌,
}
use sthreads.Block.{Bytes}
use sthreads.Cache.{Slot, find, holds, next_clock}
use sthreads.Cache.Finding.{find-holds}
use sthreads.Fs.State.{Fs, no_block}
use sthreads.Fs.BlockCache.{
  bslot, bc_victim, bc_flush, bc_flush_expired, bc_put, bc_overwrite, bc_replace, bc_write,
}
use sthreads.Fs.BlockCache.Transparency.{IsSound, SameView-trans, Shows, Shows-after}
use sthreads.Fs.BlockCache.Flushing.{bc_flush-IsSound, bc_flush-clean, bc_flush_expired-IsSound}
use sthreads.Fs.BlockCache.Untouched.{bc_flush-Untouched, bc_flush_expired-Untouched}
use sthreads.Fs.BlockCache.Transfers.{
  IsStamped, Untouched-IsStamped, hit-MayPlace, victim-MayPlace, bc_put-IsStamped, bc_put-Shows,
  evicted,
}

write_hit :
    (now k i n : ℕ) (b : Bytes) (fs : Fs)
    → IsSound fs
    → IsStamped fs (suc n)
    → (bslot fs i).valid ≡ true
    → (bslot fs i).key ≡ k
    → length b ≡ fs.blocks.block_size
    → Shows fs k b (bc_overwrite now i b fs) × IsStamped (bc_overwrite now i b fs) n
unfolding bc_overwrite
write_hit now k i n b fs v t h e l =
    let s : Slot Bytes = record (bslot fs i) {
      dirty = true;
      dirty_time = if (bslot fs i).dirty then (bslot fs i).dirty_time else now;
      content = b;
    } in
    let m =
      hit-MayPlace fs v i (record s { lru = next_clock fs.lru_clock }) h h refl
        (λ q. absurd (ground (arith, q))) in
    (
      subst (λ k. Shows fs k b (bc_put fs i s)) e (bc_put-Shows fs v i s m l),
      bc_put-IsStamped fs i n s m.in_array t,
    )

write_miss :
    (now k i n : ℕ) (b : Bytes) (fs : Fs)
    → IsSound fs
    → IsStamped fs (suc n)
    → k < fs.blocks.num_blocks
    → i < length fs.bcache
    → ((bslot fs i).valid && (bslot fs i).dirty) ≡ false
    → ((j : ℕ) → (bslot fs j).valid ≡ true → (bslot fs j).key ≢ k)
    → length b ≡ fs.blocks.block_size
    → Shows fs k b (bc_replace now k b i fs) × IsStamped (bc_replace now k b i fs) n
unfolding bc_replace
write_miss now k i n b fs v t hk lt c m l =
    let s : Slot Bytes = record (bslot fs i) {
      valid = true;
      dirty = true;
      dirty_time = now;
      key = k;
      content = b;
    } in
    let p =
      victim-MayPlace fs v i (record s { lru = next_clock fs.lru_clock }) lt c m refl hk
        (λ q. absurd (ground (arith, q))) in
    (bc_put-Shows fs v i s p l, bc_put-IsStamped fs i n s lt t)

pub bc_write_hit :
    (now k i : ℕ) (b : Bytes) (fs : Fs)
    → find (holds k) (bc_flush_expired now fs).bcache ≡ some i
    → bc_write now k b fs ≡ some (bc_overwrite now i b (bc_flush_expired now fs))
unfolding bc_write
bc_write_hit now k i b fs e = rw (e, bc_write)

pub bc_write_miss :
    (now k i : ℕ) (b : Bytes) (fs : Fs)
    → find (holds k) (bc_flush_expired now fs).bcache ≡ none
    → bc_victim (bc_flush_expired now fs) ≡ some i
    → bc_write now k b fs ≡ some (bc_replace now k b i (bc_flush (bc_flush_expired now fs) i))
unfolding bc_write
bc_write_miss now k i b fs e e' = rw (e, e', bc_write)

-- On a sound block cache whose clock has a step to go, bc_write of a whole block returns, makes
-- the cache show the block at its number and nothing else anew, and keeps it sound.
pub bc_write-Shows :
    (now k n : ℕ) (b : Bytes) (fs : Fs)
    → IsSound fs
    → IsStamped fs (suc n)
    → k < fs.blocks.num_blocks
    → length b ≡ fs.blocks.block_size
    → (fs' : Fs) × (bc_write now k b fs ≡ some fs') × Shows fs k b fs' × IsStamped fs' n
bc_write-Shows now k n b fs v t h l =
    let gs = bc_flush_expired now fs in
    let (v', same) = bc_flush_expired-IsSound now fs v in
    let t' = Untouched-IsStamped (bc_flush_expired-Untouched now fs) t in
    elim (Option-cases (find (holds k) gs.bcache)) [
      | inr (i, e) ↦
          let (ok, key) = find-holds no_block k i gs.bcache e in
          let (w, s) = write_hit now k i n b gs v' t' ok key (l ∙ sym same.size_same) in
          (bc_overwrite now i b gs, bc_write_hit now k i b fs e, Shows-after same w, s)
      | inl e ↦
          let (i, e', lt, m) = evicted k gs v' e t' in
          let (v'', same') = bc_flush-IsSound gs i v' in
          let (w, s) =
            write_miss now k i n b (bc_flush gs i) v''
              (Untouched-IsStamped (bc_flush-Untouched gs i) t')
              (omega (arith, h, same.blocks_same, same'.blocks_same)) lt (bc_flush-clean gs i) m
              (l ∙ sym (same'.size_same ∙ same.size_same)) in
          (
            bc_replace now k b i (bc_flush gs i),
            bc_write_miss now k i b fs e e',
            Shows-after (SameView-trans same same') w,
            s,
          )
    ]
