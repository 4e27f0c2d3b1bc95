-- ===== src/Fs/BlockCache/Reading.antt =====
-- A read through the block cache of snfs_server/fs.c.
use sthreads.Prelude.{
  ℕ, suc, ◌<◌, ◌≡◌, ◌≢◌, refl, sym, true, false, ◌&&◌, none, some, inl, inr, arith, length, ap, ◌∙◌,
  Option-cases,
}
use sthreads.Block.{Bytes}
use sthreads.Block.Access.{block_read-length}
use sthreads.Cache.{Slot, find, holds, next_clock}
use sthreads.Cache.Finding.{find-holds}
use sthreads.Fs.State.{Fs, no_block}
use sthreads.Fs.BlockCache.{
  bslot, bc_victim, disk_read, bc_flush, bc_flush_expired, bc_put, bc_fill, bc_read,
}
use sthreads.Fs.BlockCache.Transparency.{
  stored, shown, IsSound, SameView, SameView-trans, Shows-SameView, shown_held, shown_missing,
}
use sthreads.Fs.BlockCache.Flushing.{bc_flush-IsSound, bc_flush-clean, bc_flush_expired-IsSound}
use sthreads.Fs.BlockCache.Untouched.{bc_flush-Untouched, bc_flush_expired-Untouched}
use sthreads.Fs.BlockCache.Transfers.{
  IsStamped, Untouched-IsStamped, hit-MayPlace, victim-MayPlace, bc_put-IsStamped, bc_put-Shows,
  evicted,
}

read_hit :
    (k i n : ℕ) (fs : Fs)
    → IsSound fs
    → IsStamped fs (suc n)
    → (bslot fs i).valid ≡ true
    → (bslot fs i).key ≡ k
    → IsSound (bc_put fs i (bslot fs i))
      × SameView fs (bc_put fs i (bslot fs i))
      × IsStamped (bc_put fs i (bslot fs i)) n
      × ((bslot fs i).content ≡ shown fs k)
read_hit k i n fs v t h e =
    let m =
      hit-MayPlace fs v i (record (bslot fs i) { lru = next_clock fs.lru_clock }) h h refl
        (v.coherent.saved i h) in
    let w = bc_put-Shows fs v i (bslot fs i) m (v.sized i h) in
    (
      w.sound,
      Shows-SameView w (shown_held fs i (bslot fs i).key v h refl),
      bc_put-IsStamped fs i n (bslot fs i) m.in_array t,
      sym (shown_held fs i k v h e),
    )

disk_read-stored :
    (fs : Fs) (k : ℕ) (old : Bytes)
    → IsSound fs
    → k < fs.blocks.num_blocks
    → (disk_read fs k old ≡ stored fs.blocks k)
      × (length (stored fs.blocks k) ≡ fs.blocks.block_size)
unfolding disk_read stored
disk_read-stored fs k old v h =
    let (b, e, l) = block_read-length v.whole k h in rw (e, disk_read, stored) (refl, l)

read_miss :
    (k i n : ℕ) (fs : Fs)
    → IsSound fs
    → IsStamped fs (suc n)
    → k < fs.blocks.num_blocks
    → i < length fs.bcache
    → ((bslot fs i).valid && (bslot fs i).dirty) ≡ false
    → ((j : ℕ) → (bslot fs j).valid ≡ true → (bslot fs j).key ≢ k)
    → let (fs', b) = bc_fill k i fs in
      IsSound fs' × SameView fs fs' × IsStamped fs' n × (b ≡ shown fs k)
unfolding bc_fill
read_miss k i n fs v t hk lt c m =
    let b : Bytes = disk_read fs k (bslot fs i).content in
    let s : Slot Bytes = record (bslot fs i) {
      valid = true;
      dirty = false;
      key = k;
      content = b;
    } in
    let (e, l) = disk_read-stored fs k (bslot fs i).content v hk in
    let p =
      victim-MayPlace fs v i (record s { lru = next_clock fs.lru_clock }) lt c m refl hk (λ _. e) in
    let w = bc_put-Shows fs v i s p (ap length e ∙ l) in
    let held : b ≡ shown fs k = e ∙ sym (shown_missing fs k m) in
    (w.sound, Shows-SameView w (sym held), bc_put-IsStamped fs i n s lt t, held)

pub bc_read_hit :
    (now k i : ℕ) (fs : Fs)
    → find (holds k) (bc_flush_expired now fs).bcache ≡ some i
    → bc_read now k fs
      ≡ some (
        bc_put (bc_flush_expired now fs) i (bslot (bc_flush_expired now fs) i),
        (bslot (bc_flush_expired now fs) i).content,
      )
unfolding bc_read
bc_read_hit now k i fs e = rw (e, bc_read)

pub bc_read_miss :
    (now k i : ℕ) (fs : Fs)
    → find (holds k) (bc_flush_expired now fs).bcache ≡ none
    → bc_victim (bc_flush_expired now fs) ≡ some i
    → bc_read now k fs ≡ some (bc_fill k i (bc_flush (bc_flush_expired now fs) i))
unfolding bc_read
bc_read_miss now k i fs e e' = rw (e, e', bc_read)

-- On a sound block cache whose clock has a step to go, bc_read returns, gives the block that the
-- cache shows, and keeps the cache sound and all that it shows.
pub bc_read-shown :
    (now k n : ℕ) (fs : Fs)
    → IsSound fs
    → IsStamped fs (suc n)
    → k < fs.blocks.num_blocks
    → (fs' : Fs) × (bc_read now k fs ≡ some (fs', shown fs k))
      × IsSound fs'
      × SameView fs fs'
      × IsStamped fs' n
bc_read-shown now k n fs v t h =
    let gs = bc_flush_expired now fs in
    let (v', same) = bc_flush_expired-IsSound now fs v in
    let t' = Untouched-IsStamped (bc_flush_expired-Untouched now fs) t in
    elim (Option-cases (find (holds k) gs.bcache)) [
      | inr (i, e) ↦
          let (ok, key) = find-holds no_block k i gs.bcache e in
          let (a, b, c, d) = read_hit k i n gs v' t' ok key in
          (
            bc_put gs i (bslot gs i),
            bc_read_hit now k i fs e
                ∙ ap (λ b. some (bc_put gs i (bslot gs i), b)) (d ∙ same.same k h),
            a,
            SameView-trans same b,
            c,
          )
      | inl e ↦
          let (i, e', lt, m) = evicted k gs v' e t' in
          let (v'', same') = bc_flush-IsSound gs i v' in
          let (a, b, c, d) =
            read_miss k i n (bc_flush gs i) v'' (Untouched-IsStamped (bc_flush-Untouched gs i) t')
              (omega (arith, h, same.blocks_same, same'.blocks_same)) lt (bc_flush-clean gs i) m in
          let view : shown (bc_flush gs i) k ≡ shown fs k =
            same'.same k (omega (arith, h, same.blocks_same)) ∙ same.same k h in
          (
            (bc_fill k i (bc_flush gs i)).0,
            bc_read_miss now k i fs e e'
                ∙ ap (λ b. some ((bc_fill k i (bc_flush gs i)).0, b)) (d ∙ view),
            a,
            SameView-trans same (SameView-trans same' b),
            c,
          )
    ]
