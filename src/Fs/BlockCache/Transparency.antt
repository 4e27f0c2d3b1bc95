-- ===== src/Fs/BlockCache/Transparency.antt =====
-- The block cache of snfs_server/fs.c is transparent: what it shows of the disk changes by writes
-- alone.
use sthreads.Prelude.{
  ℕ, ◌<◌, ◌≡◌, ◌≢◌, refl, sym, true, none, some, [], arith, length, set, length-set, ap, ◌∙◌, subst,
}
use native.Mathlib.Decide.{ℕ_discrete}
use sthreads.Block.{Bytes, Blocks, block_read}
use sthreads.Block.Access.{IsWhole}
use sthreads.Cache.{Slot}
use sthreads.Cache.Coherence.{at, at-set_self, at-set_ne, view, Coherent, view_held, view_missing}
use sthreads.Cache.Placing.{MayPlace, place-Coherent, place-view_self, place-view_ne}
use sthreads.Fs.State.{Fs, block_cache_size}
use sthreads.Fs.BlockCache.{bslot}

-- the disk as the store behind the cache
unfoldable pub stored : Blocks → ℕ → Bytes
stored d k = elim (block_read d k) [ none ↦ [] | some b ↦ b ]

-- What the block cache shows of the block `k`.
unfoldable pub shown : Fs → ℕ → Bytes
shown fs k = view [] (stored fs.blocks) fs.bcache k

-- The disk is whole, the cache is coherent with it, and the slots hold whole blocks.
pub record IsSound (fs : Fs) : Type 0 where
  pub whole : IsWhole fs.blocks
  pub coherent : Coherent [] fs.blocks.num_blocks (stored fs.blocks) fs.bcache
  pub slots : length fs.bcache ≡ block_cache_size
  pub sized :
      (i : ℕ) → (bslot fs i).valid ≡ true → length (bslot fs i).content ≡ fs.blocks.block_size

-- The blocks that `fs'` shows are those of `fs`.
pub record SameView (fs fs' : Fs) : Type 0 where
  pub same : (k : ℕ) → k < fs.blocks.num_blocks → shown fs' k ≡ shown fs k
  pub blocks_same : fs'.blocks.num_blocks ≡ fs.blocks.num_blocks
  pub size_same : fs'.blocks.block_size ≡ fs.blocks.block_size

pub SameView-refl : (fs : Fs) → SameView fs fs
SameView-refl fs = record { same = λ k h. refl; blocks_same = refl; size_same = refl }

pub SameView-trans : {fs gs hs : Fs} → SameView fs gs → SameView gs hs → SameView fs hs
SameView-trans v w = record {
  same = λ k h. w.same k (omega arith) ∙ v.same k h;
  blocks_same = omega arith;
  size_same = omega arith;
}

pub stored-some : (d : Blocks) (k : ℕ) (b : Bytes) → block_read d k ≡ some b → stored d k ≡ b
unfolding stored
stored-some d k b e = rw (e, stored)

pub stored-same :
    (d d' : Blocks) (k : ℕ) → block_read d' k ≡ block_read d k → stored d' k ≡ stored d k
unfolding stored
stored-same d d' k e = rw (e, stored)

-- `fs'` shows `b` at the block `k`, and at the others what `fs` shows.
pub record Shows (fs : Fs) (k : ℕ) (b : Bytes) (fs' : Fs) : Type 0 where
  pub sound : IsSound fs'
  pub here : shown fs' k ≡ b
  pub elsewhere : (j : ℕ) → j < fs.blocks.num_blocks → j ≢ k → shown fs' j ≡ shown fs j
  pub blocks_same : fs'.blocks.num_blocks ≡ fs.blocks.num_blocks
  pub size_same : fs'.blocks.block_size ≡ fs.blocks.block_size

pub Shows-SameView :
    {fs fs' : Fs} {k : ℕ} {b : Bytes} → Shows fs k b fs' → shown fs k ≡ b → SameView fs fs'
Shows-SameView {fs} {fs'} {k} w e = record {
  same = λ j h. elim (ℕ_discrete j k) [
    | yes j≡k ↦ ap (shown fs') j≡k ∙ w.here ∙ sym e ∙ ap (shown fs) (sym j≡k)
    | no ne ↦ w.elsewhere j h ne
  ];
  blocks_same = w.blocks_same;
  size_same = w.size_same;
}

pub Shows-after :
    {fs gs hs : Fs} {k : ℕ} {b : Bytes} → SameView fs gs → Shows gs k b hs → Shows fs k b hs
Shows-after v w = record {
  sound = w.sound;
  here = w.here;
  elsewhere = λ j h ne. w.elsewhere j (omega (arith, v.blocks_same)) ne ∙ v.same j h;
  blocks_same = w.blocks_same ∙ v.blocks_same;
  size_same = w.size_same ∙ v.size_same;
}

unfoldable pub placed : Fs → Blocks → ℕ → Slot Bytes → ℕ → Fs
placed fs d i s c = record fs { blocks = d; bcache = set fs.bcache i s; lru_clock = c }

-- A slot that may be put in its place shows its content, and the others show what they showed.
pub placed-Shows :
    (fs : Fs) (v : IsSound fs) (d : Blocks) (i : ℕ) (s : Slot Bytes) (c : ℕ)
    → IsWhole d
    → d.num_blocks ≡ fs.blocks.num_blocks
    → d.block_size ≡ fs.blocks.block_size
    → MayPlace [] fs.blocks.num_blocks (stored fs.blocks) (stored d) fs.bcache i s
    → length s.content ≡ fs.blocks.block_size
    → Shows fs s.key s.content (placed fs d i s c)
unfolding placed shown
placed-Shows fs v d i s c w n z m l = record {
  sound = record {
    whole = w;
    coherent =
        subst (λ n. Coherent [] n (stored d) (set fs.bcache i s)) (sym n)
          (place-Coherent [] fs.bcache i s v.coherent m);
    slots = length-set fs.bcache i s ∙ v.slots;
    sized = λ j. elim (ℕ_discrete i j) [
      | yes e ↦ λ _.
          subst (λ j. length (at [] (set fs.bcache i s) j).content ≡ d.block_size) e
            (rw (at-set_self [] fs.bcache i s m.in_array) (l ∙ sym z))
      | no ne ↦ rw (at-set_ne [] fs.bcache i j s ne) (λ h. v.sized j h ∙ sym z)
    ];
  };
  here = place-view_self [] fs.bcache i s v.coherent m;
  elsewhere = λ j h ne. place-view_ne [] fs.bcache i s v.coherent m j h ne;
  blocks_same = n;
  size_same = z;
}

-- A valid slot shows its content.
pub shown_held :
    (fs : Fs) (i k : ℕ)
    → IsSound fs
    → (bslot fs i).valid ≡ true
    → (bslot fs i).key ≡ k
    → shown fs k ≡ (bslot fs i).content
unfolding shown
shown_held fs i k v h e = view_held [] fs.bcache i k v.coherent h e

-- A block that no slot holds is shown as on the disk.
pub shown_missing :
    (fs : Fs) (k : ℕ)
    → ((j : ℕ) → (bslot fs j).valid ≡ true → (bslot fs j).key ≢ k)
    → shown fs k ≡ stored fs.blocks k
unfolding shown
shown_missing fs k m = view_missing [] (stored fs.blocks) fs.bcache k m
