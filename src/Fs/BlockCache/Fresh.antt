-- ===== src/Fs/BlockCache/Fresh.antt =====
-- The block cache of snfs_server/fs.c as fs_new leaves it: nothing is in use.
use sthreads.Prelude.{
  ℕ, zero, suc, ◌+◌, ◌<◌, ◌≡◌, refl, ap, ◌∙◌, true, arith, get_or, length, replicate,
}
use sthreads.Block.Access.{IsWhole}
use sthreads.Cache.{ulong_max}
use sthreads.Fs.State.{Fs, no_block, block_cache_size}
use sthreads.Fs.BlockCache.{bslot}
use sthreads.Fs.BlockCache.Transparency.{IsSound}
use sthreads.Fs.BlockCache.Transfers.{IsStamped}

get_or-replicate {ℓ} : {A : Type ℓ} (n i : ℕ) (a : A) → get_or (replicate n a) i a ≡ a
get_or-replicate zero i a = refl
get_or-replicate (suc n) zero a = refl
get_or-replicate (suc n) (suc i) a = get_or-replicate n i a

module _ (fs : Fs) (e : fs.bcache ≡ replicate block_cache_size no_block) where
  fresh : (i : ℕ) → bslot fs i ≡ no_block
  fresh i = ap (λ c. get_or c i no_block) e ∙ get_or-replicate block_cache_size i no_block

  unused : {P : Type 0} (i : ℕ) → (bslot fs i).valid ≡ true → P
  unused i h = absurd (cc (h, ap (λ s. s.valid) (fresh i)))

  -- An unused cache before a whole disk is sound.
  pub fresh-IsSound : IsWhole fs.blocks → IsSound fs
  fresh-IsSound w = record {
    whole = w;
    coherent = record {
      distinct = λ i j h _ _. unused i h;
      inside = λ i h. unused i h;
      saved = λ i h _. unused i h;
    };
    slots = ap length e;
    sized = λ i h. unused i h;
  }

  -- Its stamps are behind any clock.
  pub fresh-IsStamped : (n : ℕ) → fs.lru_clock + n < ulong_max → IsStamped fs n
  fresh-IsStamped n h = record { behind = λ i. omega (arith, ap (λ s. s.lru) (fresh i)); room = h }
