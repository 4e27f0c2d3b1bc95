-- ===== src/Fs/Files/Contents.antt =====
-- The contents of a file of snfs_server/fs.c, as its caches show them.
use sthreads.Prelude.{
  ℕ, zero, suc, ◌+◌, ◌/◌, ◌%◌, ◌<◌, ◌≤◌, ◌≡◌, refl, sym, ap, ◌∙◌, subst, inl, inr, List, [], ◌++◌,
  ◌*◌, append_assoc, length, length-append, arith, ltb, get_or, take, Bool-cases,
}
use sthreads.Block.{Bytes}
use sthreads.Cache.Coherence.{view}
use sthreads.Fs.State.{Fs, Inode}
use sthreads.Fs.InodeCache.{islot}
use sthreads.Fs.BlockCache.Transparency.{shown, stored, IsSound}
use sthreads.Fs.BlockCache.Transfers.{IsStamped}
use sthreads.Fs.Files.{offset_to_blocks}
use sthreads.Fs.Files.Reading.{file_bytes, length-shown}

-- The bytes of the file with the inode `x`, as the block cache shows them.
unfoldable pub contents_of : Fs → Inode → Bytes
unfolding file_bytes
contents_of fs x = take x.size (file_bytes fs x.blocks (offset_to_blocks x.size) 0)

-- The bytes of the file in the slot `p` of the inode cache.
abbrev pub file_contents : Fs → ℕ → Bytes
file_contents fs p = contents_of fs (islot fs p).content

pub shown-same :
    (fs gs : Fs) (k : ℕ) → gs.blocks ≡ fs.blocks → gs.bcache ≡ fs.bcache → shown gs k ≡ shown fs k
unfolding shown
shown-same fs gs k d c =
    ap (λ d. view [] (stored d) gs.bcache k) d ∙ ap (λ c. view [] (stored fs.blocks) c k) c

pub IsSound-same :
    (fs gs : Fs) → gs.blocks ≡ fs.blocks → gs.bcache ≡ fs.bcache → IsSound fs → IsSound gs
IsSound-same fs gs d c v =
    let w =
      subst (λ c. IsSound (record fs { blocks = gs.blocks; bcache = c })) (sym c)
        (subst (λ d. IsSound (record fs { blocks = d })) (sym d) v) in
    record { whole = w.whole; coherent = w.coherent; slots = w.slots; sized = w.sized }

pub IsStamped-same :
    (fs gs : Fs) (n : ℕ)
    → gs.bcache ≡ fs.bcache
    → gs.lru_clock ≡ fs.lru_clock
    → IsStamped fs n
    → IsStamped gs n
IsStamped-same fs gs n c l v =
    let w =
      subst (λ c. IsStamped (record fs { bcache = c; lru_clock = gs.lru_clock }) n) (sym c)
        (subst (λ l. IsStamped (record fs { lru_clock = l }) n) (sym l) v) in
    record { behind = w.behind; room = w.room }

-- Blocks that show the same at other numbers.
pub file_bytes-moved :
    (fs gs : Fs) (blk blk' : List ℕ) (n i : ℕ)
    → ((j : ℕ) → i ≤ j → j < i + n → shown gs (get_or blk' j 0) ≡ shown fs (get_or blk j 0))
    → file_bytes gs blk' n i ≡ file_bytes fs blk n i
unfolding file_bytes
file_bytes-moved fs gs blk blk' zero i h = refl
file_bytes-moved fs gs blk blk' (suc n) i h =
    rw
      (
        h i (omega arith) (omega arith),
        file_bytes-moved fs gs blk blk' n (suc i) (λ j a b. h j (omega arith) (omega arith)),
      )
      refl

pub offset_to_blocks_up : (n : ℕ) → offset_to_blocks n ≡ (n + 511) / 512
offset_to_blocks_up n = elim (Bool-cases (ltb 0 (n % 512))) [
  | inl e ↦ let h : 0 < n % 512 = ground (arith, e) in rw e (omega (arith, h))
  | inr e ↦ let h : n % 512 ≡ 0 = ground (arith, e) in rw e (omega (arith, h))
]

pub file_bytes-kept :
    (fs gs : Fs) (blk : List ℕ) (n i : ℕ)
    → ((j : ℕ) → i ≤ j → j < i + n → shown gs (get_or blk j 0) ≡ shown fs (get_or blk j 0))
    → file_bytes gs blk n i ≡ file_bytes fs blk n i
unfolding file_bytes
file_bytes-kept fs gs blk zero i h = refl
file_bytes-kept fs gs blk (suc n) i h =
    rw
      (
        h i (omega arith) (omega arith),
        file_bytes-kept fs gs blk n (suc i) (λ j a b. h j (omega arith) (omega arith)),
      )
      refl

pub file_bytes-suc :
    (fs : Fs) (blk : List ℕ) (n i : ℕ)
    → file_bytes fs blk (suc n) i ≡ shown fs (get_or blk i 0) ++ file_bytes fs blk n (suc i)
unfolding file_bytes
file_bytes-suc fs blk n i = refl

file_bytes_add :
    (fs : Fs) (blk : List ℕ) (n m i : ℕ)
    → file_bytes fs blk (n + m) i ≡ file_bytes fs blk n i ++ file_bytes fs blk m (i + n)
unfolding file_bytes
file_bytes_add fs blk zero m i =
    let e : 0 + m ≡ m = omega arith in
    let q : i ≡ i + 0 = omega arith in
    ap (λ k. file_bytes fs blk k i) e ∙ ap (file_bytes fs blk m) q
file_bytes_add fs blk (suc n) m i =
    let e : suc n + m ≡ suc (n + m) = omega arith in
    let q : suc i + n ≡ i + suc n = omega arith in
    ap (λ k. file_bytes fs blk k i) e
    ∙ ap (λ ys. shown fs (get_or blk i 0) ++ ys)
        (file_bytes_add fs blk n m (suc i)
          ∙ ap (λ k. file_bytes fs blk n (suc i) ++ file_bytes fs blk m k) q)
    ∙ sym (
        append_assoc (shown fs (get_or blk i 0)) (file_bytes fs blk n (suc i))
          (file_bytes fs blk m (i + suc n)))

pub halves :
    (fs : Fs) (blk : List ℕ) (n m k : ℕ)
    → n + m ≡ k
    → file_bytes fs blk k 0 ≡ file_bytes fs blk n 0 ++ file_bytes fs blk m n
halves fs blk n m k h =
    let e : 0 + n ≡ n = omega arith in
    ap (λ k. file_bytes fs blk k 0) (sym h)
    ∙ file_bytes_add fs blk n m 0
    ∙ ap (λ k. file_bytes fs blk n 0 ++ file_bytes fs blk m k) e

pub length-file_bytes :
    (fs : Fs) (blk : List ℕ) (n i : ℕ)
    → IsSound fs
    → fs.blocks.block_size ≡ 512
    → ((j : ℕ) → i ≤ j → j < i + n → get_or blk j 0 < fs.blocks.num_blocks)
    → length (file_bytes fs blk n i) ≡ n * 512
unfolding file_bytes
length-file_bytes fs blk zero i v z h = refl
length-file_bytes fs blk (suc n) i v z h =
    let l = length-shown fs (get_or blk i 0) v (h i (omega arith) (omega arith)) in
    length-append (shown fs (get_or blk i 0)) (file_bytes fs blk n (suc i))
    ∙ omega (
      arith,
      l,
      z,
      length-file_bytes fs blk n (suc i) v z (λ j a b. h j (omega arith) (omega arith)),
    )
