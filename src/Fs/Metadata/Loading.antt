-- ===== src/Fs/Metadata/Loading.antt =====
-- What fsi_load_fsdata of snfs_server/fs.c reads of the table on the disk.
use sthreads.Prelude.{
  ℕ, zero, suc, ◌+◌, ◌*◌, ◌<◌, ◌≤◌, ◌≡◌, refl, sym, ap, ◌∙◌, some, ◌++◌, arith, length, take, drop,
  take_all, length-take, length-drop, length-append, take-append, take-append_le, take_add, ◌-◌,
}
use sthreads.Block.{Bytes, block_read}
use sthreads.Fs.State.{Fs}
use sthreads.Fs.BlockCache.{disk_read}
use sthreads.Fs.Metadata.{load_tab}

pub disk_read-some :
    (fs : Fs) (k : ℕ) (old b : Bytes) → block_read fs.blocks k ≡ some b → disk_read fs k old ≡ b
unfolding disk_read
disk_read-some fs k old b e = rw (e, disk_read) refl

-- The head of the table with one more block.
next_head :
    (i : ℕ) (t tab : Bytes)
    → length t ≡ 4096
    → length tab ≡ 4096
    → i < 8
    → take (i * 512) t ≡ take (i * 512) tab
    → take
        (suc i * 512)
        (take (i * 512) t ++ (take 512 (drop (i * 512) tab) ++ drop (i * 512 + 512) t))
      ≡ take (suc i * 512) tab
next_head i t tab l l' h e =
    let n : ℕ = i * 512 in
    let b : Bytes = take 512 (drop n tab) in
    let m : suc i * 512 ≡ n + 512 = omega arith in
    let la : length (take n t) ≡ n = omega (arith, length-take n t, l, h) in
    let lb : length b ≡ 512 =
      omega (arith, length-take 512 (drop n tab), length-drop n tab, l', h) in
    let r : n + 512 - length (take n t) ≡ 512 = omega (arith, la) in
    ap (λ k. take k (take n t ++ (b ++ drop (n + 512) t))) m
    ∙ take-append (n + 512) (take n t) (b ++ drop (n + 512) t)
    ∙ ap (λ ys. ys ++ take (n + 512 - length (take n t)) (b ++ drop (n + 512) t))
        (take_all (n + 512) (take n t) (omega (arith, la)) ∙ e)
    ∙ ap (λ k. take n tab ++ take k (b ++ drop (n + 512) t)) r
    ∙ ap (λ ys. take n tab ++ ys)
        (take-append_le 512 b (drop (n + 512) t) (omega (arith, lb))
          ∙ take_all 512 b (omega (arith, lb)))
    ∙ sym (take_add n 512 tab)
    ∙ ap (λ k. take k tab) (sym m)

-- The loop reads the blocks of a table behind those that it has.
pub load_tab-reads :
    (fs : Fs) (i n : ℕ) (t tab : Bytes)
    → i + n ≡ 8
    → length t ≡ 4096
    → length tab ≡ 4096
    → take (i * 512) t ≡ take (i * 512) tab
    → ((j : ℕ)
        → i ≤ j
        → j < 8
        → block_read fs.blocks (j + 2) ≡ some (take 512 (drop (j * 512) tab)))
    → load_tab fs i n t ≡ tab
unfolding load_tab
load_tab-reads fs i zero t tab h l l' e r =
    let m : i * 512 ≡ 4096 = omega (arith, h) in
    sym (take_all 4096 t (omega (arith, l)))
    ∙ ap (λ k. take k t) (sym m)
    ∙ e
    ∙ ap (λ k. take k tab) m
    ∙ take_all 4096 tab (omega (arith, l'))
load_tab-reads fs i (suc n) t tab h l l' e r =
    let b : Bytes = take 512 (drop (i * 512) tab) in
    let q =
      disk_read-some fs (i + 2) (take 512 (drop (i * 512) t)) b (r i (omega arith) (omega arith)) in
    let t' : Bytes = take (i * 512) t ++ (b ++ drop (i * 512 + 512) t) in
    let len : length t' ≡ 4096 =
      length-append (take (i * 512) t) (b ++ drop (i * 512 + 512) t)
      ∙ omega (
        arith,
        h,
        l,
        l',
        length-append b (drop (i * 512 + 512) t),
        length-take (i * 512) t,
        length-take 512 (drop (i * 512) tab),
        length-drop (i * 512) tab,
        length-drop (i * 512 + 512) t,
      ) in
    ap (λ b. load_tab fs (suc i) n (take (i * 512) t ++ (b ++ drop (i * 512 + 512) t))) q
    ∙ load_tab-reads fs (suc i) n t' tab (omega arith) len l'
        (next_head i t tab l l' (omega (arith, h)) e) (λ j a c. r j (omega arith) c)
