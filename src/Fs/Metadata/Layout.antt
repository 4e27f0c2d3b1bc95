-- ===== src/Fs/Metadata/Layout.antt =====
-- An inode of snfs_server/fs.c as 64 bytes: 16 words of four bytes, the least first, which are the
-- type, the size, ten blocks and four reserved words.
use sthreads.Prelude.{
  ℕ, zero, suc, ◌+◌, ◌*◌, ◌/◌, ◌%◌, ◌^◌, ◌<◌, ◌≡◌, refl, sym, ap, ◌∙◌, List, [], ◌∷◌, ◌++◌, arith,
  length, take, drop, replicate, get_or, length-append,
}
use sthreads.Block.{Bytes}
use sthreads.Fs.State.{Inode, inode_num_blks}

unfoldable pub words_bytes : List ℕ → Bytes
words_bytes [] = []
words_bytes (w ∷ ws) =
    w % 256 ∷ w / 256 % 256 ∷ w / 65536 % 256 ∷ w / 16777216 % 256 ∷ words_bytes ws

unfoldable pub bytes_words : ℕ → Bytes → List ℕ
bytes_words zero bs = []
bytes_words (suc n) (a ∷ b ∷ c ∷ d ∷ bs) =
    (a + 256 * b + 65536 * c + 16777216 * d) ∷ bytes_words n bs
bytes_words (suc n) bs = []

-- the reserved words are 0
unfoldable pub inode_bytes : Inode → Bytes
unfolding words_bytes
inode_bytes x = words_bytes (x.itype ∷ x.size ∷ x.blocks) ++ replicate 16 0

unfoldable pub bytes_inode : Bytes → Inode
unfolding bytes_words
bytes_inode bs = record {
  itype = get_or (bytes_words 2 bs) 0 0;
  size = get_or (bytes_words 2 bs) 1 0;
  blocks = bytes_words inode_num_blks (drop 8 bs);
}

unfoldable pub tab_bytes : List Inode → Bytes
unfolding inode_bytes
tab_bytes [] = []
tab_bytes (x ∷ xs) = inode_bytes x ++ tab_bytes xs

unfoldable pub tab_inodes : ℕ → Bytes → List Inode
unfolding bytes_inode
tab_inodes zero bs = []
tab_inodes (suc n) bs = bytes_inode (take 64 bs) ∷ tab_inodes n (drop 64 bs)

-- All words fit four bytes.
pub data AllWords : List ℕ → Type 0 where
  all_none : AllWords []
  all_more : {w : ℕ} {ws : List ℕ} → w < 2 ^ 32 → AllWords ws → AllWords (w ∷ ws)

pub record IsInode (x : Inode) : Type 0 where
  pub itype_fits : x.itype < 2 ^ 32
  pub size_fits : x.size < 2 ^ 32
  pub blocks_fit : AllWords x.blocks
  pub ten : length x.blocks ≡ 10

pub data AllInodes : List Inode → Type 0 where
  no_inodes : AllInodes []
  more_inodes : {x : Inode} {xs : List Inode} → IsInode x → AllInodes xs → AllInodes (x ∷ xs)

word :
    (w : ℕ)
    → w < 2 ^ 32
    → w % 256 + 256 * (w / 256 % 256) + 65536 * (w / 65536 % 256) + 16777216 * (w / 16777216 % 256)
      ≡ w
word w h = omega arith

words-round :
    (ws : List ℕ) (bs : Bytes) → AllWords ws → bytes_words (length ws) (words_bytes ws ++ bs) ≡ ws
unfolding bytes_words words_bytes
words-round [] bs all_none = refl
words-round (w ∷ ws) bs (all_more h a) = rw (word w h, words-round ws bs a) refl

append_assoc : (xs ys zs : Bytes) → (xs ++ ys) ++ zs ≡ xs ++ (ys ++ zs)
append_assoc [] ys zs = refl
append_assoc (x ∷ xs) ys zs = ap (λ us. x ∷ us) (append_assoc xs ys zs)

bytes_inode-inode_bytes :
    (x : Inode) (bs : Bytes) → IsInode x → bytes_inode (inode_bytes x ++ bs) ≡ x
unfolding bytes_inode inode_bytes bytes_words words_bytes
bytes_inode-inode_bytes x bs v =
    rw (word x.itype v.itype_fits, word x.size v.size_fits)
      (ap (λ ws. record x { blocks = ws }) blocks_back)
  where
    blocks_back : bytes_words 10 ((words_bytes x.blocks ++ replicate 16 0) ++ bs) ≡ x.blocks
    blocks_back =
        ap (bytes_words 10) (append_assoc (words_bytes x.blocks) (replicate 16 0) bs)
        ∙ ap (λ n. bytes_words n (words_bytes x.blocks ++ (replicate 16 0 ++ bs))) (sym v.ten)
        ∙ words-round x.blocks (replicate 16 0 ++ bs) v.blocks_fit

length-words_bytes : (ws : List ℕ) → length (words_bytes ws) ≡ 4 * length ws
unfolding words_bytes
length-words_bytes [] = refl
length-words_bytes (w ∷ ws) = omega (arith, length-words_bytes ws)

pub length-inode_bytes : (x : Inode) → IsInode x → length (inode_bytes x) ≡ 64
unfolding inode_bytes
length-inode_bytes x v =
    length-append (words_bytes (x.itype ∷ x.size ∷ x.blocks)) (replicate 16 0)
    ∙ omega (arith, length-words_bytes (x.itype ∷ x.size ∷ x.blocks), v.ten)

take-append : (n : ℕ) (xs ys : Bytes) → length xs ≡ n → take n (xs ++ ys) ≡ xs
take-append zero [] ys h = refl
take-append zero (x ∷ xs) ys h = absurd (omega arith)
take-append (suc n) [] ys h = absurd (omega arith)
take-append (suc n) (x ∷ xs) ys h = ap (λ us. x ∷ us) (take-append n xs ys (omega arith))

drop-append : (n : ℕ) (xs ys : Bytes) → length xs ≡ n → drop n (xs ++ ys) ≡ ys
drop-append zero [] ys h = refl
drop-append zero (x ∷ xs) ys h = absurd (omega arith)
drop-append (suc n) [] ys h = absurd (omega arith)
drop-append (suc n) (x ∷ xs) ys h = drop-append n xs ys (omega arith)

append_nil : (xs : Bytes) → xs ++ [] ≡ xs
append_nil [] = refl
append_nil (x ∷ xs) = ap (λ us. x ∷ us) (append_nil xs)

-- A table of inodes whose type, size and blocks fit 32 bits, each with ten blocks, is read back
-- from its bytes.
pub tab_inodes-tab_bytes :
    (xs : List Inode) → AllInodes xs → tab_inodes (length xs) (tab_bytes xs) ≡ xs
unfolding tab_inodes tab_bytes
tab_inodes-tab_bytes [] no_inodes = refl
tab_inodes-tab_bytes (x ∷ xs) (more_inodes v vs) =
    let l = length-inode_bytes x v in
    ap (λ a. bytes_inode a ∷ tab_inodes (length xs) (drop 64 (inode_bytes x ++ tab_bytes xs)))
      (take-append 64 (inode_bytes x) (tab_bytes xs) l)
    ∙ ap (λ b. bytes_inode (inode_bytes x) ∷ tab_inodes (length xs) b)
        (drop-append 64 (inode_bytes x) (tab_bytes xs) l)
    ∙ ap (λ ys. bytes_inode (inode_bytes x) ∷ ys) (tab_inodes-tab_bytes xs vs)
    ∙ ap (λ y. y ∷ xs)
        (ap bytes_inode (sym (append_nil (inode_bytes x))) ∙ bytes_inode-inode_bytes x [] v)
