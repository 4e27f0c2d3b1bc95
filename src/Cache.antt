-- ===== src/Cache.antt =====
-- The caches of snfs_server/fs.c. The block, inode and directory caches are three copies of one
-- design: slots with a least-recently-used stamp, a victim rule, and write-back of dirty slots. The
-- parts that the three share stand here.
pub mod Coherence
pub mod Evicting
pub mod Finding
pub mod Placing
use sthreads.Prelude.{
  ℕ, suc, ◌+◌, ◌-◌, ◌%◌, ◌^◌, Bool, true, false, ◌&&◌, not, Option, none, some, List, [], ◌∷◌, ltb,
  leb, ◌==◌, get_or, if◌then◌else◌,
}

-- `bcache_entry_t`, `icache_entry_t` and `dcache_entry_t`: the key is the block number or the inode
-- number, and the directory cache keeps the directory beside the entries in `content`.
pub record Slot {ℓ} (V : Type ℓ) : Type ℓ where
  pub valid : Bool
  pub dirty : Bool
  pub key : ℕ
  pub dirty_time : ℕ
  pub lru : ℕ
  pub content : V

-- `~0UL`, for the 32 bits of an `unsigned long` in the builds, all with `-m32`
abbrev pub ulong_max : ℕ
ulong_max = 2 ^ 32 - 1

-- `++fs->lru_clock`
abbrev pub next_clock : ℕ → ℕ
next_clock c = (c + 1) % 2 ^ 32

abbrev pub writeback_interval : ℕ
writeback_interval = 10

-- The variables of the scan for a victim: the best clean and the best dirty slot so far, and the
-- least stamps seen.
pub record Scan : Type 0 where
  pub clean : Option ℕ
  pub clean_min : ℕ
  pub dirty : Option ℕ
  pub dirty_min : ℕ

abbrev pub scan_start : Scan
scan_start = record { clean = none; clean_min = ulong_max; dirty = none; dirty_min = ulong_max }

abbrev pub scan_end : Scan → Option ℕ
scan_end m = elim m.clean [ none ↦ m.dirty | some i ↦ some i ]

-- A slot that is taken, at the index `i`.
abbrev pub scan_slot : Bool → ℕ → ℕ → Scan → Scan
scan_slot true lru i m =
    if ltb lru m.dirty_min then record m { dirty = some i; dirty_min = lru } else m
scan_slot false lru i m =
    if ltb lru m.clean_min then record m { clean = some i; clean_min = lru } else m

module _ {ℓ} {V : Type ℓ} where
  abbrev pub empty_slot : V → Slot V
  empty_slot v = record {
    valid = false;
    dirty = false;
    key = 0;
    dirty_time = 0;
    lru = 0;
    content = v;
  }

  -- `none` stands for the index -1.
  unfoldable pub victim_from : ℕ → List (Slot V) → Scan → Option ℕ
  victim_from i [] m = scan_end m
  victim_from i (s ∷ slots) m =
      let rest = victim_from (suc i) slots (scan_slot s.dirty s.lru i m) in
      if s.valid then rest else some i

  unfoldable pub victim : List (Slot V) → Option ℕ
  unfolding victim_from
  victim slots = victim_from 0 slots scan_start

  -- the first index at which the test holds
  unfoldable pub find_from : ℕ → (Slot V → Bool) → List (Slot V) → Option ℕ
  find_from i t [] = none
  find_from i t (s ∷ slots) = let rest = find_from (suc i) t slots in if t s then some i else rest

  unfoldable pub find : (Slot V → Bool) → List (Slot V) → Option ℕ
  unfolding find_from
  find t slots = find_from 0 t slots

  -- `valid && dirty && difftime(now, dirty_time) >= WRITEBACK_INTERVAL`
  unfoldable pub expired : ℕ → Slot V → Bool
  expired now s = s.valid && (s.dirty && leb (s.dirty_time + writeback_interval) now)

  abbrev pub holds : ℕ → Slot V → Bool
  holds k s = s.valid && s.key == k
