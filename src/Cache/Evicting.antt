-- ===== src/Cache/Evicting.antt =====
-- Which slot the caches of snfs_server/fs.c give up.
use sthreads.Prelude.{
  ℕ, suc, ◌+◌, ◌<◌, ◌≤◌, ◌≡◌, ◌⊎◌, refl, sym, Bool, true, false, Option, none, some, List, [], ◌∷◌,
  inl, inr, arith, length, get_or, ltb, Bool-cases, ap, ◌∙◌, subst, not,
}
use native.Mathlib.Decide.{ℕ_discrete}
use sthreads.Cache.{Slot, Scan, ulong_max, scan_start, scan_slot, scan_end, victim_from, victim}

-- Of the indices below `j` that pass the test, `o` has the least stamp, which is `least`.
Best : (ℕ → Bool) → (ℕ → ℕ) → ℕ → Option ℕ → ℕ → Type 0
Best p lru j none least = (least ≡ ulong_max) × ((y : ℕ) → y < j → p y ≡ false)
Best p lru j (some x) least =
    (x < j) × (p x ≡ true) × (lru x ≡ least) × ((y : ℕ) → y < j → p y ≡ true → least ≤ lru y)

module _ (p : ℕ → Bool) (lru : ℕ → ℕ) (j : ℕ) where
  Best-skip :
      (o : Option ℕ) (least : ℕ) → p j ≡ false → Best p lru j o least → Best p lru (suc j) o least
  unfolding Best
  Best-skip none least h (a, b) = (
    a,
    λ y l. elim (ℕ_discrete y j) [
      | yes e ↦ subst (λ y. p y ≡ false) (sym e) h
      | no ne ↦ b y (omega arith)
    ],
  )
  Best-skip (some x) least h (a, b, c, d) = (
    omega arith,
    b,
    c,
    λ y l t. elim (ℕ_discrete y j) [ yes e ↦ absurd (cc (h, t, e)) | no ne ↦ d y (omega arith) t ],
  )

  Best-better :
      (o : Option ℕ) (least : ℕ)
      → p j ≡ true
      → lru j < least
      → Best p lru j o least
      → Best p lru (suc j) (some j) (lru j)
  unfolding Best
  Best-better o least h l b = (
    omega arith,
    h,
    refl,
    λ y ly t. elim (ℕ_discrete y j) [
      | yes e ↦ subst (λ y. lru j ≤ lru y) (sym e) (omega arith)
      | no ne ↦ rest o b y (omega arith) t
    ],
  )
    where
      rest : (o : Option ℕ) → Best p lru j o least → (y : ℕ) → y < j → p y ≡ true → lru j ≤ lru y
      rest none (_, b) y ly t = absurd (cc (b y ly, t))
      rest (some x) (_, _, _, d) y ly t = omega (arith, d y ly t)

  Best-worse :
      (o : Option ℕ) (least : ℕ)
      → lru j < ulong_max
      → least ≤ lru j
      → Best p lru j o least
      → Best p lru (suc j) o least
  unfolding Best
  Best-worse none least m l (a, b) = absurd (omega arith)
  Best-worse (some x) least m l (a, b, c, d) = (
    omega arith,
    b,
    c,
    λ y ly t. elim (ℕ_discrete y j) [
      | yes e ↦ subst (λ y. least ≤ lru y) (sym e) l
      | no ne ↦ d y (omega arith) t
    ],
  )

not_lem : (b c : Bool) → not b ≡ not c → b ≡ c
not_lem true true h = refl
not_lem false false h = refl
not_lem true false h = cc
not_lem false true h = cc

-- The slot at `i` may be given up: it is not in use, or all are in use and of the clean ones, if
-- any, else of all, it is the one least recently used.
module _ {ℓ} {V : Type ℓ} (all : List (Slot V)) (d : Slot V) where
  unfoldable pub MayEvict : ℕ → Type 0
  MayEvict i =
      (i < length all)
      × (((get_or all i d).valid ≡ false)
          ⊎ (((y : ℕ) → y < length all → (get_or all y d).valid ≡ true)
              × ((((get_or all i d).dirty ≡ false)
                    × ((y : ℕ)
                        → y < length all
                        → (get_or all y d).dirty ≡ false
                        → (get_or all i d).lru ≤ (get_or all y d).lru))
                  ⊎ (((y : ℕ) → y < length all → (get_or all y d).dirty ≡ true)
                      × ((y : ℕ) → y < length all → (get_or all i d).lru ≤ (get_or all y d).lru)))))

  clean_at : ℕ → Bool
  clean_at i = not (get_or all i d).dirty

  dirty_at : ℕ → Bool
  dirty_at i = (get_or all i d).dirty

  lru_at : ℕ → ℕ
  lru_at i = (get_or all i d).lru

  Seen : ℕ → Scan → Type 0
  Seen j m = Best clean_at lru_at j m.clean m.clean_min × Best dirty_at lru_at j m.dirty m.dirty_min

  scan_slot-Seen :
      (j : ℕ) (m : Scan)
      → lru_at j < ulong_max
      → Seen j m
      → Seen (suc j) (scan_slot (dirty_at j) (lru_at j) j m)
  unfolding Seen clean_at dirty_at
  scan_slot-Seen j m h (c, b) = elim (Bool-cases (dirty_at j)) [
    | inl e ↦
        let no : clean_at j ≡ false = ap not e in
        elim (Bool-cases (ltb (lru_at j) m.dirty_min)) [
          | inl l ↦
              rw (e, l)
                (
                  Best-skip clean_at lru_at j m.clean m.clean_min no c,
                  Best-better dirty_at lru_at j m.dirty m.dirty_min e (ground (arith, l)) b,
                )
          | inr l ↦
              rw (e, l)
                (
                  Best-skip clean_at lru_at j m.clean m.clean_min no c,
                  Best-worse dirty_at lru_at j m.dirty m.dirty_min h (ground (arith, l)) b,
                )
        ]
    | inr e ↦
        let yes' : clean_at j ≡ true = ap not e in
        elim (Bool-cases (ltb (lru_at j) m.clean_min)) [
          | inl l ↦
              rw (e, l)
                (
                  Best-better clean_at lru_at j m.clean m.clean_min yes' (ground (arith, l)) c,
                  Best-skip dirty_at lru_at j m.dirty m.dirty_min e b,
                )
          | inr l ↦
              rw (e, l)
                (
                  Best-worse clean_at lru_at j m.clean m.clean_min h (ground (arith, l)) c,
                  Best-skip dirty_at lru_at j m.dirty m.dirty_min e b,
                )
        ]
  ]

  scan_end-MayEvict :
      (m : Scan) (j : ℕ)
      → j ≡ length all
      → 0 < length all
      → ((y : ℕ) → y < j → (get_or all y d).valid ≡ true)
      → Seen j m
      → (i : ℕ) × (scan_end m ≡ some i) × MayEvict i
  unfolding Seen MayEvict Best clean_at dirty_at lru_at
  scan_end-MayEvict m j e h used b = ends m.clean m.clean_min m.dirty m.dirty_min b
    where
      ends :
          (o : Option ℕ) (l : ℕ) (o' : Option ℕ) (l' : ℕ)
          → Best clean_at lru_at j o l × Best dirty_at lru_at j o' l'
          → (i : ℕ) × (elim o [ none ↦ o' | some i ↦ some i ] ≡ some i) × MayEvict i
      ends (some x) l o' l' ((a, b, c, least), _) = (
        x,
        refl,
        (
          omega arith,
          inr (
            λ y ly. used y (omega arith),
            inl (not_lem _ false b, λ y ly t. omega (arith, least y (omega arith) (ap not t), c)),
          ),
        ),
      )
      ends none l (some x) l' ((_, n), (a, b, c, least)) = (
        x,
        refl,
        (
          omega arith,
          inr (
            λ y ly. used y (omega arith),
            inr (
              λ y ly. not_lem _ true (n y (omega arith)),
              λ y ly. omega (arith, least y (omega arith) (not_lem _ true (n y (omega arith))), c),
            ),
          ),
        ),
      )
      ends none l none l' ((_, n), (_, n')) =
          absurd (cc (n 0 (omega arith), ap not (n' 0 (omega arith))))

  victim_from-MayEvict :
      (j : ℕ) (m : Scan) (slots : List (Slot V))
      → length all ≡ j + length slots
      → ((x : ℕ) → get_or slots x d ≡ get_or all (j + x) d)
      → ((x : ℕ) → (get_or all x d).lru < ulong_max)
      → 0 < length all
      → ((y : ℕ) → y < j → (get_or all y d).valid ≡ true)
      → Seen j m
      → (i : ℕ) × (victim_from j slots m ≡ some i) × MayEvict i
  unfolding victim_from MayEvict dirty_at lru_at
  victim_from-MayEvict j m [] e h l p u b = scan_end-MayEvict m j (omega arith) p u b
  victim_from-MayEvict j m (s ∷ slots) e h l p u b =
      let here : s ≡ get_or all j d = h 0 ∙ ap (λ x. get_or all x d) (omega arith) in
      elim (Bool-cases s.valid) [
        | inr f ↦ (j, rw f, (omega arith, inl (ap (λ s. s.valid) (sym here) ∙ f)))
        | inl t ↦ rw t (
            victim_from-MayEvict (suc j) (scan_slot s.dirty s.lru j m) slots (omega arith)
              (λ x. h (suc x) ∙ ap (λ x. get_or all x d) (omega arith)) l p
              (λ y ly. elim (ℕ_discrete y j) [
                | yes y≡j ↦
                    subst (λ y. (get_or all y d).valid ≡ true) (sym y≡j)
                      (ap (λ s. s.valid) (sym here) ∙ t)
                | no ne ↦ u y (omega arith)
              ])
              (subst (λ s. Seen (suc j) (scan_slot s.dirty s.lru j m)) (sym here)
                (scan_slot-Seen j m (l j) b)))
      ]

  -- If a cache has slots and no stamp is the greatest number, a victim exists: an unused slot,
  -- or with all slots in use the least recently used of the clean ones, or with none clean the
  -- least recently used of all.
  pub victim-MayEvict :
      0 < length all
      → ((x : ℕ) → (get_or all x d).lru < ulong_max)
      → (i : ℕ) × (victim all ≡ some i) × MayEvict i
  unfolding victim Seen Best
  victim-MayEvict p l =
      victim_from-MayEvict 0 scan_start all (omega arith)
        (λ x. ap (λ x. get_or all x d) (omega arith)) l p (λ y h. absurd (omega arith))
        ((refl, λ y h. absurd (omega arith)), (refl, λ y h. absurd (omega arith)))
