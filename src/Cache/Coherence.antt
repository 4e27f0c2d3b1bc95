-- ===== src/Cache/Coherence.antt =====
-- What a cache of snfs_server/fs.c shows: the content of the slot that holds a key, or what the
-- store behind it holds. A cache is coherent when no key stands in two slots and the clean slots
-- agree with the store; to put a slot in a place keeps that, if the place held nothing unsaved.
use sthreads.Prelude.{
  ℕ, zero, suc, ◌<◌, ◌≡◌, ◌≢◌, ◌⊎◌, true, false, none, some, List, [], ◌∷◌, inl, inr, arith, length,
  get_or, set, get_or-set_self, get_or-set_ne, Option-cases, ap,
}
use sthreads.Cache.{Slot, empty_slot, find, holds}
use sthreads.Cache.Finding.{find-some, find-none}

module _ {ℓ} {V : Type ℓ} (v : V) where
  abbrev pub at : List (Slot V) → ℕ → Slot V
  at slots i = get_or slots i (empty_slot v)

  unfoldable pub view : (ℕ → V) → List (Slot V) → ℕ → V
  view store slots k = elim (find (holds k) slots) [
    | none ↦ store k
    | some i ↦ (at slots i).content
  ]

  -- The keys lie below `n`.
  pub record Coherent (n : ℕ) (store : ℕ → V) (slots : List (Slot V)) : Type ℓ where
    pub distinct :
        (i j : ℕ)
        → (at slots i).valid ≡ true
        → (at slots j).valid ≡ true
        → (at slots i).key ≡ (at slots j).key
        → i ≡ j
    pub inside : (i : ℕ) → (at slots i).valid ≡ true → (at slots i).key < n
    pub saved :
        (i : ℕ)
        → (at slots i).valid ≡ true
        → (at slots i).dirty ≡ false
        → (at slots i).content ≡ store (at slots i).key

  pub valid-lt : (slots : List (Slot V)) (i : ℕ) → (at slots i).valid ≡ true → i < length slots
  valid-lt [] i h = cc
  valid-lt (s ∷ slots) zero h = omega arith
  valid-lt (s ∷ slots) (suc i) h = omega (arith, valid-lt slots i h)

  pub at-set_self :
      (slots : List (Slot V)) (i : ℕ) (s : Slot V) → i < length slots → at (set slots i s) i ≡ s
  at-set_self slots i s h = get_or-set_self slots i s (empty_slot v) h

  pub at-set_ne :
      (slots : List (Slot V)) (i j : ℕ) (s : Slot V) → i ≢ j → at (set slots i s) j ≡ at slots j
  at-set_ne slots i j s h = get_or-set_ne slots i j s (empty_slot v) h

  pub view_held :
      {n : ℕ} {store : ℕ → V} (slots : List (Slot V)) (i k : ℕ)
      → Coherent n store slots
      → (at slots i).valid ≡ true
      → (at slots i).key ≡ k
      → view store slots k ≡ (at slots i).content
  unfolding view
  view_held {n} {store} slots i k c h e = elim (Option-cases (find (holds k) slots)) [
    | inl o ↦
        absurd (ground (arith, find-none (empty_slot v) (holds k) i slots o (valid-lt slots i h)))
    | inr (j, o) ↦
        let (_, t) = find-some (empty_slot v) (holds k) j slots o in
        let same : j ≡ i = c.distinct j i (ground (arith, t)) h (ground (arith, t, e)) in
        rw (o, view) (ap (λ x. (at slots x).content) same)
  ]

  pub view_missing :
      (store : ℕ → V) (slots : List (Slot V)) (k : ℕ)
      → ((i : ℕ) → (at slots i).valid ≡ true → (at slots i).key ≢ k)
      → view store slots k ≡ store k
  unfolding view
  view_missing store slots k m = elim (Option-cases (find (holds k) slots)) [
    | inl o ↦ rw (o, view)
    | inr (j, o) ↦
        let (_, t) = find-some (empty_slot v) (holds k) j slots o in
        absurd (m j (ground (arith, t)) (ground (arith, t)))
  ]

  -- A key is held by a slot, or by none.
  pub held_cases :
      (slots : List (Slot V)) (k : ℕ)
      → ((j : ℕ) × ((at slots j).valid ≡ true) × ((at slots j).key ≡ k))
        ⊎ ((j : ℕ) → (at slots j).valid ≡ true → (at slots j).key ≢ k)
  held_cases slots k = elim (Option-cases (find (holds k) slots)) [
    | inl o ↦ inr (λ j h e.
        absurd (ground (arith, find-none (empty_slot v) (holds k) j slots o (valid-lt slots j h))))
    | inr (j, o) ↦
        let (_, t) = find-some (empty_slot v) (holds k) j slots o in
        inl (j, ground (arith, t), ground (arith, t))
  ]
