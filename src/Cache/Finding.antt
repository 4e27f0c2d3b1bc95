-- ===== src/Cache/Finding.antt =====
-- What the searches of the caches of snfs_server/fs.c find.
use sthreads.Prelude.{
  ℕ, zero, suc, ◌+◌, ◌<◌, ◌≡◌, Bool, true, false, none, some, List, [], ◌∷◌, inl, inr, arith,
  length, get_or, Bool-cases, subst,
}
use sthreads.Cache.{Slot, find_from, find, holds}

module _ {ℓ} {V : Type ℓ} (d : Slot V) where
  find_from-some :
      (t : Slot V → Bool) (j i : ℕ) (slots : List (Slot V))
      → find_from j t slots ≡ some i
      → (k : ℕ) × (i ≡ k + j) × (k < length slots) × (t (get_or slots k d) ≡ true)
  unfolding find_from
  find_from-some t j i [] e = cc
  find_from-some t j i (s ∷ slots) e = elim (Bool-cases (t s)) [
    | inl h ↦ (0, ground arith, omega arith, h)
    | inr h ↦
        let (k, a, b, c) = find_from-some t (suc j) i slots (ground arith) in
        (suc k, omega arith, omega arith, c)
  ]

  -- A found slot lies in the array and passes the test.
  pub find-some :
      (t : Slot V → Bool) (i : ℕ) (slots : List (Slot V))
      → find t slots ≡ some i
      → (i < length slots) × (t (get_or slots i d) ≡ true)
  unfolding find
  find-some t i slots e =
      let (k, a, b, c) = find_from-some t 0 i slots e in
      let a' : k ≡ i = omega arith in (omega arith, subst (λ x. t (get_or slots x d) ≡ true) a' c)

  find_from-none :
      (t : Slot V → Bool) (j i : ℕ) (slots : List (Slot V))
      → find_from j t slots ≡ none
      → i < length slots
      → t (get_or slots i d) ≡ false
  unfolding find_from
  find_from-none t j i [] e h = absurd (omega arith)
  find_from-none t j zero (s ∷ slots) e h = ground arith
  find_from-none t j (suc i) (s ∷ slots) e h =
      find_from-none t (suc j) i slots (ground arith) (omega arith)

  -- If none is found no slot of the array passes the test.
  pub find-none :
      (t : Slot V → Bool) (i : ℕ) (slots : List (Slot V))
      → find t slots ≡ none
      → i < length slots
      → t (get_or slots i d) ≡ false
  unfolding find
  find-none t i slots = find_from-none t 0 i slots

  -- The slot that is found for a key is in use and holds it.
  pub find-holds :
      (k i : ℕ) (slots : List (Slot V))
      → find (holds k) slots ≡ some i
      → ((get_or slots i d).valid ≡ true) × ((get_or slots i d).key ≡ k)
  find-holds k i slots e =
      let (_, t) = find-some (holds k) i slots e in (ground (arith, t), ground (arith, t))
