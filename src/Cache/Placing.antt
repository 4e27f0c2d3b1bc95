-- ===== src/Cache/Placing.antt =====
-- A slot of a cache of snfs_server/fs.c is written. Every operation of the caches does this, with
-- a change of the store behind the cache in the case of a write-back.
use sthreads.Prelude.{
  ℕ, ◌<◌, ◌≡◌, ◌≢◌, refl, sym, true, false, List, inl, inr, length, set, ap, ◌∙◌, subst,
}
use native.Mathlib.Decide.{ℕ_discrete}
use sthreads.Cache.{Slot}
use sthreads.Cache.Coherence.{
  at, view, Coherent, at-set_self, at-set_ne, view_held, view_missing, held_cases,
}

-- The slot `s` may be put at `i`: no other slot holds its key, it agrees with the new store if it is
-- clean, the new store differs at its key only, and what stood at `i` is saved or has the key too.
pub record MayPlace {ℓ} {V : Type ℓ} (v : V) (n : ℕ) (store store' : ℕ → V) (slots : List (Slot V))
    (i : ℕ) (s : Slot V) : Type ℓ where
  pub in_array : i < length slots
  pub is_valid : s.valid ≡ true
  pub key_in : s.key < n
  pub alone : (j : ℕ) → j ≢ i → (at v slots j).valid ≡ true → (at v slots j).key ≢ s.key
  pub fresh : s.dirty ≡ false → s.content ≡ store' s.key
  pub kept : (c : ℕ) → c < n → c ≢ s.key → store' c ≡ store c
  pub unsaved :
      (at v slots i).valid ≡ true
      → (at v slots i).key ≢ s.key
      → (at v slots i).content ≡ store (at v slots i).key

module _ {ℓ} {V : Type ℓ} (v : V) {n : ℕ} {store store' : ℕ → V} (slots : List (Slot V)) (i : ℕ)
    (s : Slot V) (c : Coherent v n store slots) (m : MayPlace v n store store' slots i s) where
  -- A slot of the new array is the new slot, or one that stood elsewhere.
  placed {κ} :
      (P : ℕ → Slot V → Type κ)
      → P i s
      → ((j : ℕ) → j ≢ i → P j (at v slots j))
      → (j : ℕ) → P j (at v (set slots i s) j)
  placed P here there j = elim (ℕ_discrete j i) [
    | yes e ↦
        subst (λ k. P k (at v (set slots i s) k)) (sym e)
          (rw (at-set_self v slots i s m.in_array) here)
    | no e ↦ rw (at-set_ne v slots i j s (λ x. e (sym x))) (there j e)
  ]

  pub place-Coherent : Coherent v n store' (set slots i s)
  place-Coherent = record {
    distinct = λ j k.
        placed
          (λ j a.
            a.valid ≡ true
            → (at v (set slots i s) k).valid ≡ true
            → a.key ≡ (at v (set slots i s) k).key
            → j ≡ k)
          (placed (λ k b. s.valid ≡ true → b.valid ≡ true → s.key ≡ b.key → i ≡ k) (λ _ _ _. refl)
            (λ k ne _ h e. absurd (m.alone k ne h (sym e))) k)
          (λ j ne.
            placed
              (λ k b.
                (at v slots j).valid ≡ true → b.valid ≡ true → (at v slots j).key ≡ b.key → j ≡ k)
              (λ h _ e. absurd (m.alone j ne h e)) (λ k _ h h' e. c.distinct j k h h' e) k)
          j;
    inside = placed (λ j a. a.valid ≡ true → a.key < n) (λ _. m.key_in) (λ j _ h. c.inside j h);
    saved =
        placed (λ j a. a.valid ≡ true → a.dirty ≡ false → a.content ≡ store' a.key) (λ _. m.fresh)
          (λ j ne h h'. c.saved j h h' ∙ sym (m.kept _ (c.inside j h) (m.alone j ne h)));
  }

  -- The new slot is shown at its key.
  pub place-view_self : view v store' (set slots i s) s.key ≡ s.content
  place-view_self =
      let here : at v (set slots i s) i ≡ s = at-set_self v slots i s m.in_array in
      view_held v (set slots i s) i s.key place-Coherent (ap (λ a. a.valid) here ∙ m.is_valid)
        (ap (λ a. a.key) here)
      ∙ ap (λ a. a.content) here

  missing_after :
      (k : ℕ)
      → k ≢ s.key
      → ((j : ℕ) → j ≢ i → (at v slots j).valid ≡ true → (at v slots j).key ≢ k)
      → view v store' (set slots i s) k ≡ store' k
  missing_after k ne others =
      view_missing v store' (set slots i s) k
        (placed (λ j a. a.valid ≡ true → a.key ≢ k) (λ _ e. ne (sym e)) others)

  -- Every other key shows what it showed.
  pub place-view_ne :
      (k : ℕ) → k < n → k ≢ s.key → view v store' (set slots i s) k ≡ view v store slots k
  place-view_ne k h ne = elim (held_cases v slots k) [
    | inr none_holds ↦
        missing_after k ne (λ j _. none_holds j)
        ∙ m.kept k h ne
        ∙ sym (view_missing v store slots k none_holds)
    | inl (j, ok, e) ↦ elim (ℕ_discrete j i) [
      | yes same ↦
          missing_after k ne (λ x x≢i hx ex. x≢i (c.distinct x j hx ok (ex ∙ sym e) ∙ same))
          ∙ m.kept k h ne
          ∙ sym (held_saved j ok e same)
          ∙ sym (view_held v slots j k c ok e)
      | no other ↦
          let there : at v (set slots i s) j ≡ at v slots j =
            at-set_ne v slots i j s (λ x. other (sym x)) in
          view_held v (set slots i s) j k place-Coherent (ap (λ a. a.valid) there ∙ ok)
            (ap (λ a. a.key) there ∙ e)
          ∙ ap (λ a. a.content) there
          ∙ sym (view_held v slots j k c ok e)
    ]
  ]
    where
      held_saved :
          (j : ℕ)
          → (at v slots j).valid ≡ true
          → (at v slots j).key ≡ k
          → j ≡ i
          → (at v slots j).content ≡ store k
      held_saved j ok e same =
          subst
            (λ x.
              (at v slots x).valid ≡ true
              → (at v slots x).key ≡ k
              → (at v slots x).content ≡ store k)
            (sym same) (λ okx ex. m.unsaved okx (λ q. ne (sym ex ∙ q)) ∙ ap store ex) ok e
