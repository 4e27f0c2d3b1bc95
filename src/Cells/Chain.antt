-- ===== src/Cells/Chain.antt =====
-- Chains of cells, and what a write to memory leaves of them.
use sthreads.Prelude.{
  ℕ, ◌≡◌, ◌≢◌, refl, ap, Bool, true, false, ◌||◌, Option, some, List, [], ◌∷◌, ◌++◌, arith, ◌==◌,
}
use native.Mathlib.Decide.{ℕ_discrete}
use sthreads.Cells.{Cell, cell, Heap, put, done, load}

-- the addresses of a chain with their items, from first to last
abbrev pub Links : Type 0
Links = List (ℕ × ℕ)

abbrev pub is_in : ℕ → Links → Bool
is_in a [] = false
is_in a ((p, x) ∷ cs) = p == a || is_in a cs

abbrev pub items : Links → List ℕ
items [] = []
items ((p, x) ∷ cs) = x ∷ items cs

-- From `p` the cells lead through the distinct addresses `cs` to `stop`.
pub data Chain (h : Heap) (stop : ℕ) : ℕ → Links → Type 0 where
  ends : Chain h stop stop []
  links :
      {p q x : ℕ} {cs : Links}
      → p ≢ 0
      → h p ≡ some (cell x q)
      → is_in p cs ≡ false
      → Chain h stop q cs
      → Chain h stop p ((p, x) ∷ cs)

pub load-done : (h : Heap) (p : ℕ) {c : Cell} → p ≢ 0 → h p ≡ some c → load h p ≡ done c
unfolding load
load-done h p ne e = ground arith

module _ {h : Heap} where
  -- A chain lies as it did where memory is as it was.
  pub Chain-same :
      {g : Heap} {stop p : ℕ} {cs : Links}
      → Chain h stop p cs
      → ((a : ℕ) → is_in a cs ≡ true → g a ≡ h a)
      → Chain g stop p cs
  Chain-same ends same = ends
  Chain-same (links {p} ne e out c) same =
      links ne (ground (arith, same p)) out (Chain-same c (λ a i. same a (ground arith)))

  pub Chain-put :
      {stop p : ℕ} {cs : Links} (a : ℕ) (c : Option Cell)
      → Chain h stop p cs
      → is_in a cs ≡ false
      → Chain (put h a c) stop p cs
  unfolding put
  Chain-put {cs = cs} a c s out = Chain-same s (λ b i. elim (ℕ_discrete b a) [
    | yes e ↦ absurd (cc (i, out, ap (λ x. is_in x cs) e))
    | no ne ↦ ground arith
  ])

pub is_in-append : (a : ℕ) (cs ds : Links) → is_in a (cs ++ ds) ≡ (is_in a cs || is_in a ds)
is_in-append a [] ds = refl
is_in-append a (c ∷ cs) ds = ground (arith, is_in-append a cs ds)

-- A chain with a cell behind it: the cell before was the last.
pub Chain-append :
    {h : Heap} {stop mid p : ℕ} {ds cs : Links}
    → Chain h mid p cs
    → Chain h stop mid ds
    → ((a : ℕ) → is_in a cs ≡ true → is_in a ds ≡ false)
    → Chain h stop p (cs ++ ds)
Chain-append ends t apart = t
Chain-append {ds = ds} (links {p} {cs = cs} ne e out c) t apart =
    links ne e (ground (arith, is_in-append p cs ds, out, apart p))
      (Chain-append c t (λ a i. apart a (ground arith)))

-- A chain up to its last cell, and that cell.
pub Chain-split :
    {h : Heap} {stop p : ℕ} (cs : Links) {z x : ℕ}
    → Chain h stop p (cs ++ (z, x) ∷ [])
    → Chain h z p cs × (z ≢ 0) × (h z ≡ some (cell x stop)) × (is_in z cs ≡ false)
Chain-split [] (links ne e out ends) = (ends, ne, e, refl)
Chain-split ((p, y) ∷ cs) {z} {x} (links ne e out c) =
    let (a, b, d, f) = Chain-split cs c in
    let g = is_in-append p cs ((z, x) ∷ []) in
    (links ne e (ground (arith, g, out)) a, b, d, ground (arith, g, out, f))

pub items-append : (cs ds : Links) → items (cs ++ ds) ≡ items cs ++ items ds
items-append [] ds = refl
items-append ((p, x) ∷ cs) ds = ap (λ xs. x ∷ xs) (items-append cs ds)

-- The last address of the chain, if it has one, is `l`.
pub data EndsAt (l : ℕ) : Links → Type 0 where
  no_cell : EndsAt l []
  one_cell : {x : ℕ} → EndsAt l ((l, x) ∷ [])
  more_cells : {c d : ℕ × ℕ} {cs : Links} → EndsAt l (d ∷ cs) → EndsAt l (c ∷ d ∷ cs)

pub EndsAt-rest : {l : ℕ} {c : ℕ × ℕ} {cs : Links} → EndsAt l (c ∷ cs) → EndsAt l cs
EndsAt-rest one_cell = no_cell
EndsAt-rest (more_cells e) = e

pub put_self : (h : Heap) (p : ℕ) (c : Option Cell) → put h p c p ≡ c
unfolding put
put_self h p c = ground arith

pub put_other : (h : Heap) (p : ℕ) (c : Option Cell) (a : ℕ) → a ≢ p → put h p c a ≡ h a
unfolding put
put_other h p c a d = ground (arith, d)

-- The last address is one of the chain.
pub EndsAt-is_in : {l : ℕ} {c : ℕ × ℕ} {cs : Links} → EndsAt l (c ∷ cs) → is_in l (c ∷ cs) ≡ true
EndsAt-is_in one_cell = ground arith
EndsAt-is_in (more_cells e) = ground (arith, EndsAt-is_in e)

pub no_links : {h : Heap} {stop p : ℕ} → Chain h stop p [] → p ≡ stop
no_links ends = refl

pub first_link :
    {h : Heap} {stop a p t : ℕ} {cs : Links}
    → Chain h stop a ((p, t) ∷ cs)
    → (a ≡ p)
      × (p ≢ 0)
      × (next : ℕ) × (h p ≡ some (cell t next))
      × (is_in p cs ≡ false)
      × Chain h stop next cs
first_link (links ne e out c) = (refl, ne, _, e, out, c)
