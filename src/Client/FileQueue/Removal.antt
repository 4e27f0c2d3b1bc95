-- ===== src/Client/FileQueue/Removal.antt =====
-- What a removal from the list of open files of snfs_lib/queue.c takes out and leaves.
use sthreads.Prelude.{
  ℕ, zero, suc, ◌<◌, ◌≡◌, ◌≢◌, inl, inr, refl, sym, ap, ◌∙◌, subst, true, false, Option, none, some,
  [], ◌∷◌, arith, ◌==◌, if◌then◌else◌, length, Bool-cases,
}
use sthreads.Cells.{cell, Heap, put, done}
use sthreads.Cells.Chain.{
  Links, is_in, Chain, ends, links, load-done, Chain-put, EndsAt, no_cell, one_cell, more_cells,
  EndsAt-rest, EndsAt-is_in, put_other, no_links, first_link,
}
use sthreads.Client.FileQueue.{
  FileQueue, queue_create, queue_dequeue, unlink_node, remove_from, queue_node_remove,
}

-- The last address of a chain whose second cell was taken out.
last_after :
    (l p aux x y : ℕ) (cs : Links)
    → EndsAt l ((p, x) ∷ (aux, y) ∷ cs)
    → is_in aux cs ≡ false
    → EndsAt (if l == aux then p else l) ((p, x) ∷ cs)
last_after l p aux x y [] (more_cells one_cell) o =
    let t : (aux == aux) ≡ true = ground arith in rw t one_cell
last_after l p aux x y (d ∷ cs) (more_cells (more_cells e)) o =
    let t : (l == aux) ≡ false = ground (arith, o, EndsAt-is_in e) in rw t (more_cells e)

module _ (ids : ℕ → ℕ) (id : ℕ) where
  -- the first descriptor with the number, and the cells without it
  unfoldable pub first_with : Links → Option ℕ
  first_with [] = none
  first_with ((p, x) ∷ cs) = let rest = first_with cs in if ids x == id then some x else rest

  unfoldable pub without : Links → Links
  without [] = []
  without ((p, x) ∷ cs) = let rest = without cs in if ids x == id then cs else (p, x) ∷ rest

  without-is_in : (a : ℕ) (cs : Links) → is_in a cs ≡ false → is_in a (without cs) ≡ false
  unfolding without
  without-is_in a [] h = refl
  without-is_in a (c ∷ cs) h = ground (arith, without-is_in a cs)

  -- What the loop leaves of the cell `p` and the cells behind it.
  record Removed (h g : Heap) (q q' : FileQueue) (p x : ℕ) (cs : Links) : Type 0 where
    chain : Chain g 0 p ((p, x) ∷ without cs)
    same : (a : ℕ) → a ≢ p → is_in a cs ≡ false → g a ≡ h a
    first_same : q'.first ≡ q.first
    last_at : EndsAt q.last ((p, x) ∷ cs) → EndsAt q'.last ((p, x) ∷ without cs)

  unlink-Removed :
      (h : Heap) (q : FileQueue) (p x aux y next : ℕ) (cs : Links)
      → p ≢ 0
      → h p ≡ some (cell x aux)
      → is_in p ((aux, y) ∷ cs) ≡ false
      → is_in aux cs ≡ false
      → Chain h 0 next cs
      → (ids y == id) ≡ true
      → (g : Heap) × (q' : FileQueue) × (unlink_node p aux (cell y next) q h ≡ done (g, q', some y))
        × Removed h g q q' p x ((aux, y) ∷ cs)
  unfolding unlink_node without put
  unlink-Removed h q p x aux y next cs ne e out out' c hit = (
    put (put h p (some (cell x next))) aux none,
    if q.last == aux then record q { last = p } else q,
    rw (load-done h p ne e) refl,
    record {
      chain = rw hit (
          links ne (ground (arith, out)) (ground (arith, out))
            (Chain-put aux none (Chain-put p (some (cell x next)) c (ground (arith, out))) out'));
      same = λ a d i. ground (arith, d, i);
      first_same = elim (Bool-cases (q.last == aux)) [ inl t ↦ rw t refl | inr t ↦ rw t refl ];
      last_at = λ l. elim (Bool-cases (q.last == aux)) [
        | inl t ↦
            rw (t, hit)
              (subst (λ z. EndsAt z ((p, x) ∷ cs)) (rw t refl)
                (last_after q.last p aux x y cs l out'))
        | inr t ↦
            rw (t, hit)
              (subst (λ z. EndsAt z ((p, x) ∷ cs)) (rw t refl)
                (last_after q.last p aux x y cs l out'))
      ];
    },
  )

  remove_from-Removed :
      (fuel : ℕ) (h : Heap) (q : FileQueue) (p x aux : ℕ) (cs : Links)
      → p ≢ 0
      → h p ≡ some (cell x aux)
      → is_in p cs ≡ false
      → Chain h 0 aux cs
      → length cs < fuel
      → (g : Heap) × (q' : FileQueue) × (remove_from ids fuel p aux id q h
          ≡ done (g, q', first_with cs))
        × Removed h g q q' p x cs
  unfolding remove_from first_with without
  remove_from-Removed zero h q p x aux cs ne e out c f = absurd (omega arith)
  remove_from-Removed (suc fuel) h q p x aux [] ne e out ends f = (
    h,
    q,
    refl,
    record {
      chain = links ne e refl ends;
      same = λ a _ _. refl;
      first_same = refl;
      last_at = λ l. l;
    },
  )
  remove_from-Removed (suc fuel) h q p x aux (_ ∷ cs) ne e out
        (links {q = next} {x = y} ne' e' out' c) f =
      let nz : (aux == 0) ≡ false = ground (arith, ne') in
      let here = load-done h aux ne' e' in
      elim (Bool-cases (ids y == id)) [
        | inl hit ↦
            let (g, q', r, v) = unlink-Removed h q p x aux y next cs ne e out out' c hit in
            (g, q', rw (nz, here, hit) r, v)
        | inr miss ↦
            let (g, q', r, v) =
              remove_from-Removed fuel h q aux y next cs ne' e' out' c (omega arith) in
            (
              g,
              q',
              rw (nz, here, miss) r,
              record {
                chain = rw miss (
                    links ne (v.same p (ground (arith, out)) (ground (arith, out)) ∙ e)
                      (ground (arith, out, without-is_in p cs)) v.chain);
                same = λ a d i. v.same a (ground (arith, i)) (ground (arith, i));
                first_same = v.first_same;
                last_at = λ l. rw miss (more_cells (v.last_at (EndsAt-rest l)));
              },
            )
      ]

-- The queue holds the chain.
pub record IsFileQueue (h : Heap) (q : FileQueue) (cs : Links) : Type 0 where
  pub chain : Chain h 0 q.first cs
  pub last_at : EndsAt q.last cs

dequeue-IsFileQueue :
    (h : Heap) (q : FileQueue) (x next : ℕ) (cs : Links)
    → q.first ≢ 0
    → h q.first ≡ some (cell x next)
    → is_in q.first cs ≡ false
    → Chain h 0 next cs
    → EndsAt q.last ((q.first, x) ∷ cs)
    → (q' : FileQueue) × (queue_dequeue q h ≡ done (put h q.first none, q', some x))
      × IsFileQueue (put h q.first none) q' cs
unfolding queue_dequeue
dequeue-IsFileQueue h q x next cs ne e out c l =
    let nz : (q.first == 0) ≡ false = ground (arith, ne) in
    elim (Bool-cases (q.first == q.last)) [
      | inl t ↦ (
        queue_create,
        rw (nz, load-done h q.first ne e, t) refl,
        alone cs c out l (ground (arith, t)),
      )
      | inr t ↦ (
        record q { first = next },
        rw (nz, load-done h q.first ne e, t) refl,
        record { chain = Chain-put q.first none c out; last_at = EndsAt-rest l },
      )
    ]
  where
    alone :
        (cs : Links)
        → Chain h 0 next cs
        → is_in q.first cs ≡ false
        → EndsAt q.last ((q.first, x) ∷ cs)
        → q.first ≡ q.last
        → IsFileQueue (put h q.first none) queue_create cs
    alone [] c o l t = record { chain = ends; last_at = no_cell }
    alone (d ∷ cs) c o l t = absurd (ground (arith, o, t, EndsAt-is_in (EndsAt-rest l)))

module _ (ids : ℕ → ℕ) (id fuel : ℕ) where
  -- On a queue that holds a chain of cells, with fuel for every cell, queue_node_remove gives
  -- the first descriptor with the number, or NULL, leaves the other cells in their order, and
  -- touches no memory outside of the chain.
  pub queue_node_remove-IsFileQueue :
      (h : Heap) (q : FileQueue) (cs : Links)
      → IsFileQueue h q cs
      → length cs < suc fuel
      → (g : Heap) × (q' : FileQueue) × (queue_node_remove ids fuel (some q) id h
          ≡ done (g, some q', first_with ids id cs))
        × IsFileQueue g q' (without ids id cs)
        × ((a : ℕ) → is_in a cs ≡ false → g a ≡ h a)
  unfolding queue_node_remove first_with without
  queue_node_remove-IsFileQueue h q [] v f =
      let z : (q.first == 0) ≡ true = ground (arith, no_links v.chain) in
      (h, q, rw z refl, v, λ a _. refl)
  queue_node_remove-IsFileQueue h q ((p, x) ∷ cs) v f =
      let (at, ne, next, e, out, c) = first_link v.chain in
      let at' : p ≡ q.first = sym at in
      let ne' : q.first ≢ 0 = λ z. ne (at' ∙ z) in
      let e' : h q.first ≡ some (cell x next) = ap h at ∙ e in
      let out' : is_in q.first cs ≡ false = ap (λ a. is_in a cs) at ∙ out in
      let nz : (q.first == 0) ≡ false = ground (arith, ne') in
      let here = load-done h q.first ne' e' in
      elim (Bool-cases (ids x == id)) [
        | inl hit ↦
            let l : EndsAt q.last ((q.first, x) ∷ cs) =
              subst (λ a. EndsAt q.last ((a, x) ∷ cs)) at' v.last_at in
            let (q', r, w) = dequeue-IsFileQueue h q x next cs ne' e' out' c l in
            (
              put h q.first none,
              q',
              rw (nz, here, hit, r) refl,
              rw hit w,
              λ a i. put_other h q.first none a (λ d. absurd (ground (arith, i, d, at))),
            )
        | inr miss ↦
            let (g, q', r, w) =
              remove_from-Removed ids id fuel h q q.first x next cs ne' e' out' c (omega arith) in
            (
              g,
              q',
              rw (nz, here, miss, r) refl,
              rw miss (record {
                chain =
                    subst (λ a. Chain g 0 a ((p, x) ∷ without ids id cs)) (sym w.first_same)
                      (subst (λ a. Chain g 0 q.first ((a, x) ∷ without ids id cs)) (sym at')
                        w.chain);
                last_at =
                    subst (λ a. EndsAt q'.last ((a, x) ∷ without ids id cs)) (sym at')
                      (w.last_at (subst (λ a. EndsAt q.last ((a, x) ∷ cs)) at' v.last_at));
              }),
              λ a i. w.same a (λ d. absurd (ground (arith, i, d, at))) (ground (arith, i)),
            )
      ]
