-- ===== src/Sched/ThreadQueue/Refinement.antt =====
-- The linked queues of sthread_lib/queue.c hold the lists that the scheduler's model works on.
use sthreads.Prelude.{
  ℕ, ◌≡◌, ◌≢◌, ◌⊎◌, inl, inr, refl, sym, ap, ◌∙◌, subst, true, false, none, some, [], ◌∷◌, ◌++◌,
  arith, ◌==◌, Bool-cases,
}
use native.Mathlib.Decide.{ℕ_discrete}
use sthreads.Cells.{Cell, cell, Heap, put, done, load}
use sthreads.Cells.Chain.{
  Links, is_in, Chain, ends, links, load-done, Chain-put, Chain-append, Chain-split, is_in-append,
  EndsAt, no_cell, one_cell, more_cells, EndsAt-rest, no_links, first_link, put_self, put_other,
}
use sthreads.Sched.ThreadQueue.{ThreadQueue, Store, new_element, queue_insert, queue_remove}

EndsAt-append : (l x : ℕ) (cs : Links) → EndsAt l (cs ++ (l, x) ∷ [])
EndsAt-append l x [] = one_cell
EndsAt-append l x (c ∷ []) = more_cells one_cell
EndsAt-append l x (c ∷ d ∷ cs) = more_cells (EndsAt-append l x (d ∷ cs))

EndsAt-cases :
    {l : ℕ} (cs : Links)
    → EndsAt l cs
    → (cs ≡ []) ⊎ ((ds : Links) × (x : ℕ) × (cs ≡ ds ++ (l, x) ∷ []))
EndsAt-cases [] no_cell = inl refl
EndsAt-cases (c ∷ []) (one_cell {x}) = inr ([], x, refl)
EndsAt-cases (c ∷ d ∷ cs) (more_cells e) = elim (EndsAt-cases (d ∷ cs) e) [
  | inl q ↦ inr (absurd (cc q))
  | inr (ds, x, q) ↦ inr (c ∷ ds, x, ap (λ z. c ∷ z) q)
]

-- The queue holds the chain `cs`.
pub record IsQueue (s : Store) (q : ThreadQueue) (cs : Links) : Type 0 where
  pub chain : Chain s.heap 0 q.first cs
  pub last_at : EndsAt q.last cs

-- The cell that is kept, if one is, is in memory and not in the chain.
pub data Spared (s : Store) (cs : Links) : Type 0 where
  no_spare : s.empty_element_ptr ≡ 0 → Spared s cs
  a_spare :
      (c : Cell)
      → s.heap s.empty_element_ptr ≡ some c
      → is_in s.empty_element_ptr cs ≡ false
      → Spared s cs

not_in :
    {h : Heap} {stop p : ℕ} {cs : Links} (a : ℕ)
    → Chain h stop p cs
    → h a ≡ none
    → is_in a cs ≡ false
not_in a ends e = refl
not_in a (links {p} ne e' out c) e = elim (ℕ_discrete p a) [
  | yes q ↦ absurd (cc (e, e', q))
  | no ne ↦ ground (arith, not_in a c e)
]

new_element-done :
    (fresh : ℕ) (s : Store) (q : ThreadQueue) (cs : Links)
    → IsQueue s q cs
    → Spared s cs
    → fresh ≢ 0
    → s.heap fresh ≡ none
    → (n : ℕ) × (new_element fresh s ≡ done n) × (n ≢ 0) × (is_in n cs ≡ false)
unfolding new_element
new_element-done fresh s q cs v (no_spare e) ne f =
    (fresh, ground (arith, e, ne), ne, not_in fresh v.chain f)
new_element-done fresh s q cs v (a_spare c e out) ne f = elim (ℕ_discrete s.empty_element_ptr 0) [
  | yes z ↦ (fresh, ground (arith, z, ne), ne, not_in fresh v.chain f)
  | no nz ↦
      let t : (s.empty_element_ptr == 0) ≡ false = ground (arith, nz) in
      (s.empty_element_ptr, rw (t, load-done s.heap s.empty_element_ptr nz e) refl, nz, out)
]

some_links :
    {h : Heap} {stop p : ℕ} (ds : Links) (c : ℕ × ℕ) → Chain h stop p (ds ++ c ∷ []) → p ≢ 0
some_links [] k (links ne e out c) = ne
some_links (d ∷ ds) k (links ne e out c) = ne

module _ (s : Store) (q : ThreadQueue) (fresh t : ℕ) where
  -- What an insert with the cell `n` leaves.
  unfoldable pub Inserted : Links → ℕ → Store × ThreadQueue → Type 0
  Inserted cs n (s', q') =
      (queue_insert fresh t q s ≡ done (s', q'))
      × IsQueue s' q' (cs ++ (n, t) ∷ [])
      × (s'.empty_element_ptr ≡ 0)
      × ((a : ℕ) → a ≢ n → is_in a cs ≡ false → s'.heap a ≡ s.heap a)

  insert_first :
      (n : ℕ)
      → new_element fresh s ≡ done n
      → n ≢ 0
      → q.first ≡ 0
      → Inserted [] n (
        record { heap = put s.heap n (some (cell t 0)); empty_element_ptr = 0 },
        record { first = n; last = n },
      )
  unfolding queue_insert Inserted put
  insert_first n e ne z =
      let b : (q.first == 0) ≡ true = ground (arith, z) in
      (
        rw (e, b) refl,
        record { chain = links ne (ground arith) refl ends; last_at = one_cell },
        refl,
        λ a d _. ground (arith, d),
      )

  insert_behind :
      (n x : ℕ) (ds : Links)
      → new_element fresh s ≡ done n
      → n ≢ 0
      → is_in n (ds ++ (q.last, x) ∷ []) ≡ false
      → Chain s.heap 0 q.first (ds ++ (q.last, x) ∷ [])
      → q.first ≢ 0
      → Inserted (ds ++ (q.last, x) ∷ []) n (
        record {
          heap = put (put s.heap n (some (cell t 0))) q.last (some (cell x n));
          empty_element_ptr = 0;
        },
        record q { last = n },
      )
  unfolding queue_insert Inserted put
  insert_behind n x ds e ne out c nz =
      let (front, lz, le, lo) = Chain-split ds c in
      let g = is_in-append n ds ((q.last, x) ∷ []) in
      let apart : n ≢ q.last = λ d. absurd (ground (arith, g, out, d)) in
      let b : (q.first == 0) ≡ false = ground (arith, nz) in
      let h1 = put s.heap n (some (cell t 0)) in
      let h2 = put h1 q.last (some (cell x n)) in
      let kept : h1 q.last ≡ some (cell x 0) = ground (arith, apart, le) in
      let at_last : h2 q.last ≡ some (cell x n) = ground arith in
      let at_new : h2 n ≡ some (cell t 0) = ground (arith, apart) in
      let front' : Chain h2 q.last q.first ds =
        Chain-put q.last (some (cell x n))
          (Chain-put n (some (cell t 0)) front (ground (arith, g, out))) lo in
      let through : Chain h2 n q.first (ds ++ (q.last, x) ∷ []) =
        Chain-append front' (links lz at_last refl ends) (λ a i. elim (ℕ_discrete q.last a) [
          | yes d ↦ absurd (cc (i, lo, ap (λ z. is_in z ds) d))
          | no d ↦ ground (arith, d)
        ]) in
      (
        rw (e, b, load-done h1 q.last lz kept) refl,
        record {
          chain = Chain-append through (links ne at_new refl ends) (λ a i. elim (ℕ_discrete n a) [
            | yes d ↦ absurd (cc (i, out, ap (λ z. is_in z (ds ++ (q.last, x) ∷ [])) d))
            | no d ↦ ground (arith, d)
          ]);
          last_at = EndsAt-append n t (ds ++ (q.last, x) ∷ []);
        },
        refl,
        λ a d i. elsewhere a d (ground (arith, is_in-append a ds ((q.last, x) ∷ []), i)),
      )
    where
      elsewhere :
          (a : ℕ)
          → a ≢ n
          → a ≢ q.last
          → put (put s.heap n (some (cell t 0))) q.last (some (cell x n)) a ≡ s.heap a
      elsewhere a d d' = ground (arith, d, d')

  -- On a queue that holds a chain of cells, with the cell that is kept, if one is, in memory
  -- and outside of the chain, and with what malloc returns a new cell, queue_insert takes the
  -- cell that is kept or the new one and puts it with the thread behind the chain, keeps no
  -- cell, and touches no other memory outside of the chain.
  pub queue_insert-IsQueue :
      (cs : Links)
      → IsQueue s q cs
      → Spared s cs
      → fresh ≢ 0
      → s.heap fresh ≡ none
      → (n : ℕ) × (r : Store × ThreadQueue) × Inserted cs n r
  queue_insert-IsQueue cs v sp ne f =
      let (n, e, nz, out) = new_element-done fresh s q cs v sp ne f in
      elim (EndsAt-cases cs v.last_at) [
        | inl z ↦
            let c : Chain s.heap 0 q.first [] = subst (Chain s.heap 0 q.first) z v.chain in
            subst (λ cs. (n : ℕ) × (r : Store × ThreadQueue) × Inserted cs n r) (sym z)
              (n, _, insert_first n e nz (no_links c))
        | inr (ds, x, z) ↦
            let c : Chain s.heap 0 q.first (ds ++ (q.last, x) ∷ []) =
              subst (Chain s.heap 0 q.first) z v.chain in
            let o : is_in n (ds ++ (q.last, x) ∷ []) ≡ false =
              subst (λ cs. is_in n cs ≡ false) z out in
            subst (λ cs. (n : ℕ) × (r : Store × ThreadQueue) × Inserted cs n r) (sym z)
              (n, _, insert_behind n x ds e nz o c (some_links ds (q.last, x) c))
      ]

-- The cell that a remove of the cell `p` keeps: the one that was kept before it, and then `p` is
-- freed, else `p`.
abbrev pub Keeps : ℕ → Store → Store → Type 0
Keeps p s s' =
    ((s.empty_element_ptr ≡ 0) × (s'.empty_element_ptr ≡ p))
    ⊎ ((s.empty_element_ptr ≢ 0)
        × (s'.empty_element_ptr ≡ s.empty_element_ptr)
        × (s'.heap p ≡ none))

-- On a queue that holds a chain of cells that is not empty, with the cell that is kept, if one
-- is, in memory and outside of the chain, queue_remove gives the first thread, leaves the rest of
-- the chain, keeps the cell that was kept and frees the one removed, or, if none was kept, keeps
-- the one removed, in memory and outside of the chain, and changes no memory but the cell
-- removed.
pub queue_remove-IsQueue :
    (s : Store) (q : ThreadQueue) (p t : ℕ) (cs : Links)
    → IsQueue s q ((p, t) ∷ cs)
    → Spared s ((p, t) ∷ cs)
    → (s' : Store) × (q' : ThreadQueue) × (queue_remove q s ≡ done (s', q', t))
      × IsQueue s' q' cs
      × Spared s' cs
      × Keeps p s s'
      × ((a : ℕ) → a ≢ p → s'.heap a ≡ s.heap a)
unfolding queue_remove
queue_remove-IsQueue s q p t cs v sp =
    let (at, ne, next, e, out, c) = first_link v.chain in
    let here : load s.heap q.first ≡ done (cell t next) =
      ap (load s.heap) at ∙ load-done s.heap p ne e in
    elim (Bool-cases (s.empty_element_ptr == 0)) [
      | inl z ↦ (
        record { heap = put s.heap q.first (some (cell 0 0)); empty_element_ptr = q.first },
        record q { first = next },
        rw (here, z) refl,
        record {
          chain =
              Chain-put q.first (some (cell 0 0)) c (subst (λ a. is_in a cs ≡ false) (sym at) out);
          last_at = EndsAt-rest v.last_at;
        },
        a_spare (cell 0 0) (put_self s.heap q.first (some (cell 0 0)))
            (subst (λ a. is_in a cs ≡ false) (sym at) out),
        inl (ground (arith, z), at),
        λ a d. put_other s.heap q.first (some (cell 0 0)) a (λ x. d (x ∙ at)),
      )
      | inr z ↦ (
        record s { heap = put (put s.heap q.first (some (cell 0 0))) q.first none },
        record q { first = next },
        rw (here, z) refl,
        record {
          chain =
              Chain-put q.first none
                (Chain-put q.first (some (cell 0 0)) c
                  (subst (λ a. is_in a cs ≡ false) (sym at) out))
                (subst (λ a. is_in a cs ≡ false) (sym at) out);
          last_at = EndsAt-rest v.last_at;
        },
        kept_spare z at sp,
        inr (
          (λ w. absurd (ground (arith, z, w))),
          refl,
          subst (λ a. put (put s.heap q.first (some (cell 0 0))) q.first none a ≡ none) at
              (put_self (put s.heap q.first (some (cell 0 0))) q.first none),
        ),
        λ a d. freed a (λ x. d (x ∙ at)),
      )
    ]
  where
    freed :
        (a : ℕ) → a ≢ q.first → put (put s.heap q.first (some (cell 0 0))) q.first none a ≡ s.heap a
    freed a d =
        put_other (put s.heap q.first (some (cell 0 0))) q.first none a d
        ∙ put_other s.heap q.first (some (cell 0 0)) a d

    kept_spare :
        (s.empty_element_ptr == 0) ≡ false
        → q.first ≡ p
        → Spared s ((p, t) ∷ cs)
        → Spared (record s { heap = put (put s.heap q.first (some (cell 0 0))) q.first none }) cs
    kept_spare z at (no_spare e) = absurd (ground (arith, z, e))
    kept_spare z at (a_spare k e o) =
        a_spare k (freed s.empty_element_ptr (λ d. absurd (ground (arith, o, d, at))) ∙ e)
          (ground (arith, o))
