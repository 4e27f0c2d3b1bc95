-- ===== src/Server/Ring/Fifo.antt =====
-- The buffer of requests of snfs_server/server.c is a queue of at most ten requests.
use sthreads.Prelude.{
  ℕ, zero, suc, ◌+◌, ◌-◌, ◌%◌, ◌<◌, ◌≤◌, ◌≡◌, ◌≢◌, ◌⊎◌, inl, inr, Bool-cases, refl, sym, ap, ◌∙◌,
  none, some, List, [], ◌∷◌, ◌++◌, arith, length, ◌==◌, get_or, set, length-set, get_or-set_self,
  get_or-set_ne,
}
use sthreads.Server.Ring.{Ring, get_req, put_req, consume, produce}

-- The next place to put is the one behind the requests that are there.
pub record IsRing {ℓ} {A : Type ℓ} (r : Ring A) : Type 0 where
  pub size : length r.ring ≡ 10
  pub get_in : r.get_pos < 10
  pub put_at : r.put_pos ≡ (r.get_pos + r.available_reqs) % 10
  pub bounded : r.available_reqs ≤ 10

module _ {ℓ} {A : Type ℓ} (null : A) where
  -- The `n` requests from `pos` on, in their order.
  unfoldable pub window : List A → ℕ → ℕ → List A
  window ring pos zero = []
  window ring pos (suc n) = window ring pos n ++ (get_or ring ((pos + n) % 10) null ∷ [])

  unfoldable pub contents : Ring A → List A
  contents r = window r.ring r.get_pos r.available_reqs

  window-set :
      (ring : List A) (pos q n : ℕ) (x : A)
      → ((i : ℕ) → i < n → q ≢ (pos + i) % 10)
      → window (set ring q x) pos n ≡ window ring pos n
  unfolding window
  window-set ring pos q zero x h = refl
  window-set ring pos q (suc n) x h = rw (
    window-set ring pos q n x (λ i l. h i (omega arith)),
    get_or-set_ne ring q ((pos + n) % 10) x null (h n (omega arith)),
  )

  window_head :
      (ring : List A) (pos n : ℕ)
      → pos < 10
      → window ring pos (suc n) ≡ get_or ring pos null ∷ window ring ((pos + 1) % 10) n
  unfolding window
  window_head ring pos zero h = ap (λ i. get_or ring i null ∷ []) (omega arith)
  window_head ring pos (suc n) h =
      let e : (pos + suc n) % 10 ≡ ((pos + 1) % 10 + n) % 10 = omega arith in
      rw (window_head ring pos n h, e)

  -- On a well-formed ring the producer waits when ten requests stand in it, and otherwise puts
  -- its request behind the others and keeps the ring well-formed.
  pub produce-contents :
      (x : A) (r : Ring A)
      → IsRing r
      → ((r.available_reqs ≡ 10) × (produce null x r ≡ none))
        ⊎ ((r' : Ring A) × (produce null x r ≡ some r')
            × IsRing r'
            × (contents r' ≡ contents r ++ (x ∷ [])))
  unfolding produce put_req contents window
  produce-contents x r v = elim (Bool-cases (r.available_reqs == 10)) [
    | inl e ↦ inl (ground (arith, e), rw e refl)
    | inr e ↦
        let lt : r.available_reqs < 10 = ground (arith, e, v.bounded) in
        let kept : window (set r.ring r.put_pos x) r.get_pos r.available_reqs ≡ contents r =
          window-set r.ring r.get_pos r.put_pos r.available_reqs x
            (λ i l h. absurd (omega (arith, v.put_at, v.get_in, lt, h))) in
        let last : get_or (set r.ring r.put_pos x) ((r.get_pos + r.available_reqs) % 10) null ≡ x =
          ap (λ i. get_or (set r.ring r.put_pos x) i null) (sym v.put_at)
          ∙ get_or-set_self r.ring r.put_pos x null (omega (arith, v.put_at, v.size)) in
        let more : r.available_reqs + 1 ≡ suc r.available_reqs = omega arith in
        inr (
          record {
            ring = set r.ring r.put_pos x;
            get_pos = r.get_pos;
            put_pos = (r.put_pos + 1) % 10;
            available_reqs = r.available_reqs + 1;
          },
          rw e refl,
          record {
            size = length-set r.ring r.put_pos x ∙ v.size;
            get_in = v.get_in;
            put_at = omega (arith, v.put_at);
            bounded = omega arith;
          },
          ap (λ n. window (set r.ring r.put_pos x) r.get_pos n) more ∙ rw (kept, last) refl,
        )
  ]

  -- On a well-formed ring the consumer waits when no request stands in it, and otherwise takes
  -- the first one, leaves the others and keeps the ring well-formed.
  pub consume-contents :
      (r : Ring A)
      → IsRing r
      → ((contents r ≡ []) × (consume null r ≡ none))
        ⊎ ((x : A) × (r' : Ring A) × (consume null r ≡ some (x, r'))
            × IsRing r'
            × (contents r ≡ x ∷ contents r'))
  unfolding consume get_req contents window
  consume-contents r v = elim (Bool-cases (r.available_reqs == 0)) [
    | inl e ↦
        let z : r.available_reqs ≡ 0 = ground (arith, e) in
        inl (ap (window r.ring r.get_pos) z, rw e refl)
    | inr e ↦
        let pred : r.available_reqs ≡ suc (r.available_reqs - 1) = ground (arith, e) in
        inr (
          get_or r.ring r.get_pos null,
          record {
            ring = r.ring;
            get_pos = (r.get_pos + 1) % 10;
            put_pos = r.put_pos;
            available_reqs = r.available_reqs - 1;
          },
          rw e refl,
          record {
            size = v.size;
            get_in = omega arith;
            put_at = omega (arith, v.put_at, pred);
            bounded = omega (arith, v.bounded);
          },
          ap (window r.ring r.get_pos) pred
              ∙ window_head r.ring r.get_pos (r.available_reqs - 1) v.get_in,
        )
  ]
