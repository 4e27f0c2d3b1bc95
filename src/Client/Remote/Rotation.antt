-- ===== src/Client/Remote/Rotation.antt =====
-- Which servers the calls of remote_call of snfs_lib/snfs_api.c to one server ask.
use sthreads.Prelude.{
  ℕ, suc, ◌+◌, ◌%◌, ◌^◌, ◌<◌, ◌≡◌, refl, sym, ap, ◌∙◌, Bool, true, false, List, [], ◌∷◌, ◌++◌,
  arith, min, ◌==◌, append-nil, append_assoc,
}
use native.Mathlib.Nat.{mod-mod, mod-add-mod, mod-eq_of_lt, mod-lt}
use sthreads.Server.Protocol.{Request}
use sthreads.Client.Remote.{Conn, send_to, call_some, remote_call}

-- The servers from the place `i` on, in turn, under the numbers from `sn` on.
unfoldable pub in_turn : (n i sn : ℕ) → List Request → List (ℕ × ℕ × Request)
in_turn n i sn [] = []
in_turn n i sn (req ∷ reqs) = (i % n, sn % 2 ^ 32, req) ∷ in_turn n (suc i) (suc sn) reqs

module _ (sends : ℕ → Bool) where
  -- one call after the other
  unfoldable pub reads : List Request → Conn → Conn
  reads [] c = c
  reads (req ∷ reqs) c = reads reqs (remote_call sends false req c).0

  -- what one of them leaves
  record Asked (c c' : Conn) (at i : ℕ) (req : Request) : Type 0 where
    sent_to : c'.sent ≡ c.sent ++ (at, c.next_sn, req) ∷ []
    next_place : c'.rr_index ≡ suc i % c.num_servers
    next_number : c'.next_sn ≡ (c.next_sn + 1) % 2 ^ 32
    same_servers : c'.num_servers ≡ c.num_servers

  remote_call-Asked :
      (req : Request) (c : Conn) (i : ℕ)
      → 0 < c.num_servers
      → sends (i % c.num_servers) ≡ true
      → c.rr_index ≡ i % c.num_servers
      → Asked c (remote_call sends false req c).0 (i % c.num_servers) i req
  unfolding remote_call call_some send_to
  remote_call-Asked req c i z ok r =
      let n = c.num_servers in
      let some_server : (n == 0) ≡ false = ground (arith, z) in
      let one : min 1 n ≡ 1 = omega (arith, z) in
      let at : (c.rr_index + 0) % n ≡ i % n =
        ap (λ k. k % n) (omega arith) ∙ ap (λ k. k % n) r ∙ mod-mod i n in
      let next : (c.rr_index + 1) % n ≡ suc i % n =
        ap (λ k. (k + 1) % n) r ∙ mod-add-mod i n 1 ∙ ap (λ k. k % n) (omega arith) in
      rw (some_server, one, at, ok)
        (record { sent_to = refl; next_place = next; next_number = refl; same_servers = refl })

  reads-in_turn_from :
      (reqs : List Request) (c : Conn) (i sn : ℕ)
      → 0 < c.num_servers
      → ((j : ℕ) → j < c.num_servers → sends j ≡ true)
      → c.rr_index ≡ i % c.num_servers
      → c.next_sn ≡ sn % 2 ^ 32
      → (reads reqs c).sent ≡ c.sent ++ in_turn c.num_servers i sn reqs
  unfolding reads in_turn
  reads-in_turn_from [] c i sn z h r t = sym (append-nil c.sent)
  reads-in_turn_from (req ∷ reqs) c i sn z h r t =
      let n = c.num_servers in
      let v = remote_call-Asked req c i z (h (i % n) (mod-lt i z)) r in
      let c' = (remote_call sends false req c).0 in
      reads-in_turn_from reqs c' (suc i) (suc sn) (omega (arith, z, v.same_servers))
        (λ j l. h j (omega (arith, l, v.same_servers)))
        (v.next_place ∙ ap (λ m. suc i % m) (sym v.same_servers)) (v.next_number ∙ omega (arith, t))
      ∙ ap (λ m. c'.sent ++ in_turn m (suc i) (suc sn) reqs) v.same_servers
      ∙ ap (λ l. l ++ in_turn n (suc i) (suc sn) reqs) v.sent_to
      ∙ append_assoc c.sent ((i % n, c.next_sn, req) ∷ []) _
      ∙ ap (λ k. c.sent ++ (i % n, k, req) ∷ in_turn n (suc i) (suc sn) reqs) t

  -- If the place for the next read is one of the servers, the next number has 32 bits and every
  -- send succeeds, reads one after the other ask the servers in turn, one each, under
  -- consecutive numbers of 32 bits.
  pub reads-in_turn :
      (reqs : List Request) (c : Conn)
      → c.rr_index < c.num_servers
      → c.next_sn < 2 ^ 32
      → ((j : ℕ) → j < c.num_servers → sends j ≡ true)
      → (reads reqs c).sent ≡ c.sent ++ in_turn c.num_servers c.rr_index c.next_sn reqs
  reads-in_turn reqs c r t h =
      reads-in_turn_from reqs c c.rr_index c.next_sn (omega (arith, r)) h (sym (mod-eq_of_lt r))
        (omega (arith, t))
