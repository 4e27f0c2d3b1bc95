-- ===== src/Client/Remote/Agreement.antt =====
-- What remote_call of snfs_lib/snfs_api.c makes of the responses, in terms of those that carry the number of
-- the request.
use sthreads.Prelude.{
  ℕ, zero, suc, ◌+◌, ◌%◌, ◌^◌, ◌<◌, ◌≤◌, ◌≡◌, ◌≢◌, ◌⊎◌, inl, inr, refl, sym, ap, ◌∙◌, Bool, true,
  false, List, [], ◌∷◌, ◌++◌, arith, ◌==◌, if◌then◌else◌, length, take, Bool-cases, append-nil,
  append_assoc,
}
use sthreads.Server.Protocol.{Request, Response, Status, res_ok, res_error, res_unknown}
use sthreads.Client.Interface.{Call, stat_ok, stat_error, aborts, waits}
use sthreads.Client.Remote.{
  Recv, recv_error, recv_closed, got, Conn, same_status, all_agree, recv_all, agree, send_to,
  call_all, remote_call,
}

-- The responses with the number that come before an error, in their order.
unfoldable pub answers : ℕ → List Recv → List Response
answers sn [] = []
answers sn (recv_error ∷ incoming) = []
answers sn (recv_closed ∷ incoming) = []
answers sn (got k r ∷ incoming) =
    let rest = answers sn incoming in if k == sn then r ∷ rest else rest

-- what a call that gets too few of them comes to
unfoldable pub shortfall : {A : Type 0} → List Recv → Call A
shortfall [] = waits
shortfall (recv_error ∷ incoming) = stat_error
shortfall (recv_closed ∷ incoming) = stat_error
shortfall (got k r ∷ incoming) = shortfall incoming

pub data Agrees (s : Status) : List Response → Type 0 where
  nothing_else : Agrees s []
  one_more : {r : Response} {rs : List Response} → r.status ≡ s → Agrees s rs → Agrees s (r ∷ rs)

pub data Disagrees (s : Status) : List Response → Type 0 where
  this_one : {r : Response} {rs : List Response} → r.status ≢ s → Disagrees s (r ∷ rs)
  a_later : {r : Response} {rs : List Response} → Disagrees s rs → Disagrees s (r ∷ rs)

same_status-cases :
    (s t : Status) → ((same_status s t ≡ true) × (s ≡ t)) ⊎ ((same_status s t ≡ false) × (s ≢ t))
same_status-cases res_ok res_ok = inl (refl, refl)
same_status-cases res_error res_error = inl (refl, refl)
same_status-cases res_unknown res_unknown = inl (refl, refl)
same_status-cases res_ok res_error = inr (refl, λ e. absurd (cc e))
same_status-cases res_ok res_unknown = inr (refl, λ e. absurd (cc e))
same_status-cases res_error res_ok = inr (refl, λ e. absurd (cc e))
same_status-cases res_error res_unknown = inr (refl, λ e. absurd (cc e))
same_status-cases res_unknown res_ok = inr (refl, λ e. absurd (cc e))
same_status-cases res_unknown res_error = inr (refl, λ e. absurd (cc e))

all_agree-cases :
    (s : Status) (rs : List Response)
    → ((all_agree s rs ≡ true) × Agrees s rs) ⊎ ((all_agree s rs ≡ false) × Disagrees s rs)
unfolding all_agree
all_agree-cases s [] = inl (refl, nothing_else)
all_agree-cases s (r ∷ rs) = elim (same_status-cases r.status s) [
  | inr (e, ne) ↦ inr (rw e refl, this_one ne)
  | inl (e, same) ↦ elim (all_agree-cases s rs) [
    | inl (f, a) ↦ inl (rw (e, f) refl, one_more same a)
    | inr (f, d) ↦ inr (rw (e, f) refl, a_later d)
  ]
]

recv_all-answers :
    (sn n : ℕ) (acc : List Response) (incoming : List Recv)
    → ((n ≤ length (answers sn incoming))
        × ((recv_all sn n acc incoming).1 ≡ stat_ok (acc ++ take n (answers sn incoming))))
      ⊎ ((length (answers sn incoming) < n) × ((recv_all sn n acc incoming).1 ≡ shortfall incoming))
unfolding recv_all answers shortfall
recv_all-answers sn zero acc incoming = inl (omega arith, ap stat_ok (sym (append-nil acc)))
recv_all-answers sn (suc n) acc [] = inr (omega arith, refl)
recv_all-answers sn (suc n) acc (recv_error ∷ incoming) = inr (omega arith, refl)
recv_all-answers sn (suc n) acc (recv_closed ∷ incoming) = inr (omega arith, refl)
recv_all-answers sn (suc n) acc (got k r ∷ incoming) = elim (Bool-cases (k == sn)) [
  | inl t ↦ elim (recv_all-answers sn n (acc ++ r ∷ []) incoming) [
    | inl (h, e) ↦
        inl (rw t (omega (arith, h)), rw t (e ∙ ap stat_ok (append_assoc acc (r ∷ []) _)))
    | inr (h, e) ↦ inr (rw t (omega (arith, h)), rw t e)
  ]
  | inr t ↦ elim (recv_all-answers sn (suc n) acc incoming) [
    | inl (h, e) ↦ inl (rw t h, rw t e)
    | inr (h, e) ↦ inr (rw t h, rw t e)
  ]
]

-- What n messages to the servers at `at` leave in the list of what was sent.
unfoldable pub asked : (ℕ → ℕ) → (n k sn : ℕ) → Request → List (ℕ × ℕ × Request)
asked at zero k sn req = []
asked at (suc n) k sn req = (at k, sn, req) ∷ asked at n (suc k) sn req

-- What a call to `n` servers comes to, where `rs` are the responses with its number.
pub data Verdict (n : ℕ) (rs : List Response) (incoming : List Recv) : Call Response → Type 0 where
  agreed :
      {r : Response} {rest : List Response}
      → n ≤ length rs
      → take n rs ≡ r ∷ rest
      → Agrees r.status rest
      → Verdict n rs incoming (stat_ok r)
  conflict :
      {r : Response} {rest : List Response}
      → n ≤ length rs
      → take n rs ≡ r ∷ rest
      → Disagrees r.status rest
      → Verdict n rs incoming aborts
  too_few : length rs < n → Verdict n rs incoming (shortfall incoming)

agree-Verdict :
    (n : ℕ) (rs : List Response) (incoming : List Recv)
    → 0 < n
    → n ≤ length rs
    → Verdict n rs incoming (agree (stat_ok (take n rs)))
unfolding agree
agree-Verdict zero rs incoming z h = absurd (omega arith)
agree-Verdict (suc n) [] incoming z h = absurd (omega arith)
agree-Verdict (suc n) (r ∷ rs) incoming z h = elim (all_agree-cases r.status (take n rs)) [
  | inl (e, a) ↦ rw e (agreed h refl a)
  | inr (e, d) ↦ rw e (conflict h refl d)
]

agree-shortfall : (incoming : List Recv) → agree (shortfall incoming) ≡ shortfall incoming
unfolding agree shortfall
agree-shortfall [] = refl
agree-shortfall (recv_error ∷ incoming) = refl
agree-shortfall (recv_closed ∷ incoming) = refl
agree-shortfall (got k r ∷ incoming) = agree-shortfall incoming

module _ (sends : ℕ → Bool) where
  send_to-asked :
      (at : ℕ → ℕ) (n k sn : ℕ) (req : Request) (c : Conn)
      → ((i : ℕ) → k ≤ i → i < k + n → sends (at i) ≡ true)
      → send_to sends at n k sn req c ≡ (record c { sent = c.sent ++ asked at n k sn req }, true)
  unfolding send_to asked
  send_to-asked at zero k sn req c h =
      ap (λ l. (record c { sent = l }, true)) (sym (append-nil c.sent))
  send_to-asked at (suc n) k sn req c h = rw (h k (omega arith) (omega arith)) (
      send_to-asked at n (suc k) sn req (record c { sent = c.sent ++ (at k, sn, req) ∷ [] })
        (λ i l u. h i (omega (arith, l)) (omega (arith, u)))
      ∙ ap (λ l. (record c { sent = l }, true)) (append_assoc c.sent ((at k, sn, req) ∷ []) _))

  -- If there are servers and every send succeeds, a call to all of them sends the request once
  -- to each under the next number; it returns the first response with that number if as many as
  -- there are servers come before an error and all have its status, exits if one of them has
  -- another, and with fewer ends in the error or waits.
  pub remote_call-Verdict :
      (req : Request) (c : Conn)
      → 0 < c.num_servers
      → ((i : ℕ) → i < c.num_servers → sends i ≡ true)
      → ((remote_call sends true req c).0.sent
          ≡ c.sent ++ asked (λ k. k) c.num_servers 0 c.next_sn req)
        × Verdict c.num_servers
            (answers c.next_sn c.incoming)
            c.incoming
            (remote_call sends true req c).1
  unfolding remote_call call_all
  remote_call-Verdict req c e h =
      let c' = record c { next_sn = (c.next_sn + 1) % 2 ^ 32 } in
      let s =
        send_to-asked (λ k. k) c.num_servers 0 c.next_sn req c' (λ i _ u. h i (omega (arith, u))) in
      let out = recv_all-answers c.next_sn c.num_servers [] c.incoming in
      let z : (c.num_servers == 0) ≡ false = ground (arith, e) in
      rw (z, s)
        (
          refl,
          elim out [
            | inl (l, r) ↦
                rw r (agree-Verdict c.num_servers (answers c.next_sn c.incoming) c.incoming e l)
            | inr (l, r) ↦ rw (r, agree-shortfall c.incoming) (too_few l)
          ],
        )
