-- ===== src/Server/Serving/Order.antt =====
-- In which order and under which numbers a consumer of snfs_server/server.c answers.
use sthreads.Prelude.{
  ℕ, zero, suc, ◌≡◌, refl, ap, ◌∙◌, Option, none, some, List, [], ◌∷◌, ◌++◌, inl, inr, length,
}
use sthreads.Block.{Bytes}
use sthreads.Fs.State.{Fs}
use sthreads.Server.Protocol.{Response}
use sthreads.Server.Handlers.{Reply, replies, exits, handle}
use sthreads.Server.Ring.{Ring, consume}
use sthreads.Server.Ring.Fifo.{IsRing, contents, consume-contents}
use sthreads.Server.Serving.{
  Req, null_req, Daemon, Round, dies, no_victim, goes, and_then, respond, consumer_round,
}

-- `now k`, `unset k` and `junk k` are what the round `k` finds.
module _ (now unset : ℕ → ℕ) (junk : ℕ → Bytes) where
  -- one consumer, round by round
  unfoldable pub rounds : (n k : ℕ) → Daemon → Round
  rounds zero k d = goes d
  rounds (suc n) k d = and_then (consumer_round (now k) (unset k) (junk k) d) (rounds n (suc k))

  -- The requests answered one after the other, without a ring; `r` is the ring that is left.
  unfoldable pub answer_all : List Req → ℕ → Fs → List (ℕ × ℕ × Response) → Ring Req → Round
  answer_all [] k fs sent r = goes (record { ring = r; fs = fs; sent = sent })
  answer_all (x ∷ xs) k fs sent r = elim (handle (now k) (unset k) (junk k) x.req fs) [
    | none ↦ no_victim
    | some (fs', exits) ↦ dies
    | some (fs', replies res) ↦ answer_all xs (suc k) fs' (sent ++ (x.cliaddr, x.sn, res) ∷ []) r
  ]

  -- What is left of the answers once a request was taken.
  respond-answer :
      (x : Req) (xs : List Req) (k n : ℕ) (sent : List (ℕ × ℕ × Response)) (r r' : Ring Req)
      (o : Option (Fs × Reply))
      → ((fs : Fs) (sent : List (ℕ × ℕ × Response))
          → rounds n (suc k) (record { ring = r; fs = fs; sent = sent })
            ≡ answer_all xs (suc k) fs sent r')
      → and_then (respond x o r sent) (rounds n (suc k)) ≡ elim o as (λ o. Round) [
        | none ↦ no_victim
        | some (fs', exits) ↦ dies
        | some (fs', replies res) ↦
            answer_all xs (suc k) fs' (sent ++ (x.cliaddr, x.sn, res) ∷ []) r'
      ]
  unfolding respond
  respond-answer x xs k n sent r r' none h = refl
  respond-answer x xs k n sent r r' (some (fs, exits)) h = refl
  respond-answer x xs k n sent r r' (some (fs, replies res)) h =
      h fs (sent ++ (x.cliaddr, x.sn, res) ∷ [])

  pub consumer_round-taken :
      (k : ℕ) (x : Req) (r r1 : Ring Req) (fs : Fs) (sent : List (ℕ × ℕ × Response))
      → consume null_req r ≡ some (x, r1)
      → consumer_round (now k) (unset k) (junk k) (record { ring = r; fs = fs; sent = sent })
        ≡ respond x (handle (now k) (unset k) (junk k) x.req fs) r1 sent
  unfolding consumer_round
  consumer_round-taken k x r r1 fs sent e = rw (consumer_round, e) refl

  rounds-answer_all_from :
      (xs : List Req) (r : Ring Req)
      → IsRing r
      → contents null_req r ≡ xs
      → (r' : Ring Req) × IsRing r'
        × (contents null_req r' ≡ [])
        × ((k : ℕ) (fs : Fs) (sent : List (ℕ × ℕ × Response))
            → rounds (length xs) k (record { ring = r; fs = fs; sent = sent })
              ≡ answer_all xs k fs sent r')
  unfolding rounds answer_all
  rounds-answer_all_from [] r v e = (r, v, e, λ k fs sent. refl)
  rounds-answer_all_from (x ∷ xs) r v e = elim (consume-contents null_req r v) [
    | inl (empty, _) ↦ absurd (cc (e, empty))
    | inr (y, r1, c, w, f) ↦
        let same : y ≡ x = cc (e, f) in
        let rest : contents null_req r1 ≡ xs = cc (e, f) in
        let (r', w', z, h) = rounds-answer_all_from xs r1 w rest in
        (
          r',
          w',
          z,
          λ k fs sent.
              ap (λ o. and_then o (rounds (length xs) (suc k)))
                (consumer_round-taken k x r r1 fs sent (c ∙ ap (λ z. some (z, r1)) same))
              ∙ respond-answer x xs k (length xs) sent r1 r'
                  (handle (now k) (unset k) (junk k) x.req fs) (h (suc k)),
        )
  ]

  -- A consumer that runs as many rounds as requests stand in a well-formed ring answers them in
  -- the order in which they were put, each under its own number to its own client, by the
  -- handlers one after the other, and leaves an empty, well-formed ring; it exits or has no
  -- victim where they do.
  pub rounds-answer_all :
      (k : ℕ) (d : Daemon)
      → IsRing d.ring
      → (r' : Ring Req) × IsRing r'
        × (contents null_req r' ≡ [])
        × (rounds (length (contents null_req d.ring)) k d
            ≡ answer_all (contents null_req d.ring) k d.fs d.sent r')
  rounds-answer_all k d v =
      let (r', w, z, h) = rounds-answer_all_from (contents null_req d.ring) d.ring v refl in
      (r', w, z, h k d.fs d.sent)
