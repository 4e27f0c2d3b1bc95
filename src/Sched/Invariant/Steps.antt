-- ===== src/Sched/Invariant/Steps.antt =====
-- The invariant under the steps shared by the operations of sthread_lib/sthread_user.c.
use sthreads.Prelude.{
  ℕ, ◌+◌, ◌<◌, ◌≡◌, some, inl, inr, arith, one_if, count, Option-cases, ◌∙◌, Bool-cases,
}
use sthreads.Sched.Thread.{Thread}
use sthreads.Sched.Runqueue.{Queue, rq_inserir, rq_retirar, rq_vazia, Runqueue}
use sthreads.Sched.Runqueue.Counting.{length-insert_at, count-insert_at, count-rq_retirar}
use sthreads.Sched.Runqueue.Filing.{IsFiled-insert_at, IsFiled-update, IsFiled-rq_retirar}
use sthreads.Sched.State.{
  Sched, IfDone, set_thread, ready, trocar_runqueues, refill, switch_to_best, dispatch,
}
use sthreads.Sched.Invariant.{InRange, queued, Inv}

module _ {total : ℕ → ℕ} where
  -- The count of the threads elsewhere matters only pointwise.
  pub Inv-elsewhere :
      (k k' : ℕ → ℕ) {s : Sched} → ((p : ℕ) → k p ≡ k' p) → Inv total k s → Inv total k' s
  Inv-elsewhere k k' e v = record {
    placed = λ p. omega (arith, e p, v.placed p);
    once = v.once;
    in_range = v.in_range;
    active_size = v.active_size;
    expired_size = v.expired_size;
    active_filed = v.active_filed;
    expired_filed = v.expired_filed;
  }

  -- A thread that is elsewhere stands in none of the scheduler's queues.
  pub queued_elsewhere :
      (k : ℕ → ℕ) (p : ℕ) {s : Sched} → Inv total (λ q. one_if q p + k q) s → queued p s ≡ 0
  queued_elsewhere k p v = ground (arith, v.placed p, v.once p)

  total_elsewhere :
      (k : ℕ → ℕ) (p : ℕ) {s : Sched} → Inv total (λ q. one_if q p + k q) s → 0 < total p
  total_elsewhere k p v = ground (arith, v.placed p)

  pub InRange-elsewhere :
      (k : ℕ → ℕ) (p : ℕ) {s : Sched} → Inv total (λ q. one_if q p + k q) s → InRange (s.thr p)
  InRange-elsewhere k p v = v.in_range p (total_elsewhere k p v)

  -- A control block that stands in no queue may change within its range.
  pub set_thread-Inv :
      (k : ℕ → ℕ) (p : ℕ) (t : Thread) {s : Sched}
      → Inv total (λ q. one_if q p + k q) s
      → InRange t
      → Inv total (λ q. one_if q p + k q) (set_thread s p t)
  unfolding set_thread
  set_thread-Inv k p t {s} v r = record {
    placed = v.placed;
    once = v.once;
    in_range = λ q h. ground (arith, v.in_range q h);
    active_size = v.active_size;
    expired_size = v.expired_size;
    active_filed =
        IsFiled-update s.thr 0 p t s.active_rq (omega (arith, queued_elsewhere k p v))
          v.active_filed;
    expired_filed =
        IsFiled-update s.thr 0 p t s.expired_rq (omega (arith, queued_elsewhere k p v))
          v.expired_filed;
  }

  -- A thread from elsewhere enters the active runqueue.
  pub ready-Inv :
      (k : ℕ → ℕ) (p : ℕ) {s : Sched}
      → Inv total (λ q. one_if q p + k q) s
      → Inv total k (ready s p)
  unfolding ready rq_inserir
  ready-Inv k p {s} v = record {
    placed = λ q. omega (
      arith,
      v.placed q,
      count-insert_at q s.active_rq (s.thr p).priority p
          (omega (arith, v.active_size, (InRange-elsewhere k p v).priority_in)),
    );
    once = v.once;
    in_range = v.in_range;
    active_size = length-insert_at s.active_rq (s.thr p).priority p ∙ v.active_size;
    expired_size = v.expired_size;
    active_filed =
        IsFiled-insert_at s.thr 0 (s.thr p).priority p s.active_rq (omega arith) v.active_filed;
    expired_filed = v.expired_filed;
  }

  -- A thread from elsewhere enters the expired runqueue.
  pub expired-Inv :
      (k : ℕ → ℕ) (p : ℕ) {s : Sched}
      → Inv total (λ q. one_if q p + k q) s
      → Inv total k (record s { expired_rq = rq_inserir s.thr s.expired_rq p })
  unfolding rq_inserir
  expired-Inv k p {s} v = record {
    placed = λ q. omega (
      arith,
      v.placed q,
      count-insert_at q s.expired_rq (s.thr p).priority p
          (omega (arith, v.expired_size, (InRange-elsewhere k p v).priority_in)),
    );
    once = v.once;
    in_range = v.in_range;
    active_size = v.active_size;
    expired_size = length-insert_at s.expired_rq (s.thr p).priority p ∙ v.expired_size;
    active_filed = v.active_filed;
    expired_filed =
        IsFiled-insert_at s.thr 0 (s.thr p).priority p s.expired_rq (omega arith) v.expired_filed;
  }

  -- The queues that are no runqueues may change, if the counts still add up.
  pub requeue-Inv :
      (k k' : ℕ → ℕ) {s : Sched} (sleep join zombie dead : Queue)
      → Inv total k s
      → ((p : ℕ)
          → count p sleep + count p join + count p zombie + count p dead + k' p
            ≡ count p s.sleep_thr_list
              + count p s.join_thr_list
              + count p s.zombie_thr_list
              + count p s.dead_thr_list
              + k p)
      → Inv total k' (record s {
        sleep_thr_list = sleep;
        join_thr_list = join;
        zombie_thr_list = zombie;
        dead_thr_list = dead;
      })
  requeue-Inv k k' sleep join zombie dead v e = record {
    placed = λ p. omega (arith, v.placed p, e p);
    once = v.once;
    in_range = v.in_range;
    active_size = v.active_size;
    expired_size = v.expired_size;
    active_filed = v.active_filed;
    expired_filed = v.expired_filed;
  }

  -- Neither the clock nor the list for the dump matters.
  pub clock-Inv :
      (k : ℕ → ℕ) (c : ℕ) {s : Sched} → Inv total k s → Inv total k (record s { clock = c })
  clock-Inv k c v = record {
    placed = v.placed;
    once = v.once;
    in_range = v.in_range;
    active_size = v.active_size;
    expired_size = v.expired_size;
    active_filed = v.active_filed;
    expired_filed = v.expired_filed;
  }

  pub blocked-Inv :
      (k : ℕ → ℕ) (b : Queue) {s : Sched}
      → Inv total k s
      → Inv total k (record s { blocked_list = b })
  blocked-Inv k b v = record {
    placed = v.placed;
    once = v.once;
    in_range = v.in_range;
    active_size = v.active_size;
    expired_size = v.expired_size;
    active_filed = v.active_filed;
    expired_filed = v.expired_filed;
  }

  trocar-Inv : (k : ℕ → ℕ) {s : Sched} → Inv total k s → Inv total k (trocar_runqueues s)
  unfolding trocar_runqueues
  trocar-Inv k v = record {
    placed = λ p. omega (arith, v.placed p);
    once = v.once;
    in_range = v.in_range;
    active_size = v.expired_size;
    expired_size = v.active_size;
    active_filed = v.expired_filed;
    expired_filed = v.active_filed;
  }

  pub refill-Inv : (k : ℕ → ℕ) {s : Sched} → Inv total k s → Inv total k (refill s)
  unfolding refill
  refill-Inv k {s} v = elim (Bool-cases (rq_vazia s.active_rq)) [
    | inl e ↦ rw (e, refill) (trocar-Inv k v)
    | inr e ↦ rw (e, refill) v
  ]

  taken-Inv :
      (k : ℕ → ℕ) (t : ℕ) (rq : Runqueue) {s : Sched}
      → Inv total k s
      → rq_retirar s.active_rq ≡ some (t, rq)
      → Inv total (λ p. one_if p t + k p) (record s { active_thr = t; active_rq = rq })
  taken-Inv k t rq {s} v e = record {
    placed = λ p. omega (arith, v.placed p, (count-rq_retirar p s.active_rq t rq e).0);
    once = v.once;
    in_range = v.in_range;
    active_size = (count-rq_retirar 0 s.active_rq t rq e).1 ∙ v.active_size;
    expired_size = v.expired_size;
    active_filed = IsFiled-rq_retirar s.thr 0 t s.active_rq rq e v.active_filed;
    expired_filed = v.expired_filed;
  }

  -- The thread that is taken is elsewhere: it runs.
  pub switch_to_best-Inv :
      (k : ℕ → ℕ) {s : Sched}
      → Inv total k s
      → IfDone (λ u. Inv total (λ p. one_if p u.active_thr + k p) u) (switch_to_best s)
  unfolding switch_to_best
  switch_to_best-Inv k {s} v = elim (Option-cases (rq_retirar s.active_rq)) [
    | inl e ↦ rw (e, switch_to_best) tt
    | inr ((t, rq), e) ↦ rw (e, switch_to_best) (taken-Inv k t rq v e)
  ]

  pub dispatch-Inv :
      (k : ℕ → ℕ) {s : Sched}
      → Inv total k s
      → IfDone (λ u. Inv total (λ p. one_if p u.active_thr + k p) u) (dispatch s)
  unfolding dispatch
  dispatch-Inv k v = switch_to_best-Inv k (refill-Inv k v)
