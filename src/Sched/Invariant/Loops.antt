-- ===== src/Sched/Invariant/Loops.antt =====
-- The invariant over the loops of sthread_lib/sthread_user.c that empty a queue thread by thread.
use sthreads.Prelude.{
  ℕ, ◌+◌, [], ◌∷◌, inl, inr, arith, one_if, count, count-append, ◌==◌, Bool-cases, pos, leb_ℤ,
}
use sthreads.Sched.Runqueue.{Queue, queue_insert}
use sthreads.Sched.State.{Sched, set_thread, ready}
use sthreads.Sched.Ops.{awake, given, Woken, wake_sleepers, wake_joiners}
use sthreads.Sched.Join.{Reaped, reap}
use sthreads.Sched.Invariant.{Inv}
use sthreads.Sched.Invariant.Steps.{
  Inv-elsewhere, set_thread-Inv, ready-Inv, requeue-Inv, InRange-elsewhere,
}

abbrev pub after_sleepers : Sched → Woken → Sched
after_sleepers s w = record s { thr = w.mem; active_rq = w.rq; sleep_thr_list = w.kept }

abbrev pub after_joiners : Sched → Woken → Sched
after_joiners s w = record s { thr = w.mem; active_rq = w.rq; join_thr_list = w.kept }

abbrev pub after_reap : Sched → Reaped → Sched
after_reap s r = record s { zombie_thr_list = r.kept; dead_thr_list = r.dead }

module _ {total : ℕ → ℕ} where
  pub wake_sleepers-Inv :
      (k : ℕ → ℕ) (clock : ℕ) (s : Sched) (q : Queue) (w : Woken)
      → Inv total (λ p. count p q + k p) (after_sleepers s w)
      → Inv total k (after_sleepers s (wake_sleepers clock q w))
  unfolding wake_sleepers set_thread ready
  wake_sleepers-Inv k clock s [] w v = Inv-elsewhere _ k (λ p. omega arith) v
  wake_sleepers-Inv k clock s (t ∷ q) w v =
      wake_sleepers-Inv k clock s q _ (elim (Bool-cases (leb_ℤ (w.mem t).wake_time (pos clock))) [
        | inl e ↦ rw e (
            ready-Inv rest t (
              set_thread-Inv rest t (awake (w.mem t)) split
                (ground (arith, InRange-elsewhere rest t split))))
        | inr e ↦ rw e (
            requeue-Inv _ rest (queue_insert w.kept t) s.join_thr_list s.zombie_thr_list
              s.dead_thr_list split (λ p. omega (arith, count-append p w.kept (t ∷ []))))
      ])
    where
      rest : ℕ → ℕ
      rest p = count p q + k p

      split : Inv total (λ p. one_if p t + rest p) (after_sleepers s w)
      split = Inv-elsewhere _ _ (λ p. omega arith) v

  pub wake_joiners-Inv :
      (k : ℕ → ℕ) (ret tid : ℕ) (s : Sched) (q : Queue) (w : Woken)
      → Inv total (λ p. count p q + k p) (after_joiners s w)
      → Inv total k (after_joiners s (wake_joiners ret tid q w))
  unfolding wake_joiners set_thread ready
  wake_joiners-Inv k ret tid s [] w v = Inv-elsewhere _ k (λ p. omega arith) v
  wake_joiners-Inv k ret tid s (t ∷ q) w v =
      wake_joiners-Inv k ret tid s q _ (elim (Bool-cases ((w.mem t).join_tid == tid)) [
        | inl e ↦ rw e (
            ready-Inv rest t (
              set_thread-Inv rest t (given ret (w.mem t)) split
                (ground (arith, InRange-elsewhere rest t split))))
        | inr e ↦ rw e (
            requeue-Inv _ rest s.sleep_thr_list (queue_insert w.kept t) s.zombie_thr_list
              s.dead_thr_list split (λ p. omega (arith, count-append p w.kept (t ∷ []))))
      ])
    where
      rest : ℕ → ℕ
      rest p = count p q + k p

      split : Inv total (λ p. one_if p t + rest p) (after_joiners s w)
      split = Inv-elsewhere _ _ (λ p. omega arith) v

  pub reap-Inv :
      (k : ℕ → ℕ) (tid : ℕ) (s : Sched) (q : Queue) (r : Reaped)
      → Inv total (λ p. count p q + k p) (after_reap s r)
      → Inv total k (after_reap s (reap s.thr tid q r))
  unfolding reap
  reap-Inv k tid s [] r v = Inv-elsewhere _ k (λ p. omega arith) v
  reap-Inv k tid s (z ∷ q) r v = reap-Inv k tid s q _ (elim (Bool-cases ((s.thr z).tid == tid)) [
    | inl e ↦ rw e (
        requeue-Inv _ _ s.sleep_thr_list s.join_thr_list r.kept (queue_insert r.dead z) v
          (λ p. omega (arith, count-append p r.dead (z ∷ []))))
    | inr e ↦ rw e (
        requeue-Inv _ _ s.sleep_thr_list s.join_thr_list (queue_insert r.kept z) r.dead v
          (λ p. omega (arith, count-append p r.kept (z ∷ []))))
  ])
