-- ===== src/Sched/ExitValue.antt =====
-- What becomes of the value that a thread of sthread_lib/sthread_user.c exits with.
use sthreads.Prelude.{
  ℕ, ◌≡◌, refl, true, ◌&&◌, [], ◌∷◌, arith, count, inl, inr, Option-cases, ap, ◌∙◌,
}
use sthreads.Sched.Runqueue.{Queue, rq_retirar, rq_vazia}
use sthreads.Sched.State.{
  Sched, done, exited, IfDone, IfDone-if, IfDone-map, dispatch, refill, switch_to_best,
  trocar_runqueues,
}
use sthreads.Sched.Ops.{Woken, wake_joiners, exit_woken, exit_listed, exit}
use sthreads.Sched.Join.{join_resume}
use sthreads.Sched.Invariant.{Valid}
use sthreads.Sched.Invariant.Steps.{queued_elsewhere}

-- Only the control blocks of the joiners change.
wake_joiners_others :
    (p ret tid : ℕ) (q : Queue) (w : Woken)
    → count p q ≡ 0
    → (wake_joiners ret tid q w).mem p ≡ w.mem p
unfolding wake_joiners
wake_joiners_others p ret tid [] w e = refl
wake_joiners_others p ret tid (t ∷ q) w e =
    wake_joiners_others p ret tid q _ (omega arith) ∙ ground arith

dispatch_keeps : (s : Sched) → IfDone (λ u. u.thr ≡ s.thr) (dispatch s)
unfolding dispatch refill switch_to_best trocar_runqueues
dispatch_keeps s = elim (Option-cases (rq_retirar (refill s).active_rq)) [
  | inl e ↦ rw (e, switch_to_best) tt
  | inr ((t, rq), e) ↦ rw (e, switch_to_best) (ground arith)
]

listed_keeps :
    {total : ℕ → ℕ} (parked : ℕ → ℕ) (ret : ℕ) {s : Sched}
    → Valid total parked s
    → (exit_listed ret s).thr s.active_thr ≡ s.thr s.active_thr
unfolding exit_listed exit_woken
listed_keeps parked ret {s} v = ground (
  arith,
  wake_joiners_others s.active_thr ret (s.thr s.active_thr).tid s.join_thr_list
      (record { mem = s.thr; rq = s.active_rq; kept = []; is_zombie = true })
      (omega (arith, queued_elsewhere parked s.active_thr v)),
)

-- In a valid scheduler, whatever value a thread exits with, a join that resumes behind the exit
-- delivers the join_ret field that the thread had before it.
pub exit-join_resume :
    {total : ℕ → ℕ} (parked : ℕ → ℕ) (ret : ℕ) {s : Sched}
    → Valid total parked s
    → IfDone
        (λ u. join_resume s.active_thr true u ≡ done (s.thr s.active_thr).join_ret)
        (exit ret s)
unfolding exit join_resume
exit-join_resume parked ret {s} v =
    let s' = exit_listed ret s in
    let P = λ (u : Sched). join_resume s.active_thr true u ≡ done (s.thr s.active_thr).join_ret in
    IfDone-if P (rq_vazia s'.active_rq && rq_vazia s'.expired_rq) exited (dispatch s') (λ _. tt)
      (λ _.
        IfDone-map (λ (u : Sched). u.thr ≡ s'.thr) P (dispatch s') (dispatch_keeps s')
          (λ u e.
            ap (λ m. done (m s.active_thr).join_ret) e
            ∙ ap (λ t. done t.join_ret) (listed_keeps parked ret v)))
