-- ===== src/Sched/Invariant/Joining.antt =====
-- The invariant over `sthread_user_join` of sthread_lib/sthread_user.c.
use sthreads.Prelude.{
  ℕ, ◌+◌, Bool, true, false, none, [], ◌∷◌, arith, one_if, inl, inr, count-append, Option-cases,
}
use sthreads.Sched.Runqueue.{queue_insert}
use sthreads.Sched.State.{Sched, IfDone, IfDone-if, IfDone->>=}
use sthreads.Sched.Join.{joined, Reaped, reap, can_join, store, join_wait, join}
use sthreads.Sched.Invariant.{Valid}
use sthreads.Sched.Invariant.Steps.{set_thread-Inv, requeue-Inv, dispatch-Inv, InRange-elsewhere}
use sthreads.Sched.Invariant.Loops.{reap-Inv, after_reap}

IfDone-store {ℓ κ} :
    {A : Type ℓ} (P : A → Type κ) (has_ptr : Bool) (a : A) → P a → IfDone P (store has_ptr a)
IfDone-store P true a h = h
IfDone-store P false a h = tt

module _ {total : ℕ → ℕ} (parked : ℕ → ℕ) where
  join_wait-Valid :
      (p : ℕ) {s : Sched}
      → Valid total parked s
      → IfDone (λ r. Valid total parked r.1) (join_wait p s)
  unfolding join_wait
  join_wait-Valid p {s} v =
      IfDone-if (λ r. Valid total parked r.1) (can_join s (s.thr p).tid) _ _
        (λ _.
          IfDone->>= (Valid total parked) (λ r. Valid total parked r.1) _ _
            (dispatch-Inv parked (
              requeue-Inv _ parked s.sleep_thr_list (queue_insert s.join_thr_list s.active_thr)
                s.zombie_thr_list s.dead_thr_list
                (set_thread-Inv parked s.active_thr _ v
                  (ground (arith, InRange-elsewhere parked s.active_thr v)))
                (λ q. omega (arith, count-append q s.join_thr_list (s.active_thr ∷ [])))))
            (λ u h. h))
        (λ _. v)

  pub join-Valid :
      (p : ℕ) (has_ptr : Bool) {s : Sched}
      → Valid total parked s
      → IfDone (λ r. Valid total parked r.1) (join p has_ptr s)
  unfolding join
  join-Valid p has_ptr {s} v = elim (Option-cases r.value) [
    | inl e ↦ rw (e, join) (join_wait-Valid p reaped)
    | inr (x, e) ↦
        rw (e, join)
          (IfDone-store (λ a. Valid total parked a.1) has_ptr (joined x, after_reap s r) reaped)
  ]
    where
      r : Reaped
      r =
          reap s.thr (s.thr p).tid s.zombie_thr_list
            (record { kept = []; dead = s.dead_thr_list; value = none })

      reaped : Valid total parked (after_reap s r)
      reaped =
          reap-Inv (λ q. one_if q s.active_thr + parked q) (s.thr p).tid s s.zombie_thr_list
            (record { kept = []; dead = s.dead_thr_list; value = none })
            (requeue-Inv _ _ s.sleep_thr_list s.join_thr_list [] s.dead_thr_list v
              (λ q. omega arith))
