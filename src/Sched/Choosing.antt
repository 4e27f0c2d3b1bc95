-- ===== src/Sched/Choosing.antt =====
-- Which thread runs after each operation of sthread_lib/sthread_user.c, and when there is one to
-- run at all.
use sthreads.Prelude.{
  ℕ, ◌<◌, ◌≤◌, ◌≡◌, ◌⊎◌, true, false, arith, inl, inr, ltb_ℤ, pos, if◌then◌else◌, Option-cases,
  Bool-cases, ap, ◌∙◌,
}
use sthreads.Sched.Thread.{recalcular}
use sthreads.Sched.Runqueue.{rq_retirar, rq_melhor_prio, rq_vazia}
use sthreads.Sched.Runqueue.Counting.{rq_count, count-rq_retirar}
use sthreads.Sched.Runqueue.Choice.{rq_vazia-rq_retirar}
use sthreads.Sched.Runqueue.Filing.{
  IsFiled, priority-rq_retirar, rq_melhor_prio-bound, rq_melhor_prio-none,
}
use sthreads.Sched.State.{
  Sched, done, fault, IfDone, IfDone-if, ready, set_thread, switch_to_best, dispatch, refill,
  trocar_runqueues,
}
use sthreads.Sched.Ops.{tick, outranked, expire, dispatcher, yield_now}
use sthreads.Sched.Invariant.{Inv, Valid}
use sthreads.Sched.Invariant.Steps.{ready-Inv, refill-Inv}
use sthreads.Sched.Invariant.Ops.{
  tick-Valid, expire-Inv, yield_ready-Inv, yield_nonempty, ready_nonempty, expire_nonempty,
}

-- No thread of the active runqueue has a better priority than the one that runs.
abbrev pub RunsBest : Sched → Type 0
RunsBest s =
    (p : ℕ) → 0 < rq_count p s.active_rq → (s.thr s.active_thr).priority ≤ (s.thr p).priority

pub switch_to_best-RunsBest :
    (s : Sched) → IsFiled s.thr 0 s.active_rq → IfDone RunsBest (switch_to_best s)
unfolding switch_to_best
switch_to_best-RunsBest s f = elim (Option-cases (rq_retirar s.active_rq)) [
  | inl e ↦ rw (e, switch_to_best) tt
  | inr ((t, rq), e) ↦
      rw (e, switch_to_best)
        (λ p h.
          priority-rq_retirar s.thr 0 t p s.active_rq rq e f
            (omega (arith, (count-rq_retirar p s.active_rq t rq e).0)))
]

-- Both runqueues are empty.
abbrev pub NoneReady : Sched → Type 0
NoneReady s = (rq_vazia s.active_rq ≡ true) × (rq_vazia s.expired_rq ≡ true)

refill_empty : (s : Sched) → rq_vazia s.active_rq ≡ true → refill s ≡ trocar_runqueues s
unfolding refill
refill_empty s a = rw a

refill_nonempty : (s : Sched) → rq_vazia s.active_rq ≡ false → refill s ≡ s
unfolding refill
refill_nonempty s a = rw a

-- Giving the processor away uses a NULL thread exactly when both runqueues are empty, and
-- otherwise chooses a thread.
pub dispatch-cases :
    (s : Sched)
    → (NoneReady s × (dispatch s ≡ fault))
      ⊎ (((rq_vazia s.active_rq ≡ false) ⊎ (rq_vazia s.expired_rq ≡ false))
          × ((u : Sched) × (dispatch s ≡ done u)))
unfolding dispatch refill switch_to_best trocar_runqueues
dispatch-cases s = elim (rq_vazia-rq_retirar s.active_rq) [
  | inr (a, (t, rq, e)) ↦ inr (
    inl a,
    (
      record s { active_thr = t; active_rq = rq },
      ap switch_to_best (refill_nonempty s a) ∙ rw (e, switch_to_best),
    ),
  )
  | inl (a, _) ↦ elim (rq_vazia-rq_retirar s.expired_rq) [
    | inl (b, e) ↦ inl ((a, b), rw (a, refill, e, switch_to_best))
    | inr (b, (t, rq, e)) ↦ inr (
      inr b,
      (
        record s { active_thr = t; active_rq = rq; expired_rq = s.active_rq },
        ap switch_to_best (refill_empty s a) ∙ rw (e, switch_to_best),
      ),
    )
  ]
]

-- A tick finds no better thread ready.
stays-RunsBest : (s : Sched) → IsFiled s.thr 0 s.active_rq → outranked s ≡ false → RunsBest s
unfolding outranked
stays-RunsBest s f h p n = elim (Option-cases (rq_melhor_prio s.active_rq)) [
  | inl e ↦ absurd (omega (arith, rq_melhor_prio-none p s.active_rq e))
  | inr (i, e) ↦ ground (arith, rq_melhor_prio-bound s.thr i p s.active_rq e f n)
]

switch_to_best-total :
    (s : Sched) → rq_vazia s.active_rq ≡ false → (u : Sched) × (switch_to_best s ≡ done u)
unfolding switch_to_best
switch_to_best-total s e = elim (rq_vazia-rq_retirar s.active_rq) [
  | inl (a, _) ↦ absurd (cc)
  | inr (_, (t, rq, h)) ↦ (record s { active_thr = t; active_rq = rq }, rw (h, switch_to_best))
]

module _ {total : ℕ → ℕ} (parked : ℕ → ℕ) where
  pub dispatch-RunsBest : {s : Sched} → Inv total parked s → IfDone RunsBest (dispatch s)
  unfolding dispatch
  dispatch-RunsBest {s} v = switch_to_best-RunsBest (refill s) (refill-Inv parked v).active_filed

  -- After a tick of a valid scheduler no thread of the active runqueue has a better priority
  -- than the one that runs.
  pub dispatcher-RunsBest : {s : Sched} → Valid total parked s → IfDone RunsBest (dispatcher s)
  unfolding dispatcher
  dispatcher-RunsBest {s} v =
      let s' = tick s in
      IfDone-if RunsBest (ltb_ℤ (pos 0) (s'.thr s'.active_thr).quantum)
        (if outranked s' then switch_to_best (ready s' s'.active_thr) else done s')
        (dispatch (expire s'))
        (λ _.
          IfDone-if RunsBest (outranked s') (switch_to_best (ready s' s'.active_thr)) (done s')
            (λ _.
              switch_to_best-RunsBest (ready s' s'.active_thr)
                (ready-Inv parked s'.active_thr (tick-Valid parked v)).active_filed)
            (stays-RunsBest s' (tick-Valid parked v).active_filed))
        (λ _. dispatch-RunsBest (expire-Inv parked (tick-Valid parked v)))

  -- After a yield in a valid scheduler no thread of the active runqueue has a better priority
  -- than the one that runs.
  pub yield_now-RunsBest : {s : Sched} → Valid total parked s → IfDone RunsBest (yield_now s)
  unfolding yield_now
  yield_now-RunsBest {s} v = rw (yield_nonempty parked v) (
      switch_to_best-RunsBest
        (ready (set_thread s s.active_thr (recalcular (s.thr s.active_thr))) s.active_thr)
        (yield_ready-Inv parked v).active_filed)

  -- A yield always finds a thread.
  pub yield_now-total : {s : Sched} → Valid total parked s → (u : Sched) × (yield_now s ≡ done u)
  unfolding yield_now
  yield_now-total {s} v =
      let s' = ready (set_thread s s.active_thr (recalcular (s.thr s.active_thr))) s.active_thr in
      let (u, e) = switch_to_best-total s' (yield_nonempty parked v) in
      (u, rw (yield_nonempty parked v) e)

  -- A tick of a valid scheduler always ends with a thread to run: it never uses a NULL thread.
  pub dispatcher-total : {s : Sched} → Valid total parked s → (u : Sched) × (dispatcher s ≡ done u)
  unfolding dispatcher
  dispatcher-total {s} v =
      let s' = tick s in
      let w = tick-Valid parked v in
      elim (Bool-cases (ltb_ℤ (pos 0) (s'.thr s'.active_thr).quantum)) [
        | inl a ↦ elim (Bool-cases (outranked s')) [
          | inl b ↦
              let (u, e) =
                switch_to_best-total (ready s' s'.active_thr)
                  (ready_nonempty parked parked s'.active_thr w) in
              (u, rw (a, b) e)
          | inr b ↦ (s', rw (a, b))
        ]
        | inr a ↦ elim (dispatch-cases (expire s')) [
          | inl ((_, b), _) ↦ absurd (cc (expire_nonempty parked w))
          | inr (_, (u, e)) ↦ (u, rw a e)
        ]
      ]
