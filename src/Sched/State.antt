-- ===== src/Sched/State.antt =====
-- The scheduler's globals in sthread_lib/sthread_user.c, the ways in which a call can end, and the
-- steps that several operations share.
use sthreads.Prelude.{ℕ, ◌≡◌, refl, Bool, true, false, none, some, [], pos, if◌then◌else◌}
use sthreads.Sched.Thread.{Thread, Memory, update}
use sthreads.Sched.Runqueue.{Queue, Runqueue, rq_inserir, rq_retirar, rq_vazia, criar_runqueue}

-- `Clock` is a `long` and `tid_gen` an `int`; they only count up, and their overflow is left out.
pub record Sched : Type 0 where
  pub thr : Memory
  pub active_rq : Runqueue
  pub expired_rq : Runqueue
  pub blocked_list : Queue
  pub dead_thr_list : Queue
  pub sleep_thr_list : Queue
  pub join_thr_list : Queue
  pub zombie_thr_list : Queue
  pub active_thr : ℕ
  pub tid_gen : ℕ
  pub clock : ℕ

-- How a call ends, up to the point where it returns or leaves the processor to another thread:
-- `exited` is `exit(0)`, `fault` the use of a NULL `active_thr`, `spins` a test-and-set loop that
-- finds its lock taken.
pub data Run {ℓ} (A : Type ℓ) : Type ℓ where
  done : A → Run A
  exited : Run A
  fault : Run A
  spins : Run A

infixl 5 ◌>>=◌
abbrev pub ◌>>=◌ {ℓ κ} : {A : Type ℓ} {B : Type κ} → Run A → (A → Run B) → Run B
done a >>= f = f a
exited >>= f = exited
fault >>= f = fault
spins >>= f = spins

-- What holds of the result, if the call ends with one.
abbrev pub IfDone {ℓ κ} : {A : Type ℓ} → (A → Type κ) → Run A → Type κ
IfDone P (done a) = P a
IfDone P exited = Unit
IfDone P fault = Unit
IfDone P spins = Unit

pub IfDone-if {ℓ κ} :
    {A : Type ℓ} (P : A → Type κ) (b : Bool) (x y : Run A)
    → (b ≡ true → IfDone P x)
    → (b ≡ false → IfDone P y)
    → IfDone P (if b then x else y)
IfDone-if P true x y f g = f refl
IfDone-if P false x y f g = g refl

pub IfDone->>= {ℓ κ μ ν} :
    {A : Type ℓ} {B : Type κ} (P : A → Type μ) (Q : B → Type ν) (m : Run A) (f : A → Run B)
    → IfDone P m
    → ((a : A) → P a → IfDone Q (f a))
    → IfDone Q (m >>= f)
IfDone->>= P Q (done a) f h k = k a h
IfDone->>= P Q exited f h k = tt
IfDone->>= P Q fault f h k = tt
IfDone->>= P Q spins f h k = tt

pub IfDone-all {ℓ κ} : {A : Type ℓ} (P : A → Type κ) (m : Run A) → ((a : A) → P a) → IfDone P m
IfDone-all P (done a) h = h a
IfDone-all P exited h = tt
IfDone-all P fault h = tt
IfDone-all P spins h = tt

pub IfDone-map {ℓ κ μ} :
    {A : Type ℓ} (P : A → Type κ) (Q : A → Type μ) (m : Run A)
    → IfDone P m
    → ((a : A) → P a → Q a)
    → IfDone Q m
IfDone-map P Q (done a) h f = f a h
IfDone-map P Q exited h f = tt
IfDone-map P Q fault h f = tt
IfDone-map P Q spins h f = tt

pub IfDone-× {ℓ κ μ} :
    {A : Type ℓ} (P : A → Type κ) (Q : A → Type μ) (m : Run A)
    → IfDone P m
    → IfDone Q m
    → IfDone (λ a. P a × Q a) m
IfDone-× P Q (done a) h k = (h, k)
IfDone-× P Q exited h k = tt
IfDone-× P Q fault h k = tt
IfDone-× P Q spins h k = tt

unfoldable pub set_thread : Sched → ℕ → Thread → Sched
set_thread s p t = record s { thr = update s.thr p t }

-- `rq_inserir(active_rq, t)`
unfoldable pub ready : Sched → ℕ → Sched
ready s p = record s { active_rq = rq_inserir s.thr s.active_rq p }

unfoldable pub trocar_runqueues : Sched → Sched
trocar_runqueues s = record s { active_rq = s.expired_rq; expired_rq = s.active_rq }

-- `if (rq_vazia(active_rq)) trocar_runqueues();`
unfoldable pub refill : Sched → Sched
unfolding trocar_runqueues
refill s = if rq_vazia s.active_rq then trocar_runqueues s else s

-- `active_thr = rq_retirar(active_rq); sthread_switch(old->saved_ctx, active_thr->saved_ctx);`
unfoldable pub switch_to_best : Sched → Run Sched
switch_to_best s = elim (rq_retirar s.active_rq) [
  | none ↦ fault
  | some (t, rq) ↦ done (record s { active_thr = t; active_rq = rq })
]

unfoldable pub dispatch : Sched → Run Sched
unfolding refill switch_to_best
dispatch s = switch_to_best (refill s)

abbrev pub main_thread : Thread
main_thread = record {
  start_routine_ptr = 0;
  args = 0;
  wake_time = pos 0;
  join_tid = 0;
  join_ret = 0;
  tid = 1;
  priority = 7;
  base_priority = 7;
  quantum = pos 5;
  nice = 0;
}

-- `p` is the block that malloc returned for the main thread.
unfoldable pub init : Memory → ℕ → Sched
unfolding criar_runqueue
init m p = record {
  thr = update m p main_thread;
  active_rq = criar_runqueue;
  expired_rq = criar_runqueue;
  blocked_list = [];
  dead_thr_list = [];
  sleep_thr_list = [];
  join_thr_list = [];
  zombie_thr_list = [];
  active_thr = p;
  tid_gen = 2;
  clock = 1;
}
