-- ===== src/Manager/Replace.antt =====
-- A new pool in the place of the old one.
use protei_cov.Prelude.{ℕ, ◌≡◌, ◌≤◌, ◌<◌, refl, sym, ap, ◌∙◌, subst, true, false, List, All, arith}
use protei_cov.Effects.{ok}
use protei_cov.World.{World}
use protei_cov.Task.{Distribution}
use protei_cov.Task.Laws.{InBounds}
use protei_cov.Queue.{Item, Queue}
use protei_cov.Pool.{ThreadPool, System, Worker, looping, start, stop, transfer_objects, set_pool}
use protei_cov.Pool.Join.{Turn}
use protei_cov.Pool.Invariant.{Inv}
use protei_cov.Pool.Kept.{Holds}
use protei_cov.Pool.Progress.{IsRunning}
use protei_cov.Pool.Placed.{Placed}
use protei_cov.Pool.Joining.{Fit, count}
use protei_cov.Pool.Destroyed.{Settled, Destroyed, destroy-Destroyed}
use protei_cov.Manager.Defs.{
  Manager, set_new_thread_pool, stop_thread_pool, start_thread_pool, set_thread_pool,
}

-- A pool just made: no worker has begun, and none may take a call.
pub record IsFreshPool (p : ThreadPool) : Type 0 where
  pub idle : (i : ℕ) → p.workers i ≡ looping
  pub not_stopped : p.stopped ≡ false
  pub not_started : p.paused ≡ true

-- A schedule in which each thread of a pool of `size` threads comes to its end.
pub record IsFair (size : ℕ) (ts : List Turn) : Type 0 where
  pub fit : All (Fit size) ts
  pub often : (i : ℕ) → i < size → 3 ≤ count i ts

Inv-idle :
    {n : ℕ} {items : List Item} {workers workers' : ℕ → Worker} {w : World}
    → ((i : ℕ) → workers' i ≡ looping)
    → Inv n items workers w
    → Inv n items workers' w
Inv-idle idle v = record {
  queued = v.queued;
  apart = v.apart;
  held = λ i x e. let f = idle i in absurd (cc);
  held_queued = λ i x e. let f = idle i in absurd (cc);
  held_held = λ i j x y ne e g. let f = idle i in absurd (cc);
}

-- What is left behind: the queue as it was with every client in it or answered, and a running pool of
-- the new size.
pub record Replaced (d : Distribution) (n : ℕ) (q : Queue) (ts : List Turn) (p : ThreadPool)
    (m : Manager) : Type 0 where
  pub after : System
  pub returns : set_new_thread_pool d ts p m ≡ (ok tt, record m { system = after })
  pub holds : Holds n q after
  pub size : after.pool.size ≡ p.size
  pub running : after.pool.paused ≡ false
  pub going : 0 < p.size → IsRunning after
  pub settled : (c : ℕ) → Placed c q.items m.system.pool.workers m.system.world → Settled c q after

module _ (d : Distribution) (inside : InBounds d) (n : ℕ) (q : Queue) (ts : List Turn)
    (p : ThreadPool) (m : Manager) (h : Holds n q m.system) (fresh : IsFreshPool p)
    (fair : IsFair m.system.pool.size ts) where
  abbrev halted : System
  halted = set_pool stop m.system

  halted-Holds : Holds n q halted
  unfolding stop
  halted-Holds = record { here = h.here; inv = h.inv; outside = h.outside }

  old : Destroyed d n q ts halted
  unfolding stop
  old = destroy-Destroyed d n q ts halted inside halted-Holds fair.fit fair.often

  next : System
  next = set_pool start (set_thread_pool p old.end)

  -- The members of the new pool.
  next_lem : next.pool ≡ record p {
    task_queue = old.end.pool.task_queue;
    stopped = false;
    paused = false;
    wait_for_completion = false;
  }
  unfolding next start transfer_objects
  next_lem = rw fresh.not_started refl

  same : old.queue ≡ q
  unfolding stop
  same = old.calm refl

  next-Holds : Holds n q next
  unfolding next
  next-Holds =
      let h' : Holds n q old.end = subst (λ u. Holds n u old.end) same old.holds in
      record {
        here = ap (λ u. u.task_queue) next_lem ∙ h'.here;
        inv = Inv-idle (λ i. ap (λ u. u.workers i) next_lem ∙ fresh.idle i) h'.inv;
        outside = λ i le. ap (λ u. u.workers i) next_lem ∙ fresh.idle i;
      }

  -- `setNewThreadPool` returns, whatever the threads of the old pool do meanwhile.
  pub replaces : Replaced d n q ts p m
  unfolding next set_new_thread_pool stop_thread_pool start_thread_pool stop
  replaces = record {
    after = next;
    returns = rw old.returns refl;
    holds = next-Holds;
    size = ap (λ u. u.size) next_lem;
    running = ap (λ u. u.paused) next_lem;
    going = λ lt. record {
      not_stopped = ap (λ u. u.stopped) next_lem;
      not_paused = ap (λ u. u.paused) next_lem;
      not_draining = ap (λ u. u.wait_for_completion) next_lem;
      staffed = omega (arith, lt, ap (λ u. u.size) next_lem);
      present =
          λ j e. let f = sym (ap (λ u. u.workers j) next_lem ∙ fresh.idle j) ∙ e in absurd (cc);
    };
    settled = λ c k. subst (λ u. Settled c u next) same (old.settled c k);
  }
