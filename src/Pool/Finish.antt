-- ===== src/Pool/Finish.antt =====
-- The end of a worker's turn with a call.
use protei_cov.Prelude.{
  ℕ, ◌≡◌, refl, Bool, true, false, some, if◌then◌else◌, Bool-cases, ◌⊎◌, inl, inr,
}
use protei_cov.Effects.{ok}
use protei_cov.World.{update}
use protei_cov.Queue.{Queue, empty}
use protei_cov.Pool.Defs.{System, Worker, looping, waiting, gone, finish, drained, leave}
use protei_cov.Pool.Invariant.{IsFree}
use protei_cov.Pool.Moves.{SameFlags}

pub looping-IsFree : IsFree looping
looping-IsFree x e = cc

waiting-IsFree : IsFree waiting
waiting-IsFree x e = cc

gone-IsFree : IsFree gone
gone-IsFree x e = cc

pub after_loop : (stopped : Bool) → IsFree (if stopped then gone else waiting)
after_loop true = gone-IsFree
after_loop false = waiting-IsFree

-- What `finish` makes of a worker.
pub record Finishes (i : ℕ) (s s' : System) : Type 0 where
  pub next : Worker
  pub free : IsFree next
  pub is_next : (next ≡ looping) ⊎ ((next ≡ gone) × (s.pool.wait_for_completion ≡ true))
  pub ends : finish i s ≡ (ok tt, s')
  pub workers : s'.pool.workers ≡ update s.pool.workers i next
  pub queue : s'.pool.task_queue ≡ s.pool.task_queue
  pub flags : SameFlags s.pool s'.pool
  pub world : s'.world ≡ s.world

finish-Finishes_by :
    (i : ℕ) (s : System) (last : Bool)
    → drained s.pool ≡ ok last
    → (last ≡ true → s.pool.wait_for_completion ≡ true)
    → (s' : System) × Finishes i s s'
unfolding finish
finish-Finishes_by i s true e waits = (
  leave i true s,
  record {
    next = gone;
    free = gone-IsFree;
    is_next = inr (refl, waits refl);
    ends = rw e refl;
    workers = refl;
    queue = refl;
    flags = record { size = refl; stopped = refl; paused = refl; draining = refl };
    world = refl;
  },
)
finish-Finishes_by i s false e waits = (
  leave i false s,
  record {
    next = looping;
    free = looping-IsFree;
    is_next = inl refl;
    ends = rw e refl;
    workers = refl;
    queue = refl;
    flags = record { size = refl; stopped = refl; paused = refl; draining = refl };
    world = refl;
  },
)

pub finish-Finishes :
    (i : ℕ) (s : System) (q : Queue) → s.pool.task_queue ≡ some q → (s' : System) × Finishes i s s'
finish-Finishes i s q here = elim (Bool-cases s.pool.wait_for_completion) [
  | inl w ↦ finish-Finishes_by i s (empty q) (rw (w, here) refl) (λ _. w)
  | inr w ↦ finish-Finishes_by i s false (rw w refl) (λ n. absurd cc)
]
