-- ===== src/Pool/Stopping.antt =====
-- What `stop` does to an operator at work.
use protei_cov.Prelude.{ℕ, ◌≡◌, refl, ap, ◌∙◌, true, [], some, arith}
use protei_cov.Effects.{ok}
use protei_cov.CallRecord.{CallResult}
use protei_cov.World.{value}
use protei_cov.Task.{Readings, Distribution}
use protei_cov.Task.Laws.{InBounds}
use protei_cov.Queue.{Item, Queue, empty}
use protei_cov.Queue.Valid.{promise_of, Waits}
use protei_cov.Pool.Defs.{
  System, Worker, working, gone, turn, finish, execute_task, set_worker, set_pool, start, stop,
}
use protei_cov.Pool.Execute.{execute_task_serves}
use protei_cov.Pool.Rounds.{Ready}

module _ (d : Distribution) (i thread : ℕ) where
  leaves :
      (s : System) (q : Queue)
      → s.pool.wait_for_completion ≡ true
      → s.pool.task_queue ≡ some q
      → q.items ≡ []
      → finish i s ≡ (ok tt, set_worker i Worker.gone s)
  unfolding finish empty
  leaves s q w here none_left = rw (w, here, none_left) refl

  stays_gone :
      (env : Readings) (s : System) → s.pool.workers i ≡ gone → turn d i thread env s ≡ (ok tt, s)
  unfolding turn
  stays_gone env s h = rw h refl

  last_turn :
      (env : Readings) (x : Item) (s : System) (q : Queue)
      → s.pool.workers i ≡ working x
      → (execute_task d x.0 env s).0 ≡ ok tt
      → (execute_task d x.0 env s).1.pool ≡ s.pool
      → s.pool.wait_for_completion ≡ true
      → s.pool.task_queue ≡ some q
      → q.items ≡ []
      → turn d i thread env s ≡ (ok tt, set_worker i Worker.gone (execute_task d x.0 env s).1)
  unfolding turn
  last_turn env x s q busy e same w here none_left =
      rw (busy, e)
        (leaves (execute_task d x.0 env s).1 q (ap (λ p. p.wait_for_completion) same ∙ w)
          (ap (λ p. p.task_queue) same ∙ here) none_left)

  -- An operator whose pool is stopped during its call, with nobody else waiting and a random device
  -- that works, still answers its client, but its thread leaves `run` for good: after a later `start`
  -- it takes no turn any more.
  pub stop-start :
      (inside : InBounds d) (env : Readings) (seed : ℕ) (x : Item) (s : System) (q : Queue)
      → env.entropy ≡ some seed
      → s.pool.task_queue ≡ some q
      → q.items ≡ []
      → s.pool.workers i ≡ working x
      → Ready s.world x
      → Waits s.world x
      → (s' : System) × (r : CallResult) × (turn d i thread env (set_pool stop s) ≡ (ok tt, s'))
        × (s'.world.promises (promise_of s.world x) ≡ value r)
        × ((env' : Readings)
            → turn d i thread env' (set_pool start s') ≡ (ok tt, set_pool start s'))
  unfolding stop start
  stop-start inside env seed x s q random here none_left busy h waits =
      let (r, e, a, _, _, _, _, same, _) =
        execute_task_serves d x.0 env (set_pool stop s) q seed inside here h.0 random h.1 waits in
      (
        _,
        r,
        last_turn env x (set_pool stop s) q busy e same refl here none_left,
        a,
        λ env'. stays_gone env' _ (ground arith),
      )
