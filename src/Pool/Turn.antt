-- ===== src/Pool/Turn.antt =====
-- What one move of a worker does to a pool.
use protei_cov.Prelude.{
  ℕ, ◌≡◌, refl, ap, ◌∙◌, subst, true, false, some, List, [], ◌∷◌, if◌then◌else◌, Bool-cases, ◌⊎◌,
  inl, inr, All, All-map,
}
use protei_cov.Effects.{ok}
use protei_cov.World.{set_task, update}
use protei_cov.Task.{Readings, Distribution}
use protei_cov.Task.Laws.{InBounds}
use protei_cov.Queue.{Item, Queue, empty, front, pop}
use protei_cov.Queue.Valid.{Waits}
use protei_cov.Pool.Defs.{
  System, Worker, looping, waiting, working, gone, turn, run_allowed, process_task, execute_task,
  set_worker,
}
use protei_cov.Pool.Execute.{execute_task_serves}
use protei_cov.Pool.Rounds.{Ready, assigned, set_thread_id_logs}
use protei_cov.Pool.Invariant.{Inv}
use protei_cov.Pool.Moves.{SameFlags, Moves, rests, goes, takes, serves}
use protei_cov.Pool.Finish.{looping-IsFree, after_loop, finish-Finishes}

list-cases : (xs : List Item) → (xs ≡ []) ⊎ ((y : Item) × (ys : List Item) × (xs ≡ y ∷ ys))
list-cases [] = inl refl
list-cases (y ∷ ys) = inr (y, ys, refl)

worker-cases :
    (k : Worker) → (k ≡ looping) ⊎ (k ≡ waiting) ⊎ ((x : Item) × (k ≡ working x)) ⊎ (k ≡ gone)
worker-cases looping = inl refl
worker-cases waiting = inr (inl refl)
worker-cases (working x) = inr (inr (inl (x, refl)))
worker-cases gone = inr (inr (inr refl))

module _ (d : Distribution) (i thread : ℕ) (env : Readings) (s : System) (q : Queue)
    (here : s.pool.task_queue ≡ some q) where
  -- What is known of the move, and that it throws nothing.
  abbrev Does : Type 0
  Does =
      (s' : System) × (turn d i thread env s ≡ (ok tt, s'))
      × SameFlags s.pool s'.pool
      × Moves i q s s'

  from_loop : s.pool.workers i ≡ looping → Does
  unfolding turn
  from_loop e = (
    set_worker i (if s.pool.stopped then gone else waiting) s,
    rw e refl,
    record { size = refl; stopped = refl; paused = refl; draining = refl },
    goes (record {
      next = if s.pool.stopped then gone else waiting;
      free = after_loop s.pool.stopped;
      from_to = inl (e, refl);
      queue = here;
      workers = refl;
      world = refl;
    }),
  )

  from_gone : s.pool.workers i ≡ gone → Does
  unfolding turn
  from_gone e = (
    s,
    rw e refl,
    record { size = refl; stopped = refl; paused = refl; draining = refl },
    rests refl (inl e),
  )

  may_not_run :
      s.pool.workers i ≡ waiting
      → run_allowed s.pool ≡ false
      → (q.items ≡ []) ⊎ (s.pool.paused ≡ true)
      → Does
  unfolding turn
  may_not_run e h why = elim (Bool-cases s.pool.stopped) [
    | inl k ↦ (
      set_worker i looping s,
      rw (e, h, k) refl,
      record { size = refl; stopped = refl; paused = refl; draining = refl },
      goes (record {
        next = looping;
        free = looping-IsFree;
        from_to = inr (e, k, refl);
        queue = here;
        workers = refl;
        world = refl;
      }),
    )
    | inr k ↦ (
      s,
      rw (e, h, k) refl,
      record { size = refl; stopped = refl; paused = refl; draining = refl },
      rests refl (inr (k, e, why)),
    )
  ]

  may_run :
      (x : Item) (xs : List Item)
      → s.pool.workers i ≡ waiting
      → q.items ≡ x ∷ xs
      → s.pool.paused ≡ false
      → Ready s.world x
      → Does
  unfolding turn run_allowed empty process_task front pop
  may_run x xs e items open_now ready = (
    record {
      pool = record (s.pool) {
        task_queue = some (record q { items = xs });
        workers = update s.pool.workers i (working x);
      };
      world = set_task x.0 (assigned thread (s.world.tasks x.0)) s.world;
    },
    rw (e, here, items, open_now, set_thread_id_logs x.0 thread s.world ready.0) refl,
    record { size = refl; stopped = refl; paused = refl; draining = refl },
    takes (record {
      first = x;
      others = xs;
      items = items;
      allowed = open_now;
      was = e;
      queue = refl;
      workers = refl;
      thread = thread;
      world = refl;
    }),
  )

  from_wait : s.pool.workers i ≡ waiting → All (Ready s.world) q.items → Does
  unfolding run_allowed empty
  from_wait e ready = elim (list-cases q.items) [
    | inl none_left ↦ may_not_run e (rw (here, none_left) refl) (inl none_left)
    | inr (x, xs, items) ↦ elim (Bool-cases s.pool.paused) [
      | inl h ↦ may_not_run e (rw (here, items, h) refl) (inr h)
      | inr h ↦ may_run x xs e items h (rw items at ready).0
    ]
  ]

  at_work :
      (x : Item) (seed : ℕ)
      → InBounds d
      → env.entropy ≡ some seed
      → s.pool.workers i ≡ working x
      → Ready s.world x
      → Waits s.world x
      → Does
  unfolding turn
  at_work x seed inside random e ready waits =
      let (r, returns, a, v, _, recs, others, same, ts) =
        execute_task_serves d x.0 env s q seed inside here ready.0 random ready.1 waits in
      let mid = (execute_task d x.0 env s).1 in
      let (s', f) = finish-Finishes i mid q (ap (λ p. p.task_queue) same ∙ here) in
      (
        s',
        rw (e, returns) f.ends,
        subst (λ p. SameFlags p s'.pool) same f.flags,
        serves (record {
          call = x;
          was = e;
          next = f.next;
          free = f.free;
          is_next =
              subst (λ p. (f.next ≡ looping) ⊎ ((f.next ≡ gone) × (p.wait_for_completion ≡ true)))
                same f.is_next;
          queue = f.queue ∙ ap (λ p. p.task_queue) same ∙ here;
          workers = f.workers ∙ ap (λ p. update p.workers i f.next) same;
          env = env;
          result = r;
          answered = rw f.world a;
          verdict = v;
          promises = λ p ne. rw f.world (others p ne);
          tasks = λ t ne. rw f.world (ts t ne);
          records = λ k. rw f.world (recs k);
        }),
      )

  -- A worker's move in a pool whose calls can all be served throws nothing.
  pub turn-Moves :
      (n seed : ℕ)
      → InBounds d
      → env.entropy ≡ some seed
      → Inv n q.items s.pool.workers s.world
      → Does
  turn-Moves n seed inside random v = elim (worker-cases (s.pool.workers i)) [
    | inl e ↦ from_loop e
    | inr (inl e) ↦ from_wait e (All-map q.items (λ x o. o.ready) v.queued)
    | inr (inr (inl (x, e))) ↦
        at_work x seed inside random e (v.held i x e).ready (v.held i x e).waits
    | inr (inr (inr e)) ↦ from_gone e
  ]
