-- ===== src/Pool/Rounds.antt =====
-- An operator that goes on taking calls from a running pool.
use protei_cov.Prelude.{◌+◌, ap, ℕ, ◌≡◌, ◌≢◌, refl, true, false, List, ◌∷◌, some, ◌≤ℤ◌, arith}
use protei_cov.Effects.{ok, Exec, ◌>>◌}
use protei_cov.CallRecord.{CallResult}
use protei_cov.World.{Task, World, value, set_task, update}
use protei_cov.Task.{Readings, Distribution, set_thread_id}
use protei_cov.Task.Laws.{InBounds, Verdict}
use protei_cov.Queue.{Item, Queue, empty, front, pop}
use protei_cov.Queue.Valid.{promise_of, Waits}
use protei_cov.Pool.Defs.{
  System, looping, waiting, working, turn, run_allowed, process_task, finish, execute_task,
  set_worker, set_pool,
}
use protei_cov.Pool.Execute.{execute_task_serves}

-- A call that an operator can serve: it may log, and the bounds of its length are in order.
abbrev pub Ready : World → Item → Type 0
Ready w x = ((w.tasks x.0).has_logger ≡ true) × ((w.tasks x.0).r_min ≤ℤ (w.tasks x.0).r_max)

-- The pool runs, with `xs` waiting, and worker `i` is at the head of its loop.
pub record Runs (i : ℕ) (xs : List Item) (s : System) : Type 0 where
  pub queue : Queue
  pub here : s.pool.task_queue ≡ some queue
  pub items : queue.items ≡ xs
  pub going : s.pool.stopped ≡ false
  pub unpaused : s.pool.paused ≡ false
  pub staying : s.pool.wait_for_completion ≡ false
  pub free : s.pool.workers i ≡ looping

abbrev pub assigned : ℕ → Task → Task
assigned thread v = record v { cdr = record (v.cdr) { operator_id = thread } }

pub update_here : {A : Type 0} (f : ℕ → A) (i : ℕ) (v : A) → update f i v i ≡ v
update_here f i v = ground arith

pub set_thread_id_logs :
    (t thread : ℕ) (w : World)
    → (w.tasks t).has_logger ≡ true
    → set_thread_id t thread w ≡ (ok tt, set_task t (assigned thread (w.tasks t)) w)
unfolding set_thread_id
set_thread_id_logs t thread w h = ground arith

module _ (d : Distribution) (i thread : ℕ) where
  abbrev taken : Item → List Item → Queue → System → System
  taken x xs q s = record {
    pool = record (s.pool) {
      task_queue = some (record q { items = xs });
      workers = update (update s.pool.workers i waiting) i (working x);
    };
    world = set_task x.0 (assigned thread (s.world.tasks x.0)) s.world;
  }

  takes :
      (env env' : Readings) (x : Item) (xs : List Item) (s : System) (r : Runs i (x ∷ xs) s)
      → Ready s.world x
      → (turn d i thread env >> turn d i thread env') s ≡ (ok tt, taken x xs r.queue s)
  unfolding turn run_allowed empty process_task front pop
  takes env env' x xs s r h =
      rw
        (
          r.free,
          r.going,
          update_here s.pool.workers i waiting,
          r.here,
          r.items,
          r.unpaused,
          set_thread_id_logs x.0 thread s.world h.0,
        )
        refl

  goes_on :
      (s : System)
      → s.pool.wait_for_completion ≡ false
      → finish i s ≡ (
        ok tt,
        set_worker i looping
            (set_pool (λ p. record p { completed_task_count = p.completed_task_count + 1 }) s),
      )
  unfolding finish
  goes_on s h = ground arith

  -- What one round of the operator makes of the state: the first call is answered as doTask finds,
  -- nobody else is, no other task changes, and the operator is free again.
  pub record Round (env : Readings) (x : Item) (xs : List Item) (s s' : System) : Type 0 where
    pub runs : Runs i xs s'
    pub answered :
        (r : CallResult) × (s'.world.promises (promise_of s.world x) ≡ value r)
        × Verdict (s.world.tasks x.0) env r.status r.call_duration
    pub others : (p : ℕ) → p ≢ promise_of s.world x → s'.world.promises p ≡ s.world.promises p
    pub tasks : (t : ℕ) → t ≢ x.0 → s'.world.tasks t ≡ s.world.tasks t

  abbrev pub round : Readings → Exec System (Unit {0})
  round env = turn d i thread env >> turn d i thread env >> turn d i thread env

  module _ (inside : InBounds d) (env : Readings) (seed : ℕ) (random : env.entropy ≡ some seed)
      (x : Item) (xs : List Item) (s : System) (r : Runs i (x ∷ xs) s) (h : Ready s.world x)
      (waits : Waits s.world x) where
    abbrev start : System
    start = taken x xs r.queue s

    abbrev mid : System
    mid = (execute_task d x.0 env start).1

    abbrev end : System
    end =
        set_worker i looping
          (set_pool (λ p. record p { completed_task_count = p.completed_task_count + 1 }) mid)

    -- The operator has the call in hand.
    in_hand : start.world.tasks x.0 ≡ assigned thread (s.world.tasks x.0)
    in_hand = update_here s.world.tasks x.0 (assigned thread (s.world.tasks x.0))

    executes :
        (v : CallResult) × ((execute_task d x.0 env start).0 ≡ ok tt)
        × (mid.pool ≡ start.pool)
        × (mid.world.promises (promise_of s.world x) ≡ value v)
        × Verdict (s.world.tasks x.0) env v.status v.call_duration
        × ((p : ℕ) → p ≢ promise_of s.world x → mid.world.promises p ≡ s.world.promises p)
        × ((t : ℕ) → t ≢ x.0 → mid.world.tasks t ≡ s.world.tasks t)
    executes =
        let (v, e, a, verdict, _, _, old, same, tasks) =
          execute_task_serves d x.0 env start (record (r.queue) { items = xs }) seed inside refl
            (rw in_hand h.0) random (rw in_hand h.1) (rw in_hand waits) in
        (
          v,
          e,
          same,
          rw in_hand at a,
          rw in_hand at verdict,
          λ p ne. old p (rw in_hand ne),
          λ t ne. ground (arith, tasks t ne),
        )

    last_turn :
        (execute_task d x.0 env start).0 ≡ ok tt
        → mid.pool ≡ start.pool
        → turn d i thread env start ≡ (ok tt, end)
    unfolding turn
    last_turn e same =
        rw (update_here (update s.pool.workers i waiting) i (working x))
          (rw e (goes_on mid (rw same r.staying)))

    pub round-Round : (s' : System) × (round env s ≡ (ok tt, s')) × Round env x xs s s'
    round-Round =
        let (v, e, same, a, verdict, others, tasks) = executes in
        (
          end,
          rw (takes env env x xs s r h) (last_turn e same),
          record {
            runs = record {
              queue = record (r.queue) { items = xs };
              here = ap (λ p. p.task_queue) same;
              items = refl;
              going = rw same r.going;
              unpaused = rw same r.unpaused;
              staying = rw same r.staying;
              free = update_here mid.pool.workers i looping;
            };
            answered = (v, a, verdict);
            others = others;
            tasks = tasks;
          },
        )
