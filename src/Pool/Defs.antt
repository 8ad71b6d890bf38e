-- ===== src/Pool/Defs.antt =====
-- The class ThreadPool. What runs under `task_queue_mutex` is one step; so is the run of a task. A
-- worker is where its thread stands in `run`. Notifications only wake workers that may go on, and
-- a worker may try at any time, so they are left out; `std::hash` of a thread is an argument.
use protei_cov.Prelude.{
  ℕ, ◌+◌, ◌-◌, ◌%◌, ◌^◌, Bool, true, false, not, ◌&&◌, ◌||◌, Option, none, some, if◌then◌else◌, ltb,
  ℤ, pos, negsuc,
}
use protei_cov.Effects.{
  Outcome, ok, throws, fault, Exec, pure, gets, modify, when, try_catch, ◌>>=◌, ◌>>◌,
}
use protei_cov.Stdlib.Stoll.{stoll}
use protei_cov.World.{World, set_value, set_exception, update}
use protei_cov.Task.{Readings, Distribution, do_task, set_call_id, set_thread_id, get_number}
use protei_cov.Queue.{Item, Queue, new_queue, front, empty, push, pop, write_cdr}

-- Where a worker stands: at the head of its loop, in the wait, with a task in hand, or gone.
pub data Worker : Type 0 where
  looping waiting gone : Worker
  working : Item → Worker

pub record ThreadPool : Type 0 where
  pub task_queue : Option Queue
  pub size : ℕ
  pub workers : ℕ → Worker
  pub completed_task_count : ℕ
  pub stopped : Bool
  pub paused : Bool
  pub wait_for_completion : Bool
  pub has_logger : Bool

pub record System : Type 0 where
  pub pool : ThreadPool
  pub world : World

-- The constructor: `size_of_queue` is unsigned and goes to the queue as an `int`.
abbrev pub to_int : ℕ → ℤ
to_int n = let w = n % 2 ^ 32 in if ltb w (2 ^ 31) then pos w else negsuc (2 ^ 32 - 1 - w)

unfoldable pub new_pool : ℕ → ℕ → Outcome ThreadPool
new_pool amount_of_threads size_of_queue = elim (new_queue (to_int size_of_queue)) [
  | throws e ↦ throws e
  | fault ↦ fault
  | ok q ↦ ok (record {
    task_queue = some q;
    size = amount_of_threads;
    workers = λ i. looping;
    completed_task_count = 0;
    stopped = false;
    paused = true;
    wait_for_completion = false;
    has_logger = false;
  })
]

abbrev pub set_pool : (ThreadPool → ThreadPool) → System → System
set_pool f s = record s { pool = f s.pool }

-- A call through `task_queue`.
abbrev store : {A : Type 0} → System → Outcome A × (Queue × World) → Outcome A × System
store s (r, (q, w)) = (r, record { pool = record (s.pool) { task_queue = some q }; world = w })

abbrev pub on_queue : {A : Type 0} → Exec (Queue × World) A → Exec System A
on_queue f s = elim s.pool.task_queue [ none ↦ (fault, s) | some q ↦ store s (f (q, s.world)) ]

abbrev pub on_world : {A : Type 0} → Exec World A → Exec System A
on_world f s = let (r, w) = f s.world in (r, record s { world = w })

unfoldable pub run_allowed : ThreadPool → Bool
run_allowed p = elim p.task_queue [ none ↦ false | some q ↦ not (empty q) && not p.paused ]

-- `unsigned long long` of a thread's hash and a number
abbrev pub to_u64 : ℤ → ℕ
to_u64 (pos n) = n
to_u64 (negsuc n) = 2 ^ 64 - 1 - n

unfoldable pub generate_call_id : ℕ → ℤ → ℕ
generate_call_id thread number = (thread + to_u64 number) % 2 ^ 64

-- `push` where there is a queue; its result only decides on a notification.
unfoldable pub offer : ℕ → Item → Exec System (Unit {0})
offer now x = do
  set ← gets (λ s. elim s.pool.task_queue [ none ↦ false | some q ↦ true ])
  when set (on_queue (push now x) >> pure tt)

unfoldable pub add_task : ℕ → ℕ → ℕ → Exec System ℕ
unfolding offer
add_task thread now t = do
  number ← gets (λ s. stoll (get_number t s.world))
  n ← (λ s. (number, s))
  let id = generate_call_id thread n
  on_world (set_call_id t id)
  offer now (t, id)
  pure id

-- Under the lock: the first item leaves the queue, with the operator's id in its record.
unfoldable pub process_task : ℕ → Exec System Item
process_task thread = do
  x ← on_queue (λ s. (front s.0, s))
  on_world (set_thread_id x.0 thread)
  on_queue pop
  pure x

module _ (distribution : Distribution) where
  -- The `try` block of `executeTask`.
  unfoldable pub serve : ℕ → Readings → Exec System (Unit {0})
  serve t env = do
    res ← on_world (do_task distribution t env)
    cdr ← gets (λ s. (s.world.tasks t).cdr)
    on_queue (write_cdr cdr)
    p ← gets (λ s. (s.world.tasks t).promise)
    on_world (set_value p res)

  unfoldable pub execute_task : ℕ → Readings → Exec System (Unit {0})
  unfolding serve
  execute_task t env =
      try_catch (serve t env)
        λ e. do p ← gets (λ s. (s.world.tasks t).promise); on_world (set_exception p e)

abbrev pub set_worker : ℕ → Worker → System → System
set_worker i k s = set_pool (λ p. record p { workers = update p.workers i k }) s

-- Behind `executeTask`: a worker that is to wait for completion leaves an empty queue for good. Without
-- a queue the call of `empty` goes through a null pointer.
abbrev pub drained : ThreadPool → Outcome Bool
drained p =
    if p.wait_for_completion
    then elim p.task_queue [ none ↦ fault | some q ↦ ok (empty q) ]
    else ok false

abbrev pub leave : ℕ → Bool → System → System
leave i last s =
    if last
    then set_worker i Worker.gone s
    else set_worker i Worker.looping
        (set_pool (λ p. record p { completed_task_count = p.completed_task_count + 1 }) s)

unfoldable pub finish : ℕ → Exec System (Unit {0})
finish i = do last ← (λ s. (drained s.pool, s)); modify (leave i last)

-- One move of worker `i`, whose thread hashes to `thread`, in `run`.
module _ (distribution : Distribution) (i thread : ℕ) (env : Readings) where
  unfoldable pub take_up : Exec System (Unit {0})
  unfolding process_task
  take_up = do x ← process_task thread; modify (set_worker i (Worker.working x))

  unfoldable pub move : Worker → Exec System (Unit {0})
  unfolding finish take_up
  move Worker.looping s =
      (ok tt, set_worker i (if s.pool.stopped then Worker.gone else Worker.waiting) s)
  move Worker.waiting s =
      if run_allowed s.pool
      then take_up s
      else if s.pool.stopped
      then (ok tt, set_worker i Worker.looping s)
      else (ok tt, s)
  move (Worker.working x) s = (execute_task distribution x.0 env >> finish i) s
  move Worker.gone s = (ok tt, s)

  unfoldable pub turn : Exec System (Unit {0})
  unfolding move
  turn s = move (s.pool.workers i) s

unfoldable pub start : ThreadPool → ThreadPool
start p =
    if p.paused || p.stopped
    then record p { stopped = false; paused = false; wait_for_completion = false }
    else p

unfoldable pub stop : ThreadPool → ThreadPool
stop p = record p { paused = true; wait_for_completion = true }

-- `transferObjects` from another pool than itself; both point to one queue then.
unfoldable pub transfer_objects : ThreadPool → ThreadPool → ThreadPool
transfer_objects old p = record p { task_queue = old.task_queue }

unfoldable pub set_task_queue : Option Queue → ThreadPool → ThreadPool
set_task_queue q p = record p { task_queue = q }

-- A logger goes to the queue too, which must be there.
unfoldable pub set_logger : Bool → ThreadPool → Outcome ThreadPool
set_logger logger p =
    if logger
    then elim p.task_queue [
      | none ↦ fault
      | some q ↦
          ok (record p { has_logger = true; task_queue = some (record q { has_logger = true }) })
    ]
    else ok (record p { has_logger = false })

unfoldable pub get_size : ThreadPool → ℕ
get_size p = p.size
