-- ===== src/Manager/Defs.antt =====
-- The class Manager, over a config of either class. The state is the config with the manager and all
-- that the manager's pointers reach; `update` and `addTask` exclude each other, so each is one step.
use protei_cov.Prelude.{
  ℕ, suc, ◌-◌, ◌%◌, ◌^◌, Bool, false, List, if◌then◌else◌, ◌==◌, Text, ℤ, pos, negsuc,
}
use protei_cov.Effects.{Outcome, ok, Exec, pure, gets, modify, deref, ◌>>=◌, ◌>>◌}
use protei_cov.CallRecord.{Cdr}
use protei_cov.Json.{Host}
use protei_cov.World.{World}
use protei_cov.Task.{Distribution, new_task, create}
use protei_cov.Queue.{to_size}
use protei_cov.Queue
use protei_cov.Pool
use protei_cov.Pool.{
  ThreadPool, System, new_pool, start, stop, transfer_objects, get_size, set_pool, on_queue,
}
use protei_cov.Pool.Join.{Turn, destroy}
use protei_cov.Config.Common.{IManager}

-- `IConfig`, as far as the manager calls it: methods on the config `C`, and the one that calls back
-- to a manager whose side is `M`. `now` is the clock's time of the request.
pub record IConfig (C M : Type 0) : Type 0 where
  pub get_min_max : Exec C (ℤ × ℤ)
  pub get_amount_of_operators : Exec C ℤ
  pub get_size_of_queue : Exec C ℤ
  pub is_updated : Exec C Bool
  pub update_with_request : IManager (C × M) → Host → ℕ → Exec (C × M) (Unit {0})

-- The manager's members, the pool it points to with the shared objects, and the first pointer that
-- no task has.
pub record Manager : Type 0 where
  pub r_min : ℤ
  pub r_max : ℤ
  pub has_logger : Bool
  pub system : System
  pub next_task : ℕ

-- `int` to `unsigned`
abbrev pub to_unsigned : ℤ → ℕ
to_unsigned (pos n) = n % 2 ^ 32
to_unsigned (negsuc n) = 2 ^ 32 - 1 - n % 2 ^ 32

abbrev pub on_system : {A : Type 0} → Exec System A → Exec Manager A
on_system f m = let (r, s) = f m.system in (r, record m { system = s })

abbrev pub set_bounds : ℤ × ℤ → Manager → Manager
set_bounds (a, b) m = record m { r_min = a; r_max = b }

abbrev pub set_world : (World → World) → Manager → Manager
set_world f m = record m { system = record (m.system) { world = f m.system.world } }

-- What `addTask` meets: the hash of the client's thread, the time, and the memory that the task's
-- record takes.
pub record Arrival : Type 0 where
  pub thread : ℕ
  pub now : ℕ
  pub memory : Cdr

-- `std::make_shared<TP::Task>(…)` at the next pointer, where the task's promise stands too.
unfoldable pub make_task : Arrival → Text → Exec Manager ℕ
make_task a number m = (
  ok m.next_task,
  record (set_world
      (create m.next_task (new_task a.memory m.r_min m.r_max number a.now m.has_logger m.next_task))
      m) { next_task = suc m.next_task },
)

-- The call's id, and the promise of its future.
unfoldable pub add_task : Arrival → Text → Exec Manager (ℕ × ℕ)
add_task a number = do
  task ← make_task a number
  id ← on_system (Pool.add_task a.thread a.now task)
  pure (id, task)

unfoldable pub start_thread_pool : Exec Manager (Unit {0})
start_thread_pool = on_system (modify (set_pool start))

unfoldable pub stop_thread_pool : Exec Manager (Unit {0})
stop_thread_pool = on_system (modify (set_pool stop))

unfoldable pub set_logger : Bool → Exec Manager (Unit {0})
set_logger logger = modify (λ m. record m { has_logger = logger }) >> deref logger

-- The pool of a system put in the place of another, which is gone then.
abbrev pub set_thread_pool : ThreadPool → System → System
set_thread_pool p s = record s { pool = transfer_objects s.pool p }

module _ (distribution : Distribution) where
  -- The manager holds the only pointer to its pool, so that `threadPool_ = pool` destroys the old
  -- one. Both pools point to one queue then; the new one is paused, so that only the threads of the
  -- old one move.
  unfoldable pub set_new_thread_pool : List Turn → ThreadPool → Exec Manager (Unit {0})
  set_new_thread_pool joining p = do
    stop_thread_pool
    on_system (destroy distribution joining)
    on_system (modify (set_thread_pool p))
    start_thread_pool

-- A result that was computed without the state.
abbrev pub lift : {S A : Type 0} → Outcome A → Exec S A
lift r s = (r, s)

module _ {C : Type 0} where
  abbrev pub on_config : {A : Type 0} → Exec C A → Exec (C × Manager) A
  on_config f s = let (r, c) = f s.0 in (r, (c, s.1))

  abbrev pub on_manager : {A : Type 0} → Exec Manager A → Exec (C × Manager) A
  on_manager f s = let (r, m) = f s.1 in (r, (s.0, m))

module _ {C : Type 0} (config : IConfig C Manager) where
  unfoldable pub new_manager : System → Exec C Manager
  new_manager s = do
    bounds ← config.get_min_max
    pure (record {
      r_min = bounds.0;
      r_max = bounds.1;
      has_logger = false;
      system = s;
      next_task = 0;
    })

  module _ (distribution : Distribution) (joining : List Turn) where
    -- The block under the comparison of the numbers of operators.
    unfoldable pub replace_pool : Exec (C × Manager) (Unit {0})
    replace_pool = do
      amount ← on_config config.get_amount_of_operators
      size ← on_config config.get_size_of_queue
      p ← lift (new_pool (to_unsigned amount) (to_unsigned size))
      logger ← gets (λ s. s.1.has_logger)
      p' ← lift (Pool.set_logger logger p)
      on_manager (set_new_thread_pool distribution joining p')

    unfoldable pub update : Exec (C × Manager) (Unit {0})
    unfolding replace_pool
    update = do
      bounds ← on_config config.get_min_max
      on_manager (modify (set_bounds bounds))
      size ← on_config config.get_size_of_queue
      on_manager (on_system (on_queue (λ q. (ok tt, Queue.update size q))))
      amount ← on_config config.get_amount_of_operators
      current ← gets (λ s. get_size s.1.system.pool)
      if to_size amount == current then pure tt else replace_pool

    -- This manager, for a config to notify.
    abbrev pub itself : IManager (C × Manager)
    itself = record { update = update }

    unfoldable pub process_request_for_update : Host → ℕ → Exec (C × Manager) Bool
    process_request_for_update host now = do
      config.update_with_request itself host now
      on_config config.is_updated

    unfoldable pub set_new_config : C → Exec (C × Manager) (Unit {0})
    set_new_config c = modify (λ s. (c, s.1)) >> update
