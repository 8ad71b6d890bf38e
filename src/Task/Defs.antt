-- ===== src/Task/Defs.antt =====
-- The class Task. The clock, the random source and the generator are parts of the environment of a
-- call of `doTask`; times are nanoseconds since the epoch.
use protei_cov.Prelude.{
  ℕ, ◌-◌, ◌/◌, Bool, Option, none, some, if◌then◌else◌, leb, ltb_ℤ, Text, ℤ, pos, negsuc,
}
use protei_cov.Effects.{
  Exception, ok, throws, fault, Exec, pure, raise, gets, modify, deref, try_catch, ◌>>=◌, ◌>>◌,
}
use protei_cov.CallRecord.{completed, timeout, Cdr, CallResult, nanos_per_second}
use protei_cov.World.{Task, World, pending, set_task, set_promise, set_exception}

-- The constructor. The members of `cdr` that it does not set are as `memory` has them; the three
-- time points have a default, the epoch.
unfoldable pub new_task : Cdr → ℤ → ℤ → Text → ℕ → Bool → ℕ → Task
new_task memory r_min r_max number start logger promise = record {
  task_id = 0;
  r_min = r_min;
  r_max = r_max;
  number = number;
  has_logger = logger;
  promise = promise;
  cdr = record memory { start_time = start; end_time = 0; operator_call_time = 0; number = number };
}

-- `std::make_shared<Task>(…)` at a free pointer, with a promise of its own.
unfoldable pub create : ℕ → Task → World → World
create t v w = set_promise v.promise pending (set_task t v w)

module _ (t : ℕ) where
  change : (Task → Task) → Exec World (Unit {0})
  change f = modify (λ w. set_task t (f (w.tasks t)) w)

  change_cdr : (Cdr → Cdr) → Exec World (Unit {0})
  unfolding change
  change_cdr f = change (λ v. record v { cdr = f v.cdr })

  use_logger : Exec World (Unit {0})
  use_logger w = deref (w.tasks t).has_logger w

  unfoldable pub set_call_id : ℕ → Exec World (Unit {0})
  unfolding change use_logger
  set_call_id id = do
    change (λ v. record v { task_id = id; cdr = record (v.cdr) { call_id = id } })
    use_logger

  unfoldable pub set_thread_id : ℕ → Exec World (Unit {0})
  unfolding change_cdr use_logger
  set_thread_id id = do change_cdr (λ c. record c { operator_id = id }); use_logger

  unfoldable pub add_promise : ℕ → Exec World (Unit {0})
  unfolding change use_logger
  add_promise p = do change (λ v. record v { promise = p }); use_logger

  unfoldable get_call_id : World → ℕ
  get_call_id w = (w.tasks t).task_id

  unfoldable pub get_number : World → Text
  get_number w = (w.tasks t).number

  unfoldable pub create_result_object : World → CallResult
  create_result_object w = record {
    status = (w.tasks t).cdr.status;
    call_duration = (w.tasks t).cdr.call_duration;
    call_id = (w.tasks t).task_id;
  }

-- What a run of `doTask` reads: the clock three times, and the random device, which may fail.
pub record Readings : Type 0 where
  pub now : ℕ
  pub now_called : ℕ
  pub now_ended : ℕ
  pub entropy : Option ℕ

-- `std::uniform_int_distribution` over the generator of a seed.
abbrev pub Distribution : Type 0
Distribution = ℤ → ℤ → ℕ → ℤ

-- `duration_cast<seconds>(now - start)`, which rounds towards zero.
unfoldable pub seconds_between : ℕ → ℕ → ℤ
seconds_between start now =
    if leb start now
    then pos ((now - start) / nanos_per_second)
    else let late = (start - now) / nanos_per_second in
      (if leb late 0 then pos 0 else negsuc (late - 1))

module _ (distribution : Distribution) (t : ℕ) where
  -- A distribution with its bounds in the wrong order is undefined.
  unfoldable pub get_duration : Option ℕ → Exec World ℤ
  get_duration none w = (throws Exception.system_failure, w)
  get_duration (some seed) w = (
    if ltb_ℤ (w.tasks t).r_max (w.tasks t).r_min
        then fault
        else ok (distribution (w.tasks t).r_min (w.tasks t).r_max seed),
    w,
  )

  unfoldable pub set_cdr_values : Readings → ℤ → Exec World (Unit {0})
  unfolding change_cdr get_duration
  set_cdr_values env waited = do
    change_cdr t (λ c. record c { operator_call_time = env.now_called })
    in_time ← gets (λ w. ltb_ℤ waited (w.tasks t).r_max)
    length ← (if in_time then get_duration env.entropy else pure (pos 0))
    change_cdr t
        (λ c. record c { call_duration = length; status = if in_time then completed else timeout })

  -- The call sleeps for its duration where it is completed; what is left of it here is the time.
  unfoldable pub log_call_details : Readings → Exec World (Unit {0})
  unfolding change_cdr use_logger
  log_call_details env = do change_cdr t (λ c. record c { end_time = env.now_ended }); use_logger t

  -- The body of the `try` block.
  attempt : Readings → Exec World CallResult
  unfolding set_cdr_values log_call_details use_logger create_result_object
  attempt env = do
    start ← gets (λ w. (w.tasks t).cdr.start_time)
    set_cdr_values env (seconds_between start env.now)
    log_call_details env
    use_logger t
    gets (create_result_object t)

  -- The handler: the promise fails with the exception, which goes on to the caller.
  give_up : Exception → Exec World CallResult
  unfolding use_logger
  give_up e = do use_logger t; p ← gets (λ w. (w.tasks t).promise); set_exception p e; raise e

  unfoldable pub do_task : Readings → Exec World CallResult
  unfolding attempt give_up
  do_task env = try_catch (attempt env) give_up
