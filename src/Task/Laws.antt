-- ===== src/Task/Laws.antt =====
-- What `doTask` makes of a call.
use protei_cov.Prelude.{
  ℕ, ◌≤◌, ◌≡◌, ◌≢◌, true, false, none, some, ltb_ℤ, ◌≤ℤ◌, ◌<ℤ◌, ◌⊎◌, inl, inr, ℤ, pos, arith,
  Bool-cases,
}
use protei_cov.Effects.{Exception, ok, throws, fault}
use protei_cov.CallRecord.{CallStatus, completed, timeout, CallResult}
use protei_cov.World.{Task, World, pending, failed, set_exception}
use protei_cov.Task.Defs.{Readings, Distribution, seconds_between, do_task, create_result_object}

-- The contract of `std::uniform_int_distribution`.
abbrev pub InBounds : Distribution → Type 0
InBounds d = (a b : ℤ) (seed : ℕ) → a ≤ℤ b → (a ≤ℤ d a b seed) × (d a b seed ≤ℤ b)

-- How long the call has waited when its operator takes it.
abbrev pub waited : Task → Readings → ℤ
waited v env = seconds_between v.cdr.start_time env.now

-- The verdict on a call: served in time, for a length in the task's bounds, or timed out.
abbrev pub Verdict : Task → Readings → CallStatus → ℤ → Type 0
Verdict v env status length =
    ((waited v env <ℤ v.r_max) × (status ≡ completed) × (v.r_min ≤ℤ length) × (length ≤ℤ v.r_max))
    ⊎ ((v.r_max ≤ℤ waited v env) × (status ≡ timeout) × (length ≡ pos 0))

module _ (d : Distribution) (t : ℕ) (env : Readings) (w : World) where
  abbrev task : Task
  task = w.tasks t

  abbrev after : World
  after = (do_task d t env w).1

  verdict :
      (seed : ℕ)
      → InBounds d
      → task.has_logger ≡ true
      → env.entropy ≡ some seed
      → task.r_min ≤ℤ task.r_max
      → Verdict task env
          (create_result_object t after).status
          (create_result_object t after).call_duration
  unfolding do_task
  verdict seed inside logging random ordered =
      elim (Bool-cases (ltb_ℤ (waited task env) task.r_max)) [
        | inl soon ↦ inl (
          ground arith,
          ground arith,
          ground (arith, inside task.r_min task.r_max seed),
          ground (arith, inside task.r_min task.r_max seed),
        )
        | inr late ↦ inr (ground arith, ground arith, ground arith)
      ]

  -- With a logger, a random source and ordered bounds, `doTask` returns: the call is completed, for
  -- a length within the bounds, exactly if it waited less than RMax seconds, and else timed out
  -- with length 0. Result and CDR say the same, under the task's call id, and nothing but the task
  -- has changed.
  pub do_task-Verdict :
      (seed : ℕ)
      → InBounds d
      → task.has_logger ≡ true
      → env.entropy ≡ some seed
      → task.r_min ≤ℤ task.r_max
      → (r : CallResult) × ((do_task d t env w).0 ≡ ok r)
        × Verdict task env r.status r.call_duration
        × (r.call_id ≡ task.task_id)
        × ((after.tasks t).cdr.status ≡ r.status)
        × ((after.tasks t).cdr.call_duration ≡ r.call_duration)
        × (after.promises ≡ w.promises)
        × (after.records ≡ w.records)
        × ((s : ℕ) → s ≢ t → after.tasks s ≡ w.tasks s)
  unfolding do_task
  do_task-Verdict seed inside logging random ordered = (
    create_result_object t after,
    ground arith,
    verdict seed inside logging random ordered,
    ground arith,
    ground arith,
    ground arith,
    ground arith,
    ground arith,
    λ s ne. ground arith,
  )

  -- The client stays the same.
  pub do_task_promise :
      task.has_logger ≡ true
      → env.entropy ≢ none
      → task.r_min ≤ℤ task.r_max
      → (after.tasks t).promise ≡ task.promise
  unfolding do_task
  do_task_promise logging random ordered = ground arith

  -- With a logger, a random source and ordered bounds, the times of the record come in order
  -- wherever the clock's readings do: the call came in, was taken by the operator, and ended.
  pub do_task_times :
      task.has_logger ≡ true
      → env.entropy ≢ none
      → task.r_min ≤ℤ task.r_max
      → task.cdr.start_time ≤ env.now
      → env.now ≤ env.now_called
      → env.now_called ≤ env.now_ended
      → ((after.tasks t).cdr.start_time ≤ (after.tasks t).cdr.operator_call_time)
        × ((after.tasks t).cdr.operator_call_time ≤ (after.tasks t).cdr.end_time)
  unfolding do_task
  do_task_times logging random ordered p q r = (ground arith, ground arith)

  -- Where the random device fails for a call that is still in time, `doTask` fails the promise of
  -- the task with the exception and throws it on.
  pub do_task_no_entropy :
      task.has_logger ≡ true
      → env.entropy ≡ none
      → waited task env <ℤ task.r_max
      → w.promises task.promise ≡ pending
      → ((do_task d t env w).0 ≡ throws Exception.system_failure)
        × (after.promises task.promise ≡ failed Exception.system_failure)
  unfolding do_task set_exception
  do_task_no_entropy logging random soon waiting = (ground arith, ground arith)

  -- Without a logger no call of `doTask` returns: it reads through the null pointer.
  pub do_task_no_logger : task.has_logger ≡ false → (do_task d t env w).0 ≡ fault
  unfolding do_task
  do_task_no_logger off = ground arith
