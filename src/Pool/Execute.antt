-- ===== src/Pool/Execute.antt =====
-- What an operator makes of the call in its hand.
use protei_cov.Prelude.{
  ℕ, ◌≡◌, ◌≢◌, refl, true, List, [], ◌∷◌, ◌++◌, none, some, if◌then◌else◌, ◌==◌, ◌≤ℤ◌, ◌<ℤ◌, arith,
  sym,
}
use protei_cov.Effects.{Exception, Outcome, ok, throws}
use protei_cov.CallRecord.{Cdr, CallResult}
use protei_cov.World.{
  Task, World, pending, value, failed, set_promise, set_value, set_exception, make_record,
}
use protei_cov.Task.{Readings, Distribution, do_task}
use protei_cov.Task.Laws.{InBounds, Verdict, waited, do_task-Verdict, do_task_promise}
use protei_cov.Queue.{Queue, record_all, write_cdr}
use protei_cov.Queue.Dismiss.{record_all_keeps}
use protei_cov.Pool.Defs.{System, execute_task}
use mathlib.Core.List.{append_assoc, append-nil}

-- What the recorders `rs` are given of one record, for the recorder `k`.
abbrev pub given : List ℕ → ℕ → Cdr → List Cdr
given [] k cdr = []
given (r ∷ rs) k cdr = (if r == k then cdr ∷ [] else []) ++ given rs k cdr

record_all_records :
    (rs : List ℕ) (cdr : Cdr) (w : World) (k : ℕ)
    → (record_all rs cdr w).records k ≡ w.records k ++ given rs k cdr
unfolding record_all make_record
record_all_records [] cdr w k = sym (append-nil (w.records k))
record_all_records (r ∷ rs) cdr w k =
    rw (record_all_records rs cdr (make_record r cdr w) k)
      (ground (arith, append_assoc (w.records k) (cdr ∷ []) (given rs k cdr)))

module _ (d : Distribution) (t : ℕ) (env : Readings) (s : System) (q : Queue) where
  abbrev task : Task
  task = s.world.tasks t

  abbrev result : Outcome (Unit {0}) × System
  result = execute_task d t env s

  abbrev after : World
  after = (do_task d t env s.world).1

  -- `executeTask` where doTask returned.
  executed :
      (r : CallResult)
      → s.pool.task_queue ≡ some q
      → (do_task d t env s.world).0 ≡ ok r
      → after.promises ≡ s.world.promises
      → (after.tasks t).promise ≡ task.promise
      → s.world.promises task.promise ≡ pending
      → result ≡ (
        ok tt,
        record s {
          world =
              set_promise task.promise (value r) (record_all q.recorders (after.tasks t).cdr after);
        },
      )
  unfolding execute_task set_value write_cdr
  executed r set e same own waits =
      let kept = record_all_keeps q.recorders (after.tasks t).cdr after in
      rw (e, set) (rw (kept.0, kept.1, own, same, waits) refl)

  -- A worker serves a call that is in order (queue and logger set, random source working, bounds in
  -- order, client waiting): it throws nothing, the client gets one result, which is doTask's verdict
  -- under the call's id, and each recorder of the queue gets the record as the task then has it, once
  -- for each place it has in the list. No other client is answered, no other task
  -- changes, and the pool is as before.
  pub execute_task_serves :
      (seed : ℕ)
      → InBounds d
      → s.pool.task_queue ≡ some q
      → task.has_logger ≡ true
      → env.entropy ≡ some seed
      → task.r_min ≤ℤ task.r_max
      → s.world.promises task.promise ≡ pending
      → (r : CallResult) × (result.0 ≡ ok tt)
        × (result.1.world.promises task.promise ≡ value r)
        × Verdict task env r.status r.call_duration
        × (r.call_id ≡ task.task_id)
        × ((k : ℕ)
            → result.1.world.records k
              ≡ s.world.records k ++ given q.recorders k (result.1.world.tasks t).cdr)
        × ((p : ℕ) → p ≢ task.promise → result.1.world.promises p ≡ s.world.promises p)
        × (result.1.pool ≡ s.pool)
        × ((u : ℕ) → u ≢ t → result.1.world.tasks u ≡ s.world.tasks u)
  execute_task_serves seed inside set logging random ordered waits =
      let (r, e, v, id, _, _, same, old, tasks) =
        do_task-Verdict d t env s.world seed inside logging random ordered in
      let own = do_task_promise d t env s.world logging (λ n. cc) ordered in
      let kept = record_all_keeps q.recorders (after.tasks t).cdr after in
      rw (executed r set e same own waits) (
        r,
        refl,
        ground arith,
        v,
        id,
        λ k. rw kept.0 (ground (arith, record_all_records q.recorders (after.tasks t).cdr after k)),
        λ p ne. rw kept.1 (ground arith),
        refl,
        λ u ne. rw kept.0 (tasks u ne),
      )

  -- Where the random device fails for a call in time, the handler's own `set_exception` comes
  -- second, behind doTask's, and throws out of the worker's function.
  pub execute_task_no_entropy :
      task.has_logger ≡ true
      → env.entropy ≡ none
      → waited task env <ℤ task.r_max
      → s.world.promises task.promise ≡ pending
      → (result.0 ≡ throws Exception.promise_already_satisfied)
        × (result.1.world.promises task.promise ≡ failed Exception.system_failure)
  unfolding execute_task set_exception do_task
  execute_task_no_entropy logging random soon waiting = (ground arith, ground arith)
