-- ===== src/Tests/ServerTests.antt =====
-- Operators and the server.
use protei_cov.Prelude.{
  ℕ, ◌+◌, ◌≡◌, ◌≢◌, ◌++◌, refl, true, false, [], ◌∷◌, none, some, codes, ℤ, pos, arith,
}
use protei_cov.Effects.{ok, throws, Exception}
use protei_cov.CallRecord.{duplication, CallResult}
use protei_cov.World.{value, failed}
use protei_cov.Task.{new_task, seconds_between}
use protei_cov.Task.Laws.{Verdict}
use protei_cov.Pool.{ThreadPool, System, working, generate_call_id, execute_task}
use protei_cov.Pool.Execute.{given, execute_task_serves, execute_task_no_entropy}
use protei_cov.Pool.CallId.{IsLong, generate_call_id_collides}
use protei_cov.Http.{IManager, result, handle_http_request}
use protei_cov.Http.Laws.{Reports, phone_reply}
use protei_cov.Tests.CallTests.{
  calls_world, two_waiting, three_tasks, shortest, shortest-InBounds, at_second,
}

abbrev busy_pool : ThreadPool
busy_pool = record {
  task_queue = some two_waiting;
  size = 2;
  workers = λ i. working (3, 73);
  completed_task_count = 0;
  stopped = false;
  paused = false;
  wait_for_completion = false;
  has_logger = true;
}

abbrev busy : System
busy = record { pool = busy_pool; world = calls_world }

execute_task_serves_example :
    let s' = execute_task shortest 3 (at_second 107 (some 3)) busy in
    (r : CallResult) × (s'.0 ≡ ok tt)
    × (s'.1.world.promises 3 ≡ value r)
    × Verdict (three_tasks 3) (at_second 107 (some 3)) r.status r.call_duration
    × (r.call_id ≡ 0)
    × ((k : ℕ) → s'.1.world.records k ≡ [] ++ given (0 ∷ []) k (s'.1.world.tasks 3).cdr)
    × ((p : ℕ) → p ≢ 3 → s'.1.world.promises p ≡ calls_world.promises p)
    × (s'.1.pool ≡ busy_pool)
    × ((u : ℕ) → u ≢ 3 → s'.1.world.tasks u ≡ calls_world.tasks u)
unfolding new_task
execute_task_serves_example =
    execute_task_serves shortest 3 (at_second 107 (some 3)) busy two_waiting 3 shortest-InBounds
      refl refl refl (omega arith) refl

execute_task_no_entropy_example :
    let s' = execute_task shortest 3 (at_second 107 none) busy in
    (s'.0 ≡ throws Exception.promise_already_satisfied)
    × (s'.1.world.promises 3 ≡ failed Exception.system_failure)
unfolding new_task seconds_between
execute_task_no_entropy_example =
    execute_task_no_entropy shortest 3 (at_second 107 none) busy two_waiting refl refl (omega arith)
      refl

generate_call_id_collides_example :
    (b : ℤ) × IsLong b × (generate_call_id 9 b ≡ generate_call_id 7 (pos 2134))
generate_call_id_collides_example = generate_call_id_collides 7 9 (pos 2134)

-- A manager over a counter of the calls made: it tells every caller of a duplication.
abbrev refusing : IManager ℕ
refusing = record {
  add_task = λ number n. (
    ok (17, result (record { status = duplication; call_duration = pos 0; call_id = 17 })),
    n + 1,
  );
  process_request_for_update = λ n. (ok false, n);
}

phone_reply_example :
    let (o, n) = handle_http_request true refusing true (codes "/phone=" ++ codes "2134") 5 in
    Reports 17 (record { status = duplication; call_duration = pos 0; call_id = 17 }) o × (n ≡ 6)
phone_reply_example = phone_reply refusing 5 (codes "2134")
