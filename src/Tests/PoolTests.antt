-- ===== src/Tests/PoolTests.antt =====
-- One operator on a queue of two calls.
use protei_cov.CallRecord.{CallResult}
use protei_cov.Pool.Stopping.{stop-start}
use protei_cov.World.{value}
use protei_cov.Pool.Join.{Turn}
use protei_cov.Pool.Kept.{Holds}
use protei_cov.Pool.Progress.{IsRunning}
use protei_cov.Pool.Joining.{Fit, count}
use protei_cov.Pool.Answered.{AllAnswered, turns-AllAnswered}
use protei_cov.Prelude.{[], ◌∷◌, List, ℕ, ◌≡◌, ◌<◌, ◌≤◌, refl, false, true, some, arith, All}
use protei_cov.Effects.{ok}
use protei_cov.Task.{Readings, new_task}
use protei_cov.Pool.{System, looping, working, turn, start, stop, set_pool}
use protei_cov.Pool.Rounds.{Runs, Ready}
use protei_cov.Pool.Drain.{Drains, rounds, rounds_answer}
use protei_cov.Tests.CallTests.{
  calls_world, two_waiting, two_waiting-IsValid, shortest, shortest-InBounds, at_second,
}

abbrev one_operator : System
one_operator = record {
  pool = record {
    task_queue = some two_waiting;
    size = 1;
    workers = λ i. looping;
    completed_task_count = 0;
    stopped = false;
    paused = false;
    wait_for_completion = false;
    has_logger = true;
  };
  world = calls_world;
}

one_operator-Runs : Runs 0 two_waiting.items one_operator
one_operator-Runs = record {
  queue = two_waiting;
  here = refl;
  items = refl;
  going = refl;
  unpaused = refl;
  staying = refl;
  free = refl;
}

two_waiting-Ready : All (Ready calls_world) two_waiting.items
unfolding new_task
two_waiting-Ready = ((refl, omega arith), ((refl, omega arith), tt))

abbrev on_time : ℕ → Readings
on_time n = at_second 107 (some 3)

rounds_answer_example :
    Drains shortest 0 44 shortest-InBounds on_time
      (λ n. 3)
      (λ n. refl)
      two_waiting.items
      one_operator
      (rounds shortest 0 44 shortest-InBounds on_time (λ n. 3) (λ n. refl) 2 one_operator)
rounds_answer_example =
    rounds_answer shortest 0 44 shortest-InBounds on_time (λ n. 3) (λ n. refl) two_waiting.items
      one_operator one_operator-Runs two_waiting-IsValid two_waiting-Ready

-- One operator with call 1 in hand, and nobody else waiting.
abbrev last_call : System
last_call = record one_operator {
  pool = record (one_operator.pool) {
    task_queue = some (record two_waiting { items = [] });
    workers = λ i. working (1, 71);
  };
}

stop-start_example :
    (s' : System) × (r : CallResult) × (turn shortest 0 44 (on_time 0) (set_pool stop last_call)
      ≡ (ok tt, s'))
    × (s'.world.promises 1 ≡ value r)
    × ((env : Readings) → turn shortest 0 44 env (set_pool start s') ≡ (ok tt, set_pool start s'))
unfolding new_task
stop-start_example =
    stop-start shortest 0 44 shortest-InBounds (on_time 0) 3 (1, 71) last_call
      (record two_waiting { items = [] }) refl refl refl refl (refl, omega arith) refl

one_operator-Holds : Holds 4 two_waiting one_operator
unfolding new_task
one_operator-Holds = record {
  here = refl;
  inv = record {
    queued = (
      record {
        waits = refl;
        ready = (refl, omega arith);
        task_below = omega arith;
        promise_below = omega arith;
      },
      (
        record {
          waits = refl;
          ready = (refl, omega arith);
          task_below = omega arith;
          promise_below = omega arith;
        },
        tt,
      ),
    );
    apart = two_waiting-IsValid.apart;
    held = λ i x e. absurd (cc);
    held_queued = λ i x e. absurd (cc);
    held_held = λ i j x y ne e f. absurd (cc);
  };
  outside = λ i le. refl;
}

one_operator-IsRunning : IsRunning one_operator
one_operator-IsRunning = record {
  not_stopped = refl;
  not_paused = refl;
  not_draining = refl;
  staffed = omega arith;
  present = λ j e. cc;
}

abbrev first_turn : Turn
first_turn = record { worker = 0; thread = 44; env = on_time 0 }

abbrev eight_turns : List Turn
eight_turns =
    first_turn ∷ first_turn ∷ first_turn ∷ first_turn ∷ first_turn ∷ first_turn ∷ first_turn
    ∷ first_turn ∷ []

eight_turns-Fit : All (Fit 1) eight_turns
eight_turns-Fit =
    let one : Fit 1 first_turn = (omega arith, (3, refl)) in
    (one, (one, (one, (one, (one, (one, (one, (one, tt))))))))

count-eight_turns : (j : ℕ) → j < 1 → 8 ≤ count j eight_turns
count-eight_turns j lt = ground arith

turns-AllAnswered_example : AllAnswered shortest two_waiting eight_turns one_operator
turns-AllAnswered_example =
    turns-AllAnswered shortest shortest-InBounds 4 two_waiting eight_turns one_operator
      one_operator-Holds one_operator-IsRunning eight_turns-Fit count-eight_turns
