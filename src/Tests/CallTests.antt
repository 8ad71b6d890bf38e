-- ===== src/Tests/CallTests.antt =====
-- Calls: their records, tasks and the queue.
use protei_cov.Prelude.{
  ℕ, zero, suc, ◌+◌, ◌*◌, ◌≡◌, ◌≢◌, refl, true, List, [], ◌∷◌, Option, some, Text, codes, pos,
  arith, text_eq,
}
use protei_cov.Effects.{ok}
use protei_cov.CallRecord.{
  awaiting, timeout, duplication, Cdr, CallResult, write_cdr, nanos_per_second,
}
use protei_cov.CallRecord.Reading.{write_cdr_injective}
use protei_cov.CallRecord.Fields.{separators, separators-write_cdr}
use protei_cov.World.{Task, World, pending, value}
use protei_cov.Task.{Readings, Distribution, do_task, new_task, get_number}
use protei_cov.Task.Laws.{Verdict, InBounds, do_task-Verdict}
use protei_cov.Queue.{Queue, push, same_number, unserved}
use protei_cov.Queue.Find.{others}
use protei_cov.Queue.Valid.{IsValid, IsFresh}
use protei_cov.CallRecord.{joined, prepare_time, to_string}
use protei_cov.Stdlib.Decimal.{show_int, show_nat}
use protei_cov.Queue.Line.{
  Call, Reply, Caller, pushes, pops, admitted, first, nobody, caller, line, run_calls,
}
use protei_cov.Queue.Runs.{run_calls-run_line}
use protei_cov.Queue.Laws.{push_items, push_answers}

abbrev pub no_cdr : Cdr
no_cdr = record {
  start_time = 0;
  end_time = 0;
  call_id = 0;
  status = awaiting;
  operator_call_time = 0;
  operator_id = 0;
  call_duration = pos 0;
  number = [];
}

-- A calendar text without separators.
abbrev plain_time : ℕ → Text
plain_time n = codes "2023-12-05 11:30:45"

written :
    write_cdr plain_time (record no_cdr {
      start_time = 5 * nanos_per_second;
      call_id = 17;
      status = timeout;
      number = codes "2134";
      operator_id = 12;
    })
    ≡ codes "2023-12-05 11:30:45.000;17;2134;;Timeout;;12;0s"
unfolding write_cdr joined prepare_time show_nat to_string show_int
written = refl

separators-write_cdr_example :
    separators (write_cdr plain_time (record no_cdr { number = codes "1;2" })) ≡ 8
separators-write_cdr_example =
    separators-write_cdr plain_time (λ n. refl) (record no_cdr { number = codes "1;2" })

-- Records of one call, a nanosecond apart.
abbrev at_nanos : ℕ → Cdr
at_nanos n = record no_cdr { number = codes "12"; start_time = nanos_per_second + n }

one_line : write_cdr plain_time (at_nanos 1) ≡ write_cdr plain_time (at_nanos 2)
unfolding write_cdr joined prepare_time show_nat to_string show_int
one_line = refl

write_cdr_injective_example :
    (no_cdr.call_id ≡ no_cdr.call_id)
    × (codes "12" ≡ codes "12")
    × (no_cdr.status ≡ no_cdr.status)
    × (no_cdr.operator_id ≡ no_cdr.operator_id)
    × (no_cdr.call_duration ≡ no_cdr.call_duration)
    × (prepare_time plain_time (nanos_per_second + 1)
        ≡ prepare_time plain_time (nanos_per_second + 2))
    × (prepare_time plain_time no_cdr.end_time ≡ prepare_time plain_time no_cdr.end_time)
    × (prepare_time plain_time no_cdr.operator_call_time
        ≡ prepare_time plain_time no_cdr.operator_call_time)
write_cdr_injective_example =
    write_cdr_injective plain_time (λ n. refl) (at_nanos 1) (at_nanos 2) refl refl one_line

-- A call that came in at second 100, to be served within 4 to 15 seconds.
abbrev call_task : Text → ℕ → Task
call_task number promise =
    new_task no_cdr (pos 4) (pos 15) number (100 * nanos_per_second) true promise

-- Tasks 1, 2 and 3 with their promises; 1 and 3 are calls from one number.
abbrev pub three_tasks : ℕ → Task
three_tasks zero = call_task (codes "5") 0
three_tasks (suc zero) = call_task (codes "11") 1
three_tasks (suc (suc zero)) = call_task (codes "22") 2
three_tasks (suc (suc (suc n))) = call_task (codes "11") (3 + n)

abbrev pub calls_world : World
calls_world = record { tasks = three_tasks; promises = λ p. pending; records = λ r. [] }

-- Serves every call for the shortest time.
abbrev pub shortest : Distribution
shortest a b seed = a

pub shortest-InBounds : InBounds shortest
shortest-InBounds a b seed h = (omega arith, h)

abbrev pub at_second : ℕ → Option ℕ → Readings
at_second n entropy = record {
  now = n * nanos_per_second;
  now_called = n * nanos_per_second + 1;
  now_ended = (n + 4) * nanos_per_second;
  entropy = entropy;
}

do_task-Verdict_example :
    (r : CallResult) × ((do_task shortest 1 (at_second 107 (some 3)) calls_world).0 ≡ ok r)
    × Verdict (three_tasks 1) (at_second 107 (some 3)) r.status r.call_duration
    × (r.call_id ≡ 0)
    × (((do_task shortest 1 (at_second 107 (some 3)) calls_world).1.tasks 1).cdr.status ≡ r.status)
    × (((do_task shortest 1 (at_second 107 (some 3)) calls_world).1.tasks 1).cdr.call_duration
        ≡ r.call_duration)
    × ((do_task shortest 1 (at_second 107 (some 3)) calls_world).1.promises ≡ calls_world.promises)
    × ((do_task shortest 1 (at_second 107 (some 3)) calls_world).1.records ≡ calls_world.records)
    × ((s : ℕ)
        → s ≢ 1
        → (do_task shortest 1 (at_second 107 (some 3)) calls_world).1.tasks s ≡ calls_world.tasks s)
unfolding new_task
do_task-Verdict_example =
    do_task-Verdict shortest 1 (at_second 107 (some 3)) calls_world 3 shortest-InBounds refl refl
      (omega arith)

abbrev pub two_waiting : Queue
two_waiting = record {
  items = (1, 71) ∷ (2, 72) ∷ [];
  size_of_queue = 3;
  recorders = 0 ∷ [];
  has_logger = true;
}

pub two_waiting-IsValid : IsValid two_waiting.items calls_world
unfolding new_task get_number
two_waiting-IsValid = ground arith

pub three-IsFresh : IsFresh (3, 73) two_waiting.items calls_world
unfolding new_task
three-IsFresh = ground arith

push_items_example :
    let (r, s) = push 5 (3, 73) (two_waiting, calls_world) in
    (r ≡ ok true)
    × (s.0.items ≡ (2, 72) ∷ (3, 73) ∷ [])
    × (s.0.size_of_queue ≡ 3)
    × (s.0.recorders ≡ 0 ∷ [])
unfolding others same_number text_eq get_number new_task
push_items_example = push_items 5 (3, 73) two_waiting calls_world two_waiting-IsValid three-IsFresh

push_answers_example :
    let w = (push 5 (3, 73) (two_waiting, calls_world)).1.1 in
    (w.promises 3 ≡ pending)
    × ((w.promises 1 ≡ value (unserved duplication 71)) × ((w.promises 2 ≡ pending) × Unit {0}))
unfolding same_number text_eq get_number new_task
push_answers_example =
    push_answers 5 (3, 73) two_waiting calls_world two_waiting-IsValid three-IsFresh

-- A second call from the first number, and an operator who takes two calls and finds no third.
abbrev short_run : List Call
short_run = pushes 5 (3, 73) ∷ pops ∷ pops ∷ pops ∷ []

abbrev short_replies : List Reply × List Caller
short_replies = (
  admitted ∷ first (caller calls_world (2, 72)) ∷ first (caller calls_world (3, 73)) ∷ nobody ∷ [],
  [],
)

run_calls-run_line_example :
    let (replies, s) = run_calls short_run (two_waiting, calls_world) in
    ((replies, line s) ≡ short_replies) × IsValid s.0.items s.1
unfolding get_number new_task text_eq
run_calls-run_line_example =
    run_calls-run_line short_run (two_waiting, calls_world) two_waiting-IsValid
      (record {
        waits = (three-IsFresh.waits, tt);
        own = (three-IsFresh.own, tt);
        apart = (tt, tt);
      })
