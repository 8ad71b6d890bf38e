-- ===== src/Pool/Final.antt =====
-- Whatever the pool's methods and its workers come to, a promise that is satisfied stays as it is.
use protei_cov.Prelude.{
  Bool, ℕ, ◌≡◌, refl, true, false, List, [], ◌∷◌, Option, none, some, inl, inr, Bool-cases,
}
use protei_cov.Effects.{Exec, pure, gets, modify, when, ◌>>◌}
use protei_cov.Effects.Grows.{Order, Grows, Grows-bind, Grows-result, Grows-when, Grows-try}
use protei_cov.Stdlib.Stoll.{stoll}
use protei_cov.World.{World, set_value, set_exception}
use protei_cov.World.Final.{Final, chain_final, final_order, set_value-Final, set_exception-Final}
use protei_cov.Task.{Readings, Distribution, do_task, get_number, set_call_id, set_thread_id}
use protei_cov.Task.Final.{set_call_id-Final, set_thread_id-Final, do_task-Final}
use protei_cov.Queue.{Item, Queue, State, front, push, write_cdr, pop}
use protei_cov.Queue.Final.{FinalIn, final_in_order, write_cdr-Final, push-Final, pop-Final}
use protei_cov.Pool.Defs.{
  System, Worker, on_queue, on_world, offer, generate_call_id, add_task, process_task, serve,
  execute_task, finish, move, turn, set_worker, run_allowed, drained, leave, set_pool, take_up,
}
use protei_cov.Pool.Join.{Turn, turns, destroy, stop_threads}

-- `Final` of the worlds.
abbrev pub FinalAt : System → System → Type 0
FinalAt s s' = Final s.world s'.world

instance abbrev pub final_at_order : Order FinalAt
final_at_order = record { same = λ s. final_order.same s.world; chain = chain_final }

module _ {A : Type 0} where
  on_world-Final : {f : Exec World A} → Grows Final f → Grows FinalAt (on_world f)
  on_world-Final k = record { at = λ s. k.at s.world }

  over_queue :
      (f : Exec State A) (s : System) (set : Option Queue)
      → s.pool.task_queue ≡ set
      → Grows FinalIn f
      → FinalAt s (on_queue f s).1
  over_queue f s none e k = rw e (final_order.same s.world)
  over_queue f s (some q) e k = rw e (k.at (q, s.world))

  pub on_queue-Final : {f : Exec State A} → Grows FinalIn f → Grows FinalAt (on_queue f)
  on_queue-Final {f = f} k = record { at = λ s. over_queue f s s.pool.task_queue refl k }

offer-Final : (now : ℕ) (x : Item) → Grows FinalAt (offer now x)
unfolding offer
offer-Final now x =
    Grows-bind (gets (λ s. elim s.pool.task_queue [ none ↦ false | some q ↦ true ]))
      (λ set. when set (on_queue (push now x) >> pure tt)) (Grows-result _)
      λ set. Grows-when set (
        Grows-bind (on_queue (push now x)) (λ _. pure tt) (on_queue-Final (push-Final now x))
          λ _. Grows-result _)

pub add_task-Final : (thread now t : ℕ) → Grows FinalAt (add_task thread now t)
unfolding add_task
add_task-Final thread now t =
    Grows-bind (gets (λ s. stoll (get_number t s.world))) _ (Grows-result _) λ number.
      Grows-bind (λ s. (number, s)) _ (Grows-result (λ s. number))
        λ n.
          Grows-bind (on_world (set_call_id t (generate_call_id thread n))) _
            (on_world-Final (set_call_id-Final t (generate_call_id thread n)))
            λ _.
              Grows-bind (offer now (t, generate_call_id thread n))
                (λ _. pure (generate_call_id thread n))
                (offer-Final now (t, generate_call_id thread n)) λ _. Grows-result _

process_task-Final : (thread : ℕ) → Grows FinalAt (process_task thread)
unfolding process_task
process_task-Final thread =
    Grows-bind (on_queue (λ s. (front s.0, s))) _ (on_queue-Final (Grows-result (λ s. front s.0)))
      λ x.
        Grows-bind (on_world (set_thread_id x.0 thread)) _
          (on_world-Final (set_thread_id-Final x.0 thread))
          λ _.
            Grows-bind (on_queue pop) (λ _. pure x) (on_queue-Final pop-Final) λ _. Grows-result _

leave-Final : (i : ℕ) (last : Bool) (s : System) → FinalAt s (leave i last s)
leave-Final i true s = final_order.same s.world
leave-Final i false s = final_order.same s.world

module _ (d : Distribution) where
  serve-Final : (t : ℕ) (env : Readings) → Grows FinalAt (serve d t env)
  unfolding serve
  serve-Final t env =
      Grows-bind (on_world (do_task d t env)) _ (on_world-Final (do_task-Final d t env)) λ res.
        Grows-bind (gets (λ s. (s.world.tasks t).cdr)) _ (Grows-result _) λ cdr.
          Grows-bind (on_queue (write_cdr cdr)) _ (on_queue-Final (write_cdr-Final cdr)) λ _.
            Grows-bind (gets (λ s. (s.world.tasks t).promise)) (λ p. on_world (set_value p res))
              (Grows-result _) λ p. on_world-Final (set_value-Final p res)

  execute_task-Final : (t : ℕ) (env : Readings) → Grows FinalAt (execute_task d t env)
  unfolding execute_task
  execute_task-Final t env = Grows-try (serve d t env) _ (serve-Final t env) λ e.
      Grows-bind (gets (λ s. (s.world.tasks t).promise)) (λ p. on_world (set_exception p e))
        (Grows-result _) λ p. on_world-Final (set_exception-Final p e)

  finish-Final : (i : ℕ) → Grows FinalAt (finish i)
  unfolding finish
  finish-Final i =
      Grows-bind (λ s. (drained s.pool, s)) (λ last. modify (leave i last))
        (Grows-result (λ s. drained s.pool)) λ last. record { at = λ s. leave-Final i last s }

  module _ (i thread : ℕ) (env : Readings) where
    take_up-Final : Grows FinalAt (take_up d i thread env)
    unfolding take_up
    take_up-Final =
        Grows-bind (process_task thread) (λ x. modify (set_worker i (Worker.working x)))
          (process_task-Final thread) λ x. record { at = λ s. final_order.same s.world }

    waiting-Final : (s : System) → FinalAt s (move d i thread env Worker.waiting s).1
    unfolding move
    waiting-Final s = elim (Bool-cases (run_allowed s.pool)) [
      | inl h ↦ rw h (take_up-Final.at s)
      | inr h ↦ elim (Bool-cases s.pool.stopped) [
        | inl g ↦ rw (h, g) (final_order.same s.world)
        | inr g ↦ rw (h, g) (final_order.same s.world)
      ]
    ]

    move-Final : (k : Worker) → Grows FinalAt (move d i thread env k)
    unfolding move
    move-Final Worker.looping = record { at = λ s. final_order.same s.world }
    move-Final Worker.waiting = record { at = waiting-Final }
    move-Final (Worker.working x) =
        Grows-bind (execute_task d x.0 env) (λ _. finish i) (execute_task-Final x.0 env)
          λ _. finish-Final i
    move-Final Worker.gone = Grows-result _

    pub turn-Final : Grows FinalAt (turn d i thread env)
    unfolding turn
    turn-Final = record { at = λ s. (move-Final (s.pool.workers i)).at s }

  turns-Final : (ts : List Turn) → Grows FinalAt (turns d ts)
  unfolding turns
  turns-Final [] = Grows-result _
  turns-Final (t ∷ ts) =
      Grows-bind (turn d t.worker t.thread t.env) (λ _. turns d ts)
        (turn-Final t.worker t.thread t.env) λ _. turns-Final ts

  pub destroy-Final : (ts : List Turn) → Grows FinalAt (destroy d ts)
  unfolding destroy
  destroy-Final ts =
      Grows-bind (modify (set_pool stop_threads)) (λ _. turns d ts)
        (record { at = λ s. final_order.same s.world }) λ _. turns-Final ts
