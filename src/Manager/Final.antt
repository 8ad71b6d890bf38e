-- ===== src/Manager/Final.antt =====
-- Whatever the manager's methods come to, also where they renew its pool, a promise of a call that is
-- satisfied stays as it is. A new call has a promise of its own.
use protei_cov.Prelude.{ℕ, ◌≡◌, ◌≢◌, ◌≤◌, ◌<◌, refl, List, Text, ℤ, arith}
use protei_cov.Effects.{Exec, ok, pure, modify}
use protei_cov.Effects.Grows.{Order, Grows, Grows-bind, Grows-result}
use protei_cov.World.{pending}
use protei_cov.World.Final.{final_order}
use protei_cov.Task.{Distribution, create, new_task}
use protei_cov.Queue.{to_size}
use protei_cov.Queue
use protei_cov.Queue.Final.{FinalIn}
use protei_cov.Pool
use protei_cov.Pool.{System, ThreadPool, start, stop, set_pool, on_queue, get_size, new_pool}
use protei_cov.Pool.Join.{Turn, destroy}
use protei_cov.Pool.Final.{FinalAt, final_at_order, add_task-Final, destroy-Final, on_queue-Final}
use protei_cov.Manager.Rules.{update-Grows}
use protei_cov.Manager.Defs.{
  Manager, Arrival, IConfig, on_system, set_bounds, make_task, add_task, start_thread_pool,
  stop_thread_pool, set_thread_pool, set_new_thread_pool, update, on_config, on_manager,
}

-- Every promise of a call before `m'` that is satisfied in `m` is in `m'` what it was.
pub record FinalCalls (m m' : Manager) : Type 0 where
  pub later : m.next_task ≤ m'.next_task
  pub keeps :
      (p : ℕ)
      → p < m.next_task
      → m.system.world.promises p ≢ pending
      → m'.system.world.promises p ≡ m.system.world.promises p

pub chain_final_calls :
    {m m' m'' : Manager} → FinalCalls m m' → FinalCalls m' m'' → FinalCalls m m''
chain_final_calls a b = record {
  later = omega (arith, a.later, b.later);
  keeps = λ p lt set.
      let e = a.keeps p lt set in
      let k = b.keeps p (omega (arith, lt, a.later)) (λ o. set (cc (e, o))) in cc (e, k);
}

pub same_final_calls : (m : Manager) → FinalCalls m m
same_final_calls m = record { later = omega arith; keeps = λ p lt set. refl }

instance abbrev pub final_calls_order : Order FinalCalls
final_calls_order = record { same = same_final_calls; chain = chain_final_calls }

pub on_system-Final :
    {A : Type 0} {f : Exec System A} → Grows FinalAt f → Grows FinalCalls (on_system f)
on_system-Final k = record {
  at = λ m. record { later = omega arith; keeps = λ p lt set. (k.at m.system).keeps p set };
}

make_task-Final : (a : Arrival) (number : Text) → Grows FinalCalls (make_task a number)
unfolding make_task create new_task
make_task-Final a number = record {
  at = λ m. record { later = ground arith; keeps = λ p lt set. ground arith };
}

pub manager_add_task-Final : (a : Arrival) (number : Text) → Grows FinalCalls (add_task a number)
unfolding add_task
manager_add_task-Final a number = Grows-bind (make_task a number) _ (make_task-Final a number) λ t.
    Grows-bind (on_system (Pool.add_task a.thread a.now t)) (λ id. pure (id, t))
      (on_system-Final (add_task-Final a.thread a.now t)) λ id. Grows-result _

-- A change of the flags of the pool, or of the pool for another.
pool_only :
    (f : System → System) → ((s : System) → (f s).world ≡ s.world) → Grows FinalAt (modify f)
pool_only f e = record { at = λ s. record { keeps = λ p set. ground (arith, e s) } }

bounds-Final : (b : ℤ × ℤ) → Grows FinalCalls (modify (set_bounds b))
bounds-Final b = record { at = λ m. record { later = omega arith; keeps = λ p lt set. refl } }

resize-Final : (size : ℤ) → Grows FinalIn (λ q. (ok tt, Queue.update size q))
unfolding Queue.update
resize-Final size = record { at = λ q. final_order.same q.1 }

module _ (d : Distribution) where
  set_new_thread_pool-Final :
      (joining : List Turn) (p : ThreadPool) → Grows FinalCalls (set_new_thread_pool d joining p)
  unfolding set_new_thread_pool start_thread_pool stop_thread_pool
  set_new_thread_pool-Final joining p =
      Grows-bind stop_thread_pool _ (on_system-Final (pool_only (set_pool stop) λ s. refl)) λ _.
        Grows-bind (on_system (destroy d joining)) _ (on_system-Final (destroy-Final d joining))
          λ _.
            Grows-bind (on_system (modify (set_thread_pool p))) (λ _. start_thread_pool)
              (on_system-Final (pool_only (set_thread_pool p) λ s. refl))
              λ _. on_system-Final (pool_only (set_pool start) λ s. refl)

-- A config keeps its pointers to itself: its methods leave the manager's side alone.
module _ {C : Type 0} where
  -- `FinalCalls` of the managers.
  abbrev pub FinalBeside : C × Manager → C × Manager → Type 0
  FinalBeside s s' = FinalCalls s.1 s'.1

  instance abbrev pub final_beside_order : Order FinalBeside
  final_beside_order = record { same = λ s. same_final_calls s.1; chain = chain_final_calls }

  module _ {A : Type 0} where
    pub on_config-Final : (f : Exec C A) → Grows FinalBeside (on_config f)
    on_config-Final f = record { at = λ s. same_final_calls s.1 }

    pub on_manager-Final :
        {f : Exec Manager A} → Grows FinalCalls f → Grows FinalBeside (on_manager {C = C} f)
    on_manager-Final k = record { at = λ s. k.at s.1 }

  module _ (config : IConfig C Manager) (d : Distribution) (joining : List Turn) where
    pub update-Final : Grows FinalBeside (update config d joining)
    update-Final =
        update-Grows config d joining (on_config-Final config.get_min_max)
          (on_config-Final config.get_amount_of_operators)
          (on_config-Final config.get_size_of_queue) (λ b. on_manager-Final (bounds-Final b))
          (λ size. on_manager-Final (on_system-Final (on_queue-Final (resize-Final size))))
          λ p. on_manager-Final (set_new_thread_pool-Final d joining p)
