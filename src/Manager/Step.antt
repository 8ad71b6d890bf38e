-- ===== src/Manager/Step.antt =====
-- One event of a manager, and what it keeps.
use protei_cov.Prelude.{
  ℕ, ◌≡◌, ◌≤◌, refl, sym, ap, ◌∙◌, subst, Option, none, some, List, inl, inr, Text, arith,
}
use protei_cov.Effects.{ok}
use protei_cov.Task.{Distribution}
use protei_cov.Task.Laws.{InBounds}
use protei_cov.Pool.{ThreadPool, start, stop}
use protei_cov.Pool.Join.{Turn}
use protei_cov.Pool.Progress.{IsRunning}
use protei_cov.Manager.Defs.{
  IConfig, Manager, Arrival, set_new_config, start_thread_pool, stop_thread_pool,
}
use protei_cov.Manager.Laws.{flags-IsReady, IsLawful, IsReady, IsServed, HasPlace-Placed}
use protei_cov.Manager.Replace.{IsFair}
use protei_cov.Manager.Arrive.{add_task-Arrived}
use protei_cov.Manager.Move.{worker_moves-Moved}
use protei_cov.Manager.Renew.{update-Updated}
use protei_cov.Manager.Events.{
  Event, calls, moves, updates, takes_config, starts, stops, current_size, step, IsAllowed, IsBusy,
}

module _ {C : Type 0} {config : IConfig C Manager} (law : IsLawful config) (d : Distribution)
    (inside : InBounds d) where
  -- One event, without a fault or an exception that nobody catches.
  pub record Stepped (e : Event C) (s : C × Manager) : Type 0 where
    pub end : C × Manager
    pub promise : Option ℕ
    pub returns : step config d e s ≡ (ok promise, end)
    pub good : law.IsGood end.0
    pub ready : IsReady end.1
    pub running : IsBusy e → IsRunning s.1.system → IsRunning end.1.system
    pub kept : (p : ℕ) → IsServed p s.1 → IsServed p end.1
    pub later : s.1.next_task ≤ end.1.next_task
    pub new : (p : ℕ) → promise ≡ some p → (p ≡ s.1.next_task) × IsServed p end.1

  nobody : {X : Type 0} (p : ℕ) → none ≡ some p → X
  nobody p e = absurd (cc)

  module _ (s : C × Manager) (good : law.IsGood s.0) (r : IsReady s.1) where
    calls-Stepped : (a : Arrival) (number : Text) → Stepped (calls a number) s
    calls-Stepped a number =
        let v = add_task-Arrived a number s.1 r in
        elim v.outcome [
          | inl (e, h, returns) ↦ record {
            end = (s.0, v.after);
            promise = none;
            returns = rw returns refl;
            good = good;
            ready = v.ready;
            running = λ b u. v.running u;
            kept = v.kept;
            later = omega (arith, v.next);
            new = λ p h. nobody p h;
          }
          | inr (z, h, returns, mine) ↦ record {
            end = (s.0, v.after);
            promise = some s.1.next_task;
            returns = rw returns refl;
            good = good;
            ready = v.ready;
            running = λ b u. v.running u;
            kept = v.kept;
            later = omega (arith, v.next);
            new = λ p e.
                let same : s.1.next_task ≡ p = cc in
                (sym same, subst (λ u. IsServed u v.after) same mine);
          }
        ]

    moves-Stepped : (t : Turn) (seed : ℕ) → t.env.entropy ≡ some seed → Stepped (moves t) s
    moves-Stepped t seed random =
        let v = worker_moves-Moved d t s.1 seed inside random r in
        record {
          end = (s.0, v.after);
          promise = none;
          returns = rw v.returns refl;
          good = good;
          ready = v.ready;
          running = λ b u. v.running u;
          kept = v.kept;
          later = omega (arith, v.same_tasks);
          new = λ p h. nobody p h;
        }

    updates-Stepped :
        (joining : ℕ → List Turn) → ((n : ℕ) → IsFair n (joining n)) → Stepped (updates joining) s
    updates-Stepped joining fair =
        let u =
          update-Updated law d inside (joining (current_size config d s)) s.0 good s.1 r
            (fair (current_size config d s)) in
        record {
          end = (s.0, u.after);
          promise = none;
          returns = rw u.returns refl;
          good = good;
          ready = u.ready;
          running = λ b v. u.going v;
          kept = u.kept;
          later = omega (arith, u.same_tasks);
          new = λ p h. nobody p h;
        }

    takes_config-Stepped :
        (c : C) (joining : ℕ → List Turn)
        → law.IsGood c
        → ((n : ℕ) → IsFair n (joining n))
        → Stepped (takes_config c joining) s
    unfolding set_new_config
    takes_config-Stepped c joining fine fair =
        let u =
          update-Updated law d inside (joining (current_size config d s)) c fine s.1 r
            (fair (current_size config d s)) in
        record {
          end = (c, u.after);
          promise = none;
          returns = rw u.returns refl;
          good = fine;
          ready = u.ready;
          running = λ b v. u.going v;
          kept = u.kept;
          later = omega (arith, u.same_tasks);
          new = λ p h. nobody p h;
        }

    -- The flags of the pool do not matter here.
    flags-Stepped :
        (e : Event C) (p : ThreadPool)
        → step config d e s
          ≡ (ok none, (s.0, record (s.1) { system = record (s.1.system) { pool = p } }))
        → p.task_queue ≡ s.1.system.pool.task_queue
        → p.size ≡ s.1.system.pool.size
        → p.workers ≡ s.1.system.pool.workers
        → (IsBusy e → IsRunning s.1.system → IsRunning (record (s.1.system) { pool = p }))
        → Stepped e s
    flags-Stepped e p returns same_queue size same running = record {
      end = (s.0, record (s.1) { system = record (s.1.system) { pool = p } });
      promise = none;
      returns = returns;
      good = good;
      ready = flags-IsReady s.1 p r same_queue size same;
      running = running;
      kept = λ p' (below, place). (
        below,
        (r.queue, same_queue ∙ r.holds.here, rw same (HasPlace-Placed s.1.system r.holds place)),
      );
      later = omega arith;
      new = λ p' h. nobody p' h;
    }

    starts-Stepped : Stepped starts s
    unfolding start_thread_pool start
    starts-Stepped =
        flags-Stepped starts (start s.1.system.pool) refl (ground arith) (ground arith)
          (ground arith)
          (λ b u.
            let same : (start s.1.system.pool).workers ≡ s.1.system.pool.workers = ground arith in
            record {
              not_stopped = ground (arith, u.not_stopped);
              not_paused = ground (arith, u.not_paused);
              not_draining = ground (arith, u.not_draining);
              staffed = ground (arith, u.staffed);
              present = λ j h. u.present j (ap (λ f. f j) (sym same) ∙ h);
            })

    stops-Stepped : Stepped stops s
    unfolding stop_thread_pool stop
    stops-Stepped = flags-Stepped stops (stop s.1.system.pool) refl refl refl refl (λ b u. absurd b)

    pub step-Stepped : (e : Event C) → IsAllowed law e → Stepped e s
    step-Stepped (calls a number) h = calls-Stepped a number
    step-Stepped (moves t) (seed, h) = moves-Stepped t seed h
    step-Stepped (updates joining) h = updates-Stepped joining h
    step-Stepped (takes_config c joining) (fine, h) = takes_config-Stepped c joining fine h
    step-Stepped starts h = starts-Stepped
    step-Stepped stops h = stops-Stepped
