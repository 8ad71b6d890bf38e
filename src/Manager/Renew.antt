-- ===== src/Manager/Renew.antt =====
-- The manager takes over the settings of its config: `update`.
use protei_cov.Prelude.{ℕ, ◌≡◌, refl, true, false, some, List, inl, inr, ◌==◌, Bool-cases, arith}
use protei_cov.Effects.{ok}
use protei_cov.Task.{Distribution}
use protei_cov.Task.Laws.{InBounds}
use protei_cov.Queue.{Queue, new_queue}
use protei_cov.Queue
use protei_cov.Pool.{System, get_size}
use protei_cov.Pool.Join.{Turn}
use protei_cov.Pool.Kept.{Holds}
use protei_cov.Pool.Progress.{IsRunning}
use protei_cov.Pool.Placed.{Placed, queued, answered}
use protei_cov.Pool.Destroyed.{Settled}
use protei_cov.Manager.Defs.{IConfig, Manager, update, replace_pool, set_new_thread_pool}
use protei_cov.Manager.Laws.{IsLawful, IsReady, IsServed, HasPlace-Placed}
use protei_cov.Manager.Replace.{IsFreshPool, IsFair, Replaced, replaces}
use protei_cov.Manager.NewPool.{fresh_pool, new_pool_lem, set_logger_lem}

Settled-Placed :
    {p : ℕ} (q : Queue) (s : System) → Settled p q s → Placed p q.items s.pool.workers s.world
Settled-Placed q s (inl m) = queued m
Settled-Placed q s (inr t) = answered t

-- What `update` leaves: the config's settings are in force, and every client has its place.
pub record Updated {C : Type 0} {config : IConfig C Manager} (law : IsLawful config)
    (d : Distribution) (ts : List Turn) (c : C) (m : Manager) : Type 0 where
  pub after : Manager
  pub returns : update config d ts (c, m) ≡ (ok tt, (c, after))
  pub ready : IsReady after
  pub bounds : (after.r_min, after.r_max) ≡ law.bounds c
  pub operators : after.system.pool.size ≡ law.operators c
  pub places : ready.queue.size_of_queue ≡ law.places c
  pub running : m.system.pool.paused ≡ false → after.system.pool.paused ≡ false
  pub going : IsRunning m.system → IsRunning after.system
  pub same_tasks : after.next_task ≡ m.next_task
  pub kept : (p : ℕ) → IsServed p m → IsServed p after

module _ {C : Type 0} {config : IConfig C Manager} (law : IsLawful config) (d : Distribution)
    (inside : InBounds d) (ts : List Turn) (c : C) (good : law.IsGood c) (m : Manager)
    (r : IsReady m) where
  abbrev line : Queue
  line = record (r.queue) { size_of_queue = law.places c }

  -- The manager when it comes to compare the numbers of operators.
  abbrev renewed : Manager
  renewed = record m {
    r_min = (law.bounds c).0;
    r_max = (law.bounds c).1;
    system = record (m.system) { pool = record (m.system.pool) { task_queue = some line } };
  }

  renewed-Holds : Holds m.next_task line renewed.system
  renewed-Holds = record { here = refl; inv = r.holds.inv; outside = r.holds.outside }

  renewed-Served : (p : ℕ) → IsServed p m → IsServed p renewed
  renewed-Served p (lt, h) = (lt, (line, refl, HasPlace-Placed m.system r.holds h))

  same_size : (law.operators c == m.system.pool.size) ≡ true → Updated law d ts c m
  unfolding update Queue.update get_size
  same_size e = record {
    after = renewed;
    returns =
        rw
          (
            law.get_min_max_lem c good,
            r.holds.here,
            law.get_size_lem c good,
            law.get_amount_lem c good,
            e,
          )
          refl;
    ready = record {
      logs = r.logs;
      ordered = law.ordered c good;
      queue = line;
      holds = renewed-Holds;
    };
    bounds = refl;
    operators = ground arith;
    places = refl;
    running = λ h. h;
    going = λ u. record {
      not_stopped = u.not_stopped;
      not_paused = u.not_paused;
      not_draining = u.not_draining;
      staffed = u.staffed;
      present = u.present;
    };
    same_tasks = refl;
    kept = renewed-Served;
  }

  replace_pool_lem :
      (m' m'' : Manager)
      → m'.has_logger ≡ true
      → set_new_thread_pool d ts (fresh_pool (law.operators c) (law.places c)) m' ≡ (ok tt, m'')
      → replace_pool config d ts (c, m') ≡ (ok tt, (c, m''))
  unfolding replace_pool
  replace_pool_lem m' m'' logs e =
      rw
        (
          law.get_amount_lem c good,
          law.get_size_lem c good,
          new_pool_lem (law.operators c) (law.places c) (law.few c good) (law.short c good),
          set_logger_lem m'.has_logger (law.operators c) (law.places c) logs,
          e,
        )
        refl

  module _ (fair : IsFair m.system.pool.size ts) where
    fresh : IsFreshPool (fresh_pool (law.operators c) (law.places c))
    fresh = record { idle = λ i. refl; not_stopped = refl; not_started = refl }

    change : Replaced d m.next_task line ts (fresh_pool (law.operators c) (law.places c)) renewed
    change = replaces d inside m.next_task line ts _ renewed renewed-Holds fresh fair

    replaced :
        replace_pool config d ts (c, renewed)
        ≡ (ok tt, (c, record renewed { system = change.after }))
    replaced = replace_pool_lem renewed _ r.logs change.returns

    other_size : (law.operators c == m.system.pool.size) ≡ false → Updated law d ts c m
    unfolding update Queue.update get_size
    other_size e = record {
      after = record renewed { system = change.after };
      returns =
          rw
            (
              law.get_min_max_lem c good,
              r.holds.here,
              law.get_size_lem c good,
              law.get_amount_lem c good,
              e,
            )
            replaced;
      ready = record {
        logs = r.logs;
        ordered = law.ordered c good;
        queue = line;
        holds = change.holds;
      };
      bounds = refl;
      operators = change.size;
      places = refl;
      running = λ h. change.running;
      going = λ u. change.going (law.staffed c good);
      same_tasks = refl;
      kept = λ p h. (
        h.0,
        (
          line,
          change.holds.here,
          Settled-Placed line change.after (
              change.settled p
                (HasPlace-Placed renewed.system renewed-Holds (renewed-Served p h).1)),
        ),
      );
    }

    -- `update` of a manager that is ready, with a good config and a schedule in which the threads of
    -- the old pool come to their ends, returns: the bounds, the size of the queue and the number of
    -- operators are the config's, a running pool runs on, the manager is ready, and every client who
    -- had a place has one still.
    pub update-Updated : Updated law d ts c m
    update-Updated = elim (Bool-cases (law.operators c == m.system.pool.size)) [
      | inl e ↦ same_size e
      | inr e ↦ other_size e
    ]
