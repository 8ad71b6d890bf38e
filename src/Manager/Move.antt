-- ===== src/Manager/Move.antt =====
-- One move of an operator of a manager's pool, in whatever the pool is doing.
use protei_cov.Prelude.{
  ℕ, ◌≡◌, ◌<◌, refl, ◌∙◌, some, inl, inr, if◌then◌else◌, ltb, Bool-cases, arith,
}
use protei_cov.Effects.{ok, Exec, pure}
use protei_cov.Task.{Distribution}
use protei_cov.Task.Laws.{InBounds}
use protei_cov.Queue.{Queue}
use protei_cov.Pool.{System, turn}
use protei_cov.Pool.Join.{Turn}
use protei_cov.Pool.Turn.{turn-Moves}
use protei_cov.Pool.Moves.{SameFlags, Moves}
use protei_cov.Pool.Progress.{IsRunning, Moves-Progress}
use protei_cov.Pool.Placed.{Moves-Kept}
use protei_cov.Manager.Defs.{Manager, on_system}
use protei_cov.Manager.Laws.{IsReady, IsServed, HasPlace-Placed}

-- A worker that the pool does not have makes no move.
abbrev pub worker_moves : Distribution → Turn → Exec Manager (Unit {0})
worker_moves d t m =
    (if ltb t.worker m.system.pool.size
        then on_system (turn d t.worker t.thread t.env)
        else pure tt)
      m

moved-IsRunning :
    {i : ℕ} {q q' : Queue} {s s' : System}
    → IsRunning s
    → SameFlags s.pool s'.pool
    → s.pool.task_queue ≡ some q
    → s'.pool.task_queue ≡ some q'
    → Moves i q s s'
    → IsRunning s'
moved-IsRunning u f before here m = record {
  not_stopped = f.stopped ∙ u.not_stopped;
  not_paused = f.paused ∙ u.not_paused;
  not_draining = f.draining ∙ u.not_draining;
  staffed = omega (arith, u.staffed, f.size);
  present = (Moves-Progress u before here m).running;
}

-- What a move leaves of a manager.
pub record Moved (d : Distribution) (t : Turn) (m : Manager) : Type 0 where
  pub after : Manager
  pub returns : worker_moves d t m ≡ (ok tt, after)
  pub turned :
      t.worker < m.system.pool.size
      → turn d t.worker t.thread t.env m.system ≡ (ok tt, after.system)
  pub same : after ≡ record m { system = after.system }
  pub ready : IsReady after
  pub size : after.system.pool.size ≡ m.system.pool.size
  pub running : IsRunning m.system → IsRunning after.system
  pub same_tasks : after.next_task ≡ m.next_task
  pub kept : (p : ℕ) → IsServed p m → IsServed p after

pub worker_moves-Moved :
    (d : Distribution) (t : Turn) (m : Manager) (seed : ℕ)
    → InBounds d
    → t.env.entropy ≡ some seed
    → IsReady m
    → Moved d t m
worker_moves-Moved d t m seed inside random r =
    elim (Bool-cases (ltb t.worker m.system.pool.size)) [
      | inr h ↦ record {
        after = m;
        returns = rw h refl;
        turned = λ lt. absurd (ground arith);
        same = refl;
        ready = r;
        size = refl;
        running = λ u. u;
        same_tasks = refl;
        kept = λ p k. k;
      }
      | inl h ↦
          let lt : t.worker < m.system.pool.size = ground arith in
          let (s', e, f, v) =
            turn-Moves d t.worker t.thread t.env m.system r.queue r.holds.here m.next_task seed
              inside random r.holds.inv in
          let k = Moves-Kept r.holds lt f.size v in
          record {
            after = record m { system = s' };
            returns = rw (h, e) refl;
            turned = λ lt'. e;
            same = refl;
            ready = record { logs = r.logs; ordered = r.ordered; queue = k.queue; holds = k.holds };
            size = f.size;
            running = λ u. moved-IsRunning u f r.holds.here k.holds.here v;
            same_tasks = refl;
            kept = λ p (below, place). (
              below,
              (k.queue, k.holds.here, k.placed p (HasPlace-Placed m.system r.holds place)),
            );
          }
    ]
