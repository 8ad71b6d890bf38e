-- ===== src/Manager/Arrive.antt =====
-- A call that a client makes: `addTask`.
use protei_cov.Prelude.{
  ℕ, suc, ◌≡◌, refl, ap, ◌∙◌, subst, true, some, All-map, Text, ℤ, ◌⊎◌, inl, inr, arith,
}
use protei_cov.Effects.{Exception, ok, throws}
use protei_cov.World.{Task, World}
use protei_cov.Task.{new_task, get_number}
use protei_cov.Stdlib.Stoll.{stoll, stoll_cases}
use protei_cov.Queue.{Item}
use protei_cov.Pool.{System, Worker, working, generate_call_id}
use protei_cov.Pool
use protei_cov.Queue.Valid.{promise_of, OwnPromise}
use protei_cov.Pool.Accept.{named, w', pushes, add_task_throws}
use protei_cov.Pool.Alike.{IsOpen, Alike}
use protei_cov.Pool.Progress.{IsRunning}
use protei_cov.Pool.Placed.{Placed}
use protei_cov.Pool.Dismissed.{IsNew}
use protei_cov.Pool.Arrival.{Pushed, push-Pushed}
use protei_cov.Manager.Defs.{Manager, Arrival, add_task, make_task}
use protei_cov.Manager.Laws.{IsReady, IsServed}
use protei_cov.Manager.Fresh.{
  made, made-Alike, made_answers, made_task, made_waits, numbered_task, numbered-Alike, grown,
  stays,
}

-- What `addTask` leaves: it throws what `std::stoll` throws for the number, or hands out a promise
-- whose client has a place. All other clients keep theirs.
pub record Arrived (a : Arrival) (number : Text) (m : Manager) : Type 0 where
  pub after : Manager
  pub ready : IsReady after
  pub size : after.system.pool.size ≡ m.system.pool.size
  pub next : after.next_task ≡ suc m.next_task
  pub running : IsRunning m.system → IsRunning after.system
  pub outcome :
      ((e : Exception) × (stoll number ≡ throws e) × (add_task a number m ≡ (throws e, after)))
      ⊎ ((z : ℤ) × (stoll number ≡ ok z)
          × (add_task a number m ≡ (ok (generate_call_id a.thread z, m.next_task), after))
          × IsServed m.next_task after)
  pub kept : (p : ℕ) → IsServed p m → IsServed p after

module _ (a : Arrival) (number : Text) (m : Manager) (r : IsReady m) where
  abbrev n : ℕ
  n = m.next_task

  abbrev v : Task
  v = new_task a.memory m.r_min m.r_max number a.now m.has_logger n

  v_promise : v.promise ≡ n
  unfolding new_task
  v_promise = refl

  abbrev w : World
  w = made n v m.system.world v_promise

  abbrev m1 : Manager
  m1 = record m { system = record (m.system) { world = w }; next_task = suc n }

  its_number : get_number n w ≡ number
  unfolding get_number new_task
  its_number = ap (λ t. t.number) (made_task n v m.system.world v_promise)

  its_logger : (w.tasks n).has_logger ≡ true
  unfolding new_task
  its_logger = ap (λ t. t.has_logger) (made_task n v m.system.world v_promise) ∙ r.logs

  refused : (e : Exception) → stoll number ≡ throws e → Arrived a number m
  unfolding made add_task make_task
  refused e h = record {
    after = m1;
    ready = record {
      logs = r.logs;
      ordered = r.ordered;
      queue = r.queue;
      holds = record {
        here = r.holds.here;
        inv =
            grown m r w (made-Alike n v m.system.world v_promise)
              (made_answers n v m.system.world v_promise);
        outside = r.holds.outside;
      };
    };
    size = refl;
    next = refl;
    running = λ u. record {
      not_stopped = u.not_stopped;
      not_paused = u.not_paused;
      not_draining = u.not_draining;
      staffed = u.staffed;
      present = u.present;
    };
    outcome =
        inl
          (e, h, rw (add_task_throws a.thread a.now n m1.system e (ap stoll its_number ∙ h)) refl);
    kept = λ p c. (
      omega (arith, c.0),
      (
        r.queue,
        r.holds.here,
        stays m r w (made-Alike n v m.system.world v_promise)
            (made_answers n v m.system.world v_promise) p c,
      ),
    );
  }

  module _ (z : ℤ) (h : stoll number ≡ ok z) where
    abbrev call_id : ℕ
    call_id = generate_call_id a.thread z

    abbrev w2 : World
    w2 = w' n call_id w

    alike : (x : Item) → IsOpen n m.system.world x → Alike m.system.world w2 x
    alike = numbered-Alike n v m.system.world v_promise call_id

    its_task : w2.tasks n ≡ named call_id v
    its_task = numbered_task n v m.system.world v_promise call_id

    its_promise : promise_of w2 (n, call_id) ≡ n
    its_promise = ap (λ t. t.promise) its_task ∙ v_promise

    other_promise : (y : Item) → IsOpen n m.system.world y → OwnPromise w2 y (n, call_id)
    other_promise y o q = omega (arith, o.promise_below, (alike y o).promise, its_promise, q)

    is_new : IsNew (suc n) (n, call_id) r.queue.items m.system.pool.workers w2
    unfolding new_task
    is_new = record {
      is_open = record {
        waits = ap w.promises its_promise ∙ made_waits n v m.system.world v_promise;
        ready = (ap (λ t. t.has_logger) its_task ∙ r.logs, rw its_task r.ordered);
        task_below = omega arith;
        promise_below = omega (arith, its_promise);
      };
      own = All-map r.queue.items (λ y o. other_promise y o) r.holds.inv.queued;
      own_held = λ i y e. other_promise y (r.holds.inv.held i y e);
    }

    pushed : Pushed (suc n) a.now (n, call_id) r.queue m.system.pool.workers w2
    pushed =
        push-Pushed a.now (n, call_id) r.queue
          (grown m r w2 alike (made_answers n v m.system.world v_promise)) is_new

    abbrev m2 : Manager
    m2 = record m {
      system = record {
        pool = record (m.system.pool) { task_queue = some pushed.queue };
        world = pushed.after;
      };
      next_task = suc n;
    }

    pool_adds : Pool.add_task a.thread a.now n m1.system ≡ (ok call_id, m2.system)
    pool_adds =
        pushes a.thread a.now n m1.system r.queue z (ap stoll its_number ∙ h) r.holds.here
          its_logger pushed.accepted (ap (λ u. u.0) pushed.returns)
        ∙ rw pushed.returns refl

    returns : add_task a number m ≡ (ok (call_id, n), m2)
    unfolding made add_task make_task
    returns = rw pool_adds refl

    taken_in : Arrived a number m
    taken_in = record {
      after = m2;
      ready = record {
        logs = r.logs;
        ordered = r.ordered;
        queue = pushed.queue;
        holds = record { here = refl; inv = pushed.inv; outside = r.holds.outside };
      };
      size = refl;
      next = refl;
      running = λ u. record {
        not_stopped = u.not_stopped;
        not_paused = u.not_paused;
        not_draining = u.not_draining;
        staffed = u.staffed;
        present = u.present;
      };
      outcome = inr (
        z,
        h,
        returns,
        (
          omega arith,
          (
            pushed.queue,
            refl,
            subst (λ u. Placed u pushed.queue.items m.system.pool.workers pushed.after) its_promise
                pushed.mine,
          ),
        ),
      );
      kept = λ p c. (
        omega (arith, c.0),
        (
          pushed.queue,
          refl,
          pushed.placed p (stays m r w2 alike (made_answers n v m.system.world v_promise) p c),
        ),
      );
    }

  -- `addTask` of a manager that is ready throws what `std::stoll` throws for the number, or returns
  -- the id made of thread and number with a promise whose client has a place; either way the manager
  -- is ready again, with the same operators, one more task, and every earlier client in its place.
  pub add_task-Arrived : Arrived a number m
  add_task-Arrived = elim (stoll_cases number) [
    | inl (z, h) ↦ taken_in z h
    | inr (e, h) ↦ refused e h
  ]
