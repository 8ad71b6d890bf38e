-- ===== src/Manager/Fresh.antt =====
-- A world with one more task than the manager's.
use protei_cov.Prelude.{ℕ, suc, ◌≡◌, ◌<◌, ◌∙◌, All-map, arith}
use protei_cov.World.{Task, World, pending}
use protei_cov.Task.{create}
use protei_cov.Queue.{Item}
use protei_cov.Pool.Accept.{named, w'}
use protei_cov.Pool.Alike.{IsOpen, Alike, untouched-Alike}
use protei_cov.Pool.Invariant.{Inv, Inv-world, Inv-suc}
use protei_cov.Pool.Placed.{Placed}
use protei_cov.Pool.Dismissed.{Placed-world}
use protei_cov.Manager.Defs.{Manager}
use protei_cov.Manager.Laws.{IsReady, IsServed, HasPlace-Placed}

-- A call on a task that no call has yet changes no other one.
module _ (n : ℕ) (v : Task) (w : World) (own : v.promise ≡ n) where
  unfoldable pub made : World
  made = create n v w

  pub made-Alike : (x : Item) → IsOpen n w x → Alike w made x
  unfolding made create
  made-Alike x o = untouched-Alike (ground (arith, o.task_below)) (ground (arith, o.promise_below))

  pub made_answers : (p : ℕ) → p < n → made.promises p ≡ w.promises p
  unfolding made create
  made_answers p lt = ground (arith, own)

  pub made_task : made.tasks n ≡ v
  unfolding made create
  made_task = ground arith

  pub made_waits : made.promises n ≡ pending
  unfolding made create
  made_waits = ground (arith, own)

  pub numbered_task : (id : ℕ) → (w' n id made).tasks n ≡ named id v
  unfolding made create
  numbered_task id = ground arith

  pub numbered-Alike : (id : ℕ) (x : Item) → IsOpen n w x → Alike w (w' n id made) x
  unfolding made create
  numbered-Alike id x o =
      untouched-Alike (ground (arith, o.task_below)) (ground (arith, o.promise_below))

-- A world that differs from the manager's one only behind its last task.
module _ (m : Manager) (r : IsReady m) (w1 : World)
    (alike : (x : Item) → IsOpen m.next_task m.system.world x → Alike m.system.world w1 x)
    (same : (p : ℕ) → p < m.next_task → w1.promises p ≡ m.system.world.promises p) where
  pub grown : Inv (suc m.next_task) r.queue.items m.system.pool.workers w1
  grown = Inv-suc (
      Inv-world r.holds.inv w1 (All-map r.queue.items (λ x o. alike x o) r.holds.inv.queued)
        (λ i x e. alike x (r.holds.inv.held i x e)))

  pub stays : (p : ℕ) → IsServed p m → Placed p r.queue.items m.system.pool.workers w1
  stays p (lt, place) =
      Placed-world (All-map r.queue.items (λ x o. alike x o) r.holds.inv.queued)
        (λ i x e. alike x (r.holds.inv.held i x e)) (λ t. (t.0, same p lt ∙ t.1, t.2))
        (HasPlace-Placed m.system r.holds place)
