-- ===== src/Pool/Moves.antt =====
-- The kinds of moves that a worker makes.
use protei_cov.Prelude.{ℕ, ◌≡◌, ◌≢◌, true, false, some, List, [], ◌∷◌, ◌++◌, if◌then◌else◌, ◌⊎◌}
use protei_cov.CallRecord.{CallResult}
use protei_cov.World.{value, set_task, update}
use protei_cov.Task.{Readings}
use protei_cov.Task.Laws.{Verdict}
use protei_cov.Queue.{Item, Queue}
use protei_cov.Queue.Valid.{promise_of}
use protei_cov.Pool.Defs.{ThreadPool, System, Worker, looping, waiting, working, gone}
use protei_cov.Pool.Execute.{given}
use protei_cov.Pool.Rounds.{assigned}
use protei_cov.Pool.Invariant.{IsFree}

-- What of a pool no move changes.
pub record SameFlags (p p' : ThreadPool) : Type 0 where
  pub size : p'.size ≡ p.size
  pub stopped : p'.stopped ≡ p.stopped
  pub paused : p'.paused ≡ p.paused
  pub draining : p'.wait_for_completion ≡ p.wait_for_completion

-- A worker with a call took `x` from the queue's front, or has answered it.
pub record Takes (i : ℕ) (q : Queue) (s s' : System) : Type 0 where
  pub first : Item
  pub others : List Item
  pub items : q.items ≡ first ∷ others
  pub allowed : s.pool.paused ≡ false
  pub was : s.pool.workers i ≡ waiting
  pub queue : s'.pool.task_queue ≡ some (record q { items = others })
  pub workers : s'.pool.workers ≡ update s.pool.workers i (working first)
  pub thread : ℕ
  pub world : s'.world ≡ set_task first.0 (assigned thread (s.world.tasks first.0)) s.world

pub record Serves (i : ℕ) (q : Queue) (s s' : System) : Type 0 where
  pub call : Item
  pub was : s.pool.workers i ≡ working call
  pub next : Worker
  pub free : IsFree next
  pub is_next : (next ≡ looping) ⊎ ((next ≡ gone) × (s.pool.wait_for_completion ≡ true))
  pub queue : s'.pool.task_queue ≡ some q
  pub workers : s'.pool.workers ≡ update s.pool.workers i next
  pub env : Readings
  pub result : CallResult
  pub answered : s'.world.promises (promise_of s.world call) ≡ value result
  pub verdict : Verdict (s.world.tasks call.0) env result.status result.call_duration
  pub promises : (p : ℕ) → p ≢ promise_of s.world call → s'.world.promises p ≡ s.world.promises p
  pub tasks : (t : ℕ) → t ≢ call.0 → s'.world.tasks t ≡ s.world.tasks t
  pub records :
      (k : ℕ)
      → s'.world.records k ≡ s.world.records k ++ given q.recorders k (s'.world.tasks call.0).cdr

-- It goes from one point of its loop to another.
pub record Goes (i : ℕ) (q : Queue) (s s' : System) : Type 0 where
  pub next : Worker
  pub free : IsFree next
  pub from_to :
      ((s.pool.workers i ≡ looping) × (next ≡ (if s.pool.stopped then gone else waiting)))
      ⊎ ((s.pool.workers i ≡ waiting) × (s.pool.stopped ≡ true) × (next ≡ looping))
  pub queue : s'.pool.task_queue ≡ some q
  pub workers : s'.pool.workers ≡ update s.pool.workers i next
  pub world : s'.world ≡ s.world

-- It is gone, or there is nothing for it to do.
abbrev pub Stays : ℕ → Queue → System → Type 0
Stays i q s =
    (s.pool.workers i ≡ gone)
    ⊎ ((s.pool.stopped ≡ false)
        × (s.pool.workers i ≡ waiting)
        × ((q.items ≡ []) ⊎ (s.pool.paused ≡ true)))

pub data Moves (i : ℕ) (q : Queue) (s s' : System) : Type 0 where
  rests : s' ≡ s → Stays i q s → Moves i q s s'
  goes : Goes i q s s' → Moves i q s s'
  takes : Takes i q s s' → Moves i q s s'
  serves : Serves i q s s' → Moves i q s s'
