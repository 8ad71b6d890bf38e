-- ===== src/Pool/Join.antt =====
-- The destructor of ThreadPool. While it waits for its threads, they move on in some order, which is
-- an argument; it is over when none of them is in `run` any more.
use protei_cov.Prelude.{ℕ, ◌≡◌, ◌<◌, true, List, [], ◌∷◌}
use protei_cov.Effects.{Exec, pure, modify, ◌>>◌}
use protei_cov.Task.{Readings, Distribution}
use protei_cov.Pool.Defs.{ThreadPool, System, Worker, turn, set_pool}

-- A move of a worker: its index, its thread's hash, and what `doTask` reads if it comes to that.
pub record Turn : Type 0 where
  pub worker : ℕ
  pub thread : ℕ
  pub env : Readings

abbrev pub stop_threads : ThreadPool → ThreadPool
stop_threads p = record p { stopped = true }

module _ (distribution : Distribution) where
  unfoldable pub turns : List Turn → Exec System (Unit {0})
  turns [] = pure tt
  turns (t ∷ ts) = turn distribution t.worker t.thread t.env >> turns ts

  unfoldable pub destroy : List Turn → Exec System (Unit {0})
  destroy ts = modify (set_pool stop_threads) >> turns ts

-- `join` returns for every thread.
abbrev pub Joined : ThreadPool → Type 0
Joined p = (i : ℕ) → i < p.size → p.workers i ≡ Worker.gone
