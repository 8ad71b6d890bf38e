-- ===== src/Manager/NewPool.antt =====
-- The pools that the manager and the builder make from settings in their ranges.
use protei_cov.Prelude.{ℕ, ◌≡◌, ◌≤◌, refl, Bool, true, false, some, [], pos, arith}
use protei_cov.Effects.{ok}
use protei_cov.Queue.{new_queue}
use protei_cov.Pool
use protei_cov.Pool.{ThreadPool, System, new_pool, looping, get_size, to_int}
use protei_cov.Manager.Defs.{to_unsigned}

abbrev pub fresh_pool : ℕ → ℕ → ThreadPool
fresh_pool n z = record {
  task_queue = some (record { items = []; size_of_queue = z; recorders = []; has_logger = true });
  size = n;
  workers = λ i. looping;
  completed_task_count = 0;
  stopped = false;
  paused = true;
  wait_for_completion = false;
  has_logger = true;
}

abbrev quiet_pool : ℕ → ℕ → ThreadPool
quiet_pool n z = record (fresh_pool n z) {
  task_queue = some (record { items = []; size_of_queue = z; recorders = []; has_logger = false });
  has_logger = false;
}

new_queue_lem :
    (z : ℕ)
    → z ≤ 350
    → new_queue (pos z)
      ≡ ok (record { items = []; size_of_queue = z; recorders = []; has_logger = false })
unfolding new_queue
new_queue_lem z h = ground arith

unsigned_small : (n : ℕ) → n ≤ 350 → to_unsigned (pos n) ≡ n
unsigned_small n h = ground arith

int_small : (n : ℕ) → n ≤ 350 → to_int n ≡ pos n
int_small n h = ground arith

new_pool_small : (n z : ℕ) → z ≤ 350 → new_pool n z ≡ ok (quiet_pool n z)
unfolding new_pool
new_pool_small n z k = rw (int_small z k, new_pool) (rw (new_queue_lem z k, new_pool) refl)

pub new_pool_lem :
    (n z : ℕ)
    → n ≤ 80
    → z ≤ 350
    → new_pool (to_unsigned (pos n)) (to_unsigned (pos z)) ≡ ok (quiet_pool n z)
new_pool_lem n z h k =
    rw (unsigned_small n (omega (arith, h)), unsigned_small z k) (new_pool_small n z k)

pub set_logger_lem :
    (b : Bool) (n z : ℕ) → b ≡ true → Pool.set_logger b (quiet_pool n z) ≡ ok (fresh_pool n z)
unfolding Pool.set_logger
set_logger_lem b n z e = rw e refl
