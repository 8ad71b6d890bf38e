-- ===== src/Manager/Laws.antt =====
-- What the manager relies on from its config, and what holds of a manager between its calls.
use protei_cov.Prelude.{
  ℕ, ◌≡◌, ◌≤◌, ◌<◌, ◌≤ℤ◌, refl, sym, ap, ◌∙◌, subst, true, some, ℤ, pos, pos_part, arith,
}
use protei_cov.Effects.{ok}
use protei_cov.Config.Settings.{value, r_min, r_max, amount_of_operators, size_of_queue}
use protei_cov.Config.Range.{IsNormal}
use protei_cov.Config.Laws.Frozen.{touch_present}
use protei_cov.Config.ThreadSafe.{
  ThreadSafeConfig, get_min_max, get_amount_of_operators, get_size_of_queue,
}
use protei_cov.Json.{PropertyTree}
use protei_cov.Queue.{Queue}
use protei_cov.Pool.{ThreadPool, System}
use protei_cov.Pool.Kept.{Holds}
use protei_cov.Pool.Placed.{Placed}
use protei_cov.Manager.Defs.{IConfig, Manager}
use protei_cov.Manager.Configs.{thread_safe}

-- Where a config is good, its getters return its settings, which are in bounds, and change nothing.
pub record IsLawful {C : Type 0} (config : IConfig C Manager) : Type 1 where
  pub IsGood : C → Type 0
  pub bounds : C → ℤ × ℤ
  pub operators : C → ℕ
  pub places : C → ℕ
  pub get_min_max_lem : (c : C) → IsGood c → config.get_min_max c ≡ (ok (bounds c), c)
  pub get_amount_lem :
      (c : C) → IsGood c → config.get_amount_of_operators c ≡ (ok (pos (operators c)), c)
  pub get_size_lem : (c : C) → IsGood c → config.get_size_of_queue c ≡ (ok (pos (places c)), c)
  pub ordered : (c : C) → IsGood c → (bounds c).0 ≤ℤ (bounds c).1
  pub few : (c : C) → IsGood c → operators c ≤ 80
  pub short : (c : C) → IsGood c → places c ≤ 350
  pub staffed : (c : C) → IsGood c → 0 < operators c

pos_lem : (z : ℤ) → pos 0 ≤ℤ z → pos (pos_part z) ≡ z
pos_lem z h = ground arith

module _ {P : Type 0} (boost : PropertyTree P) (c : ThreadSafeConfig P)
    (n : IsNormal c.settings) where
  pub normal_bounds : get_min_max boost c ≡ (ok (value r_min c.settings, value r_max c.settings), c)
  unfolding get_min_max
  normal_bounds =
      rw (touch_present _ c.settings n.has_r_min, touch_present _ c.settings n.has_r_max) refl

  pub normal_operators :
      get_amount_of_operators boost c
      ≡ (ok (pos (pos_part (value amount_of_operators c.settings))), c)
  unfolding get_amount_of_operators
  normal_operators =
      rw
        (
          touch_present _ c.settings n.has_operators,
          pos_lem (value amount_of_operators c.settings) (omega (arith, n.operators_from)),
        )
        refl

  pub normal_places :
      get_size_of_queue boost c ≡ (ok (pos (pos_part (value size_of_queue c.settings))), c)
  unfolding get_size_of_queue
  normal_places =
      rw
        (
          touch_present _ c.settings n.has_queue,
          pos_lem (value size_of_queue c.settings) (omega (arith, n.queue_from)),
        )
        refl

  pub normal_few : pos_part (value amount_of_operators c.settings) ≤ 80
  normal_few = ground (arith, n.operators_to)

  pub normal_short : pos_part (value size_of_queue c.settings) ≤ 350
  normal_short = ground (arith, n.queue_to)

  pub normal_staffed : 0 < pos_part (value amount_of_operators c.settings)
  normal_staffed = ground (arith, n.operators_from)

-- Normal settings make a good config.
abbrev pub thread_safe-IsLawful :
    {P : Type 0} (boost : PropertyTree P) → IsLawful (thread_safe boost)
thread_safe-IsLawful boost = record {
  IsGood = λ c. IsNormal c.settings;
  bounds = λ c. (value r_min c.settings, value r_max c.settings);
  operators = λ c. pos_part (value amount_of_operators c.settings);
  places = λ c. pos_part (value size_of_queue c.settings);
  get_min_max_lem = normal_bounds boost;
  get_amount_lem = normal_operators boost;
  get_size_lem = normal_places boost;
  ordered = λ c n. n.ordered;
  few = normal_few boost;
  short = normal_short boost;
  staffed = normal_staffed boost;
}

-- The client of the promise `p` is waiting, with its call in the queue or in an operator's hand, or
-- has its result.
abbrev pub HasPlace : ℕ → System → Type 0
HasPlace p s = (q : Queue) × (s.pool.task_queue ≡ some q) × Placed p q.items s.pool.workers s.world

-- A manager with a logger, ordered bounds and a pool that keeps its invariant.
pub record IsReady (m : Manager) : Type 0 where
  pub logs : m.has_logger ≡ true
  pub ordered : m.r_min ≤ℤ m.r_max
  pub queue : Queue
  pub holds : Holds m.next_task queue m.system

-- The client of a task that the manager has made.
abbrev pub IsServed : ℕ → Manager → Type 0
IsServed p m = (p < m.next_task) × HasPlace p m.system

pub HasPlace-Placed :
    {p n : ℕ} {q : Queue} (s : System)
    → Holds n q s
    → HasPlace p s
    → Placed p q.items s.pool.workers s.world
HasPlace-Placed {p} {q} s h (q', e, m) =
    let same : q' ≡ q = let f = sym e ∙ h.here in cc in
    subst (λ u. Placed p u.items s.pool.workers s.world) same m

-- Whether the pool runs does not matter to that.
pub flags-IsReady :
    (m : Manager) (p : ThreadPool) (r : IsReady m)
    → p.task_queue ≡ m.system.pool.task_queue
    → p.size ≡ m.system.pool.size
    → p.workers ≡ m.system.pool.workers
    → IsReady (record m { system = record (m.system) { pool = p } })
flags-IsReady m p r same_queue size same = record {
  logs = r.logs;
  ordered = r.ordered;
  queue = r.queue;
  holds = record {
    here = same_queue ∙ r.holds.here;
    inv = rw same r.holds.inv;
    outside = λ i le. ap (λ f. f i) same ∙ r.holds.outside i (omega (arith, le, size));
  };
}
