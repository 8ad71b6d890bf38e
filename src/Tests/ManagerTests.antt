-- ===== src/Tests/ManagerTests.antt =====
-- The server, from its start to the end of a pool.
use protei_cov.Prelude.{
  ℕ, zero, suc, ◌+◌, ◌≡◌, ◌≤◌, ◌<◌, refl, true, false, List, [], ◌∷◌, All, some, codes, pos, arith,
}
use protei_cov.Effects.{fault}
use protei_cov.World.{World, pending}
use protei_cov.Task.{new_task}
use protei_cov.Config.Settings.{value}
use protei_cov.Config.Range.{IsNormal}
use protei_cov.Config.Common.{make_normal_path}
use protei_cov.Config.ThreadSafe.{ThreadSafeConfig, construct as construct_config, set_manager}
use protei_cov.Json.{parse, output_config}
use protei_cov.Pool.Join.{Turn}
use protei_cov.Pool.Joining.{Fit, count}
use protei_cov.Pool.Destroyed.{Destroyed, destroy-Destroyed}
use protei_cov.Manager.{Arrival}
use protei_cov.Manager.Laws.{thread_safe-IsLawful}
use protei_cov.Manager.Replace.{IsFair}
use protei_cov.Manager.Arrive.{Arrived, add_task-Arrived}
use protei_cov.Manager.Renew.{Updated, update-Updated}
use protei_cov.Manager.Events.{Event, IsAllowed, calls, moves, updates, takes_config, starts, stops}
use protei_cov.Manager.Days.{Day, run-Day}
use protei_cov.Manager.Reread.{IsEquipped}
use protei_cov.Manager.Watch.{Checked, check_file-Checked}
use protei_cov.Manager.Request.{Requested, process_request-Requested}
use protei_cov.Builder.{Site, new_builder, construct}
use protei_cov.Builder.Laws.{its_config, Constructed, construct-Constructed, construct_no_log}
use protei_cov.Tests.CallTests.{shortest, shortest-InBounds, at_second, no_cdr}
use protei_cov.Tests.ConfigFiles.{Flat, boost, good_host, upper_host, base}

abbrev pub worker_turn : ℕ → Turn
worker_turn i = record { worker = i; thread = 40 + i; env = at_second 107 (some 3) }

-- Three turns for each worker below `n`.
abbrev pub thrice : ℕ → List Turn
thrice zero = []
thrice (suc n) = worker_turn n ∷ worker_turn n ∷ worker_turn n ∷ thrice n

thrice-Fit : (size n : ℕ) → n ≤ size → All (Fit size) (thrice n)
thrice-Fit size zero h = tt
thrice-Fit size (suc n) h =
    let one : Fit size (worker_turn n) = (omega (arith, h), (3, refl)) in
    (one, (one, (one, thrice-Fit size n (omega (arith, h)))))

count-thrice : (n i : ℕ) → i < n → 3 ≤ count i (thrice n)
count-thrice zero i h = absurd (omega arith)
count-thrice (suc n) i h = ground (arith, count-thrice n i)

pub thrice-IsFair : (n : ℕ) → IsFair n (thrice n)
thrice-IsFair n = record { fit = thrice-Fit n n (omega arith); often = count-thrice n }

abbrev pub empty_world : World
empty_world = record {
  tasks = λ t. new_task no_cdr (pos 0) (pos 0) [] 0 true 0;
  promises = λ p. pending;
  records = λ r. [];
}

abbrev pub good_site : Site
good_site = record { log_opens = true; host = good_host; path = base; memory = 0 }

abbrev pub good_config : ThreadSafeConfig Flat
good_config = its_config boost good_site empty_world []

pub good_config-IsNormal : IsNormal good_config.settings
unfolding construct_config value make_normal_path parse output_config
good_config-IsNormal = record {
  has_r_min = refl;
  has_r_max = refl;
  has_operators = refl;
  has_queue = refl;
  r_min_from = omega arith;
  r_min_to = omega arith;
  r_max_from = omega arith;
  r_max_to = omega arith;
  ordered = omega arith;
  operators_from = omega arith;
  operators_to = omega arith;
  queue_from = omega arith;
  queue_to = omega arith;
}

construct-Constructed_example : Constructed boost good_site empty_world []
construct-Constructed_example =
    construct-Constructed boost good_site empty_world [] refl good_config-IsNormal

construct_no_log_example :
    (construct boost (record good_site { log_opens = false }) empty_world (new_builder [])).0
    ≡ fault
construct_no_log_example =
    construct_no_log boost (record good_site { log_opens = false }) empty_world [] refl

abbrev pub arrival : ℕ → Arrival
arrival now = record { thread = 44; now = now; memory = no_cdr }

-- A client calls, an operator goes through its loop, new settings come, and another client calls.
abbrev busy_day : List (Event (ThreadSafeConfig Flat))
busy_day =
    calls (arrival 5) (codes "11")
    ∷ moves (worker_turn 1)
    ∷ moves (worker_turn 1)
    ∷ updates thrice
    ∷ calls (arrival 9) (codes "x")
    ∷ takes_config good_config thrice
    ∷ stops
    ∷ calls (arrival 12) (codes "22")
    ∷ starts
    ∷ []

busy_day-IsAllowed : All (IsAllowed (thread_safe-IsLawful boost)) busy_day
busy_day-IsAllowed = (
  tt,
  (
    (3, refl),
    (
      (3, refl),
      (thrice-IsFair, (tt, ((good_config-IsNormal, thrice-IsFair), (tt, (tt, (tt, tt)))))),
    ),
  ),
)

pub built : Constructed boost good_site empty_world []
built = construct-Constructed boost good_site empty_world [] refl good_config-IsNormal

run-Day_example :
    Day
      (thread_safe-IsLawful boost)
      shortest
      shortest-InBounds
      busy_day
      (good_config, built.manager)
run-Day_example =
    run-Day (thread_safe-IsLawful boost) shortest shortest-InBounds busy_day
      (good_config, built.manager) busy_day-IsAllowed good_config-IsNormal built.ready

add_task-Arrived_example : Arrived (arrival 5) (codes "11") built.manager
add_task-Arrived_example = add_task-Arrived (arrival 5) (codes "11") built.manager built.ready

-- The manager with one call in its queue.
pub called : Arrived (arrival 5) (codes "11") built.manager
called = add_task-Arrived (arrival 5) (codes "11") built.manager built.ready

update-Updated_example :
    Updated
      (thread_safe-IsLawful boost)
      shortest
      (thrice called.after.system.pool.size)
      good_config
      called.after
update-Updated_example =
    update-Updated (thread_safe-IsLawful boost) shortest shortest-InBounds
      (thrice called.after.system.pool.size) good_config good_config-IsNormal called.after
      called.ready (thrice-IsFair called.after.system.pool.size)

destroy-Destroyed_example :
    Destroyed shortest called.after.next_task called.ready.queue
      (thrice called.after.system.pool.size)
      called.after.system
destroy-Destroyed_example =
    destroy-Destroyed shortest called.after.next_task called.ready.queue
      (thrice called.after.system.pool.size) called.after.system shortest-InBounds
      called.ready.holds (thrice-IsFair called.after.system.pool.size).fit
      (thrice-IsFair called.after.system.pool.size).often

pub set_config-IsEquipped : IsEquipped (set_manager boost good_config)
unfolding construct_config set_manager make_normal_path parse output_config
set_config-IsEquipped = record { normal = good_config-IsNormal; logs = refl; managed = refl }

process_request-Requested_example :
    Requested boost shortest
      (thrice called.after.system.pool.size)
      upper_host
      7
      (set_manager boost good_config)
      called.after
unfolding construct_config set_manager make_normal_path parse output_config
process_request-Requested_example =
    process_request-Requested boost shortest (thrice called.after.system.pool.size) upper_host 7
      shortest-InBounds (set_manager boost good_config) called.after refl set_config-IsEquipped
      called.ready (thrice-IsFair called.after.system.pool.size)

check_file-Checked_example :
    Checked boost shortest
      (thrice called.after.system.pool.size)
      60
      upper_host
      (set_manager boost good_config)
      called.after
check_file-Checked_example =
    check_file-Checked boost shortest (thrice called.after.system.pool.size) shortest-InBounds
      (set_manager boost good_config) called.after set_config-IsEquipped called.ready
      (thrice-IsFair called.after.system.pool.size) 60 upper_host
