-- ===== src/Tests/CommandTests.antt =====
-- The command, and the end of a config.
use protei_cov.Prelude.{ℕ, ◌≡◌, ◌≢◌, refl, true, false, [], ◌∷◌, none, some, codes, ltb, arith}
use protei_cov.Effects.{ok}
use protei_cov.Stdlib.Decimal.{show_nat}
use protei_cov.Config.ThreadSafe.{ThreadSafeConfig, set_manager}
use protei_cov.Config.Common.{IManager}
use protei_cov.Config.Monitor.{Minute, sleeping, check_file, destroy as destroy_config}
use protei_cov.Config.Laws.Ending.{destroy_once}
use protei_cov.Manager.Ending.{update-StaysStopped}
use protei_cov.Manager.Configs.{thread_safe}
use protei_cov.Manager.{Manager, itself}
use protei_cov.Config.ThreadSafe.{run_monitoring, construct as construct_config}
use protei_cov.Config.Common.{make_normal_path}
use protei_cov.Json.{parse, output_config}
use protei_cov.Main.{Surroundings, served, main, main-show_nat}
use protei_cov.Tests.CallTests.{shortest}
use protei_cov.Tests.ConfigFiles.{Flat, boost, upper_host}
use protei_cov.Tests.ManagerTests.{
  good_site, good_config, good_config-IsNormal, called, empty_world, thrice,
}

-- A machine where the ports from 1024 on open, with two clients before `accept` fails.
abbrev machine : Surroundings
machine = record {
  opens = λ port. ltb 1023 port;
  site = good_site;
  world = empty_world;
  cdr_file = [];
  accepts = some 4 ∷ some 7 ∷ none ∷ some 9 ∷ [];
}

main-show_nat_example :
    main boost machine (show_nat 74536 ∷ codes "base.json" ∷ []) ≡ served 9000 (4 ∷ 7 ∷ []) true
main-show_nat_example =
    main-show_nat boost machine 74536 (codes "base.json") (4 ∷ 7 ∷ []) (some 9 ∷ []) (omega arith)
      refl refl good_config-IsNormal refl

abbrev its_update : IManager (ThreadSafeConfig Flat × Manager)
its_update = itself (thread_safe boost) shortest (thrice 3)

-- The file is written in the minute of the destructor and in the next.
abbrev written_at : ℕ → Minute
written_at t = record { stop = false; write_time = some t; host = upper_host }

abbrev monitored : ThreadSafeConfig Flat × Manager
monitored = (set_manager boost (run_monitoring boost good_config), called.after)

destroy_once_example :
    let minutes = written_at 60 ∷ written_at 120 ∷ written_at 180 ∷ [] in
    ((destroy_config boost its_update minutes monitored).1
      ≡ (check_file boost its_update
          (written_at 60)
          (record (monitored.0) { stop_thread = true }, monitored.1)).1)
    × ((destroy_config boost its_update minutes monitored).0 ≢ ok sleeping)
unfolding construct_config run_monitoring set_manager make_normal_path parse output_config
destroy_once_example =
    destroy_once boost its_update (update-StaysStopped boost shortest (thrice 3)) (written_at 60)
      (written_at 120) (written_at 180 ∷ []) monitored
