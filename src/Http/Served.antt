-- ===== src/Http/Served.antt =====
-- The server from its start on: the constructor of HttpServer, and the days after it.
use protei_cov.Prelude.{◌≡◌, refl, sym, subst, true, false, some, List, All, Text, arith}
use protei_cov.Effects.{ok}
use protei_cov.Json.{PropertyTree}
use protei_cov.World.{World}
use protei_cov.Task.{Distribution}
use protei_cov.Task.Laws.{InBounds}
use protei_cov.Config.Range.{IsNormal}
use protei_cov.Config.ThreadSafe.{ThreadSafeConfig, run_monitoring, set_manager}
use protei_cov.Pool.{start, set_pool}
use protei_cov.Manager.{Manager, start_thread_pool}
use protei_cov.Manager.Laws.{thread_safe-IsLawful, flags-IsReady}
use protei_cov.Manager.Events.{Event, IsAllowed}
use protei_cov.Manager.Days.{Day, run-Day}
use protei_cov.Builder.{ManagerBuilder, Site, new_builder, build_logger}
use protei_cov.Builder.Laws.{its_config, construct-Constructed}
use protei_cov.Http.Server.{new_server}

-- A server that has started, with the config that its builder left, and a day of its manager.
pub record Serves {P : Type 0} (boost : PropertyTree P) (site : Site) (world : World) (text : Text)
    (d : Distribution) (inside : InBounds d) (es : List (Event (ThreadSafeConfig P))) : Type 0 where
  pub manager : Manager
  pub builder : ManagerBuilder P
  pub config : ThreadSafeConfig P
  pub starts : new_server boost true site world (new_builder text) ≡ (ok manager, builder)
  pub here : builder.config ≡ some config
  pub running : manager.system.pool.paused ≡ false
  pub day : Day (thread_safe-IsLawful boost) d inside es (config, manager)

module _ {P : Type 0} (boost : PropertyTree P) (site : Site) (world : World) (text : Text) where
  same_settings :
      (c : ThreadSafeConfig P) → (set_manager boost (run_monitoring boost c)).settings ≡ c.settings
  unfolding set_manager run_monitoring
  same_settings c = ground arith

  -- Where the port and the log file open and the settings in the config's file are normal, the
  -- constructor returns with a running pool, and from there, through any list of calls, moves of
  -- operators, updates, new configs, starts and stops (new configs normal, the random device working,
  -- schedules fair), nothing faults and nothing is thrown but to a caller whose number is none, and
  -- at the end every client who was given a promise, no two the same one, has its call in the queue
  -- or in an operator's hand, or has its result.
  pub new_server-Serves :
      (d : Distribution) (inside : InBounds d) (es : List (Event (ThreadSafeConfig P)))
      → site.log_opens ≡ true
      → IsNormal (its_config boost site world text).settings
      → All (IsAllowed (thread_safe-IsLawful boost)) es
      → Serves boost site world text d inside es
  unfolding new_server build_logger start_thread_pool start
  new_server-Serves d inside es opens n allowed =
      let c = construct-Constructed boost site world text opens n in
      let config = set_manager boost (run_monitoring boost (its_config boost site world text)) in
      let m : Manager = record (c.manager) { system = set_pool start c.manager.system } in
      record {
        manager = m;
        builder = record (c.builder) { logger = true };
        config = config;
        starts = rw (c.returns, opens) refl;
        here = c.config;
        running = rw c.paused refl;
        day =
            run-Day (thread_safe-IsLawful boost) d inside es (config, m) allowed
              (subst IsNormal (sym (same_settings (its_config boost site world text))) n)
              (flags-IsReady c.manager (start c.manager.system.pool) c.ready (ground arith)
                (ground arith) (ground arith));
      }
