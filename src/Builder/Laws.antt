-- ===== src/Builder/Laws.antt =====
-- What the builder makes.
use protei_cov.Prelude.{ℕ, ◌≡◌, refl, true, false, some, List, [], ◌∷◌, Text}
use protei_cov.Effects.{ok, fault}
use protei_cov.Json.{PropertyTree}
use protei_cov.World.{World}
use protei_cov.Config.Range.{IsNormal}
use protei_cov.Config.Laws.Update.{make_lem}
use protei_cov.Config.ThreadSafe.{
  ThreadSafeConfig, construct as construct_config, run_monitoring, set_manager,
}
use protei_cov.Pool.{start, set_pool}
use protei_cov.Pool.Progress.{IsRunning}
use protei_cov.Recorder.{open_recorder}
use protei_cov.Manager.{Manager, new_manager}
use protei_cov.Manager
use protei_cov.Manager.Configs.{thread_safe}
use protei_cov.Manager.Laws.{IsLawful, IsReady, thread_safe-IsLawful}
use protei_cov.Manager.NewPool.{fresh_pool, new_pool_lem, set_logger_lem}
use protei_cov.Builder.Defs.{
  ManagerBuilder, Site, new_builder, construct, build_logger, build_config, build_recorders,
  build_thread_pool,
}

module _ {P : Type 0} (boost : PropertyTree P) where
  abbrev law : IsLawful (thread_safe boost)
  law = thread_safe-IsLawful boost

  -- The pool of a builder with a logger and a config of normal settings.
  build_thread_pool_lem :
      (c : ThreadSafeConfig P) (rs : List ℕ) (text : Text)
      → IsNormal c.settings
      → build_thread_pool boost
          (record { logger = true; config = some c; recorders = rs; cdr_file = text })
        ≡ (
          ok (fresh_pool (law.operators c) (law.places c)),
          record { logger = true; config = some c; recorders = rs; cdr_file = text },
        )
  unfolding build_thread_pool
  build_thread_pool_lem c rs text n =
      rw
        (
          law.get_amount_lem c n,
          law.get_size_lem c n,
          new_pool_lem (law.operators c) (law.places c) (law.few c n) (law.short c n),
          set_logger_lem true (law.operators c) (law.places c) refl,
        )
        refl

  module _ (site : Site) (world : World) (text : Text) where
    -- The config that the builder reads.
    abbrev pub its_config : ThreadSafeConfig P
    its_config = construct_config boost site.host site.memory site.path true

    -- What `Construct` makes: a manager that is ready, with the config's settings and a paused pool of
    -- free operators, which runs once it is started; the recorders stay with the builder.
    pub record Constructed : Type 0 where
      pub manager : Manager
      pub builder : ManagerBuilder P
      pub returns : construct boost site world (new_builder text) ≡ (ok manager, builder)
      pub ready : IsReady manager
      pub bounds : (manager.r_min, manager.r_max) ≡ law.bounds its_config
      pub operators : manager.system.pool.size ≡ law.operators its_config
      pub places : ready.queue.size_of_queue ≡ law.places its_config
      pub paused : manager.system.pool.paused ≡ true
      pub running_once : IsRunning (set_pool start manager.system)
      pub config : builder.config ≡ some (set_manager boost (run_monitoring boost its_config))
      pub recorders : builder.recorders ≡ 0 ∷ []
      pub cdr_file : builder.cdr_file ≡ open_recorder text
      pub no_recorders : ready.queue.recorders ≡ []

    module _ (opens : site.log_opens ≡ true) (n : IsNormal its_config.settings) where
      abbrev made : Manager
      made = record {
        r_min = (law.bounds its_config).0;
        r_max = (law.bounds its_config).1;
        has_logger = true;
        system = record {
          pool = fresh_pool (law.operators its_config) (law.places its_config);
          world = world;
        };
        next_task = 0;
      }

      -- Where the log file opens and the config's settings are normal, `Construct` returns a manager
      -- that is ready, with those settings and a paused pool, and a config that knows the manager. The
      -- builder has one recorder, with its header written, and the queue has none.
      pub construct-Constructed : Constructed
      unfolding construct build_logger build_config build_recorders new_manager Manager.set_logger
          start
      construct-Constructed = record {
        manager = made;
        builder = record {
          logger = true;
          config = some (set_manager boost (run_monitoring boost its_config));
          recorders = 0 ∷ [];
          cdr_file = open_recorder text;
        };
        returns =
            rw
              (
                opens,
                make_lem boost site.host site.memory site.path true,
                build_thread_pool_lem its_config (0 ∷ []) (open_recorder text) n,
                law.get_min_max_lem its_config n,
              )
              refl;
        ready = record {
          logs = refl;
          ordered = n.ordered;
          queue = record {
            items = [];
            size_of_queue = law.places its_config;
            recorders = [];
            has_logger = true;
          };
          holds = record {
            here = refl;
            inv = record {
              queued = tt;
              apart = tt;
              held = λ i x e. absurd (cc);
              held_queued = λ i x e. tt;
              held_held = λ i j x y ne e f. absurd (cc);
            };
            outside = λ i le. refl;
          };
        };
        bounds = refl;
        operators = refl;
        places = refl;
        paused = refl;
        running_once = record {
          not_stopped = refl;
          not_paused = refl;
          not_draining = refl;
          staffed = law.staffed its_config n;
          present = λ j e. cc;
        };
        config = refl;
        recorders = refl;
        cdr_file = refl;
        no_recorders = refl;
      }

  -- Where the log file cannot be opened, `Construct` of a new builder does not throw the exception:
  -- its handler goes through the null pointer of the logger that was not made.
  pub construct_no_log :
      (site : Site) (world : World) (text : Text)
      → site.log_opens ≡ false
      → (construct boost site world (new_builder text)).0 ≡ fault
  unfolding construct build_logger
  construct_no_log site world text h = rw h refl
