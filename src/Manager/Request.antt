-- ===== src/Manager/Request.antt =====
-- A client's request for an update, from the config's file to the manager's settings.
use protei_cov.Prelude.{ℕ, Bool, ◌≡◌, refl, true, false, List}
use protei_cov.Effects.{ok}
use protei_cov.Json.{PropertyTree, Host}
use protei_cov.Task.{Distribution}
use protei_cov.Task.Laws.{InBounds}
use protei_cov.Config.ThreadSafe.{ThreadSafeConfig, update_config, is_updated}
use protei_cov.Config.Monitor.{update_with_request, notify}
use protei_cov.Config.Laws.Reread.{taken_over, Rereads, update_config-Rereads}
use protei_cov.Pool.Join.{Turn}
use protei_cov.Manager.Defs.{Manager, process_request_for_update, update}
use protei_cov.Manager.Configs.{thread_safe}
use protei_cov.Manager.Laws.{IsLawful, IsReady, IsServed, thread_safe-IsLawful}
use protei_cov.Manager.Reread.{IsEquipped, reread, reread_lem, reread-IsEquipped, reread-Updated}
use protei_cov.Pool.Progress.{IsRunning}
use protei_cov.Manager.Replace.{IsFair}
use protei_cov.Manager.Renew.{Updated}

module _ {P : Type 0} (boost : PropertyTree P) where
  abbrev law : IsLawful (thread_safe boost)
  law = thread_safe-IsLawful boost

  -- What a request leaves: the file's settings, or the old ones, and in either case a manager that
  -- works by them and has kept its clients.
  pub record Requested (d : Distribution) (ts : List Turn) (host : Host) (now : ℕ)
      (c : ThreadSafeConfig P) (m : Manager) : Type 0 where
    pub changed : Bool
    pub config : ThreadSafeConfig P
    pub after : Manager
    pub returns :
        process_request_for_update (thread_safe boost) d ts host now (c, m)
        ≡ (ok changed, (config, after))
    pub outcome :
        Rereads boost
          (taken_over boost c.has_logger (host.contents c.path))
          c
          config.settings
          changed
    pub forgets : config.updated ≡ false
    pub time : config.last_write_time ≡ now
    pub set : IsEquipped config
    pub ready : IsReady after
    pub bounds : (after.r_min, after.r_max) ≡ law.bounds config
    pub operators : after.system.pool.size ≡ law.operators config
    pub places : ready.queue.size_of_queue ≡ law.places config
    pub going : IsRunning m.system → IsRunning after.system
    pub same_tasks : after.next_task ≡ m.next_task
    pub kept : (p : ℕ) → IsServed p m → IsServed p after

  module _ (d : Distribution) (ts : List Turn) (host : Host) (now : ℕ) where
    request_lem :
        (c c' : ThreadSafeConfig P) (m after : Manager)
        → c.not_to_update ≡ false
        → update_config boost host c ≡ (ok tt, c')
        → c'.has_manager ≡ true
        → update (thread_safe boost) d ts (c', m) ≡ (ok tt, (c', after))
        → process_request_for_update (thread_safe boost) d ts host now (c, m)
          ≡ (ok c'.updated, (record c' { last_write_time = now; updated = false }, after))
    unfolding process_request_for_update update_with_request notify is_updated
    request_lem c c' m after thawed e managed u = simp (thawed, e, managed, u) refl

    module _ (inside : InBounds d) (c : ThreadSafeConfig P) (m : Manager)
        (thawed : c.not_to_update ≡ false) (set : IsEquipped c) (r : IsReady m)
        (fair : IsFair m.system.pool.size ts) where
      abbrev c' : ThreadSafeConfig P
      c' = reread boost host c set

      renewed : Updated law d ts c' m
      renewed = reread-Updated boost host c set d ts m inside r fair

      -- A request for an update, to a config that may be updated, with a logger, its manager and normal
      -- settings, and a manager that is ready, where the schedule is fair: where the text of the file is
      -- JSON with integers only and all four settings among them, these are the config's settings
      -- then, normalised, and the answer is yes. For any other text the settings stay, and the answer is
      -- the flag that an earlier update left: yes, where the thread that watches the file had taken
      -- something over since anybody asked. The flag is reset and the request's time kept; config and
      -- manager stay in order, the manager works by the settings, and every client keeps its place.
      pub process_request-Requested : Requested d ts host now c m
      process_request-Requested = record {
        changed = c'.updated;
        config = record c' { last_write_time = now; updated = false };
        after = renewed.after;
        returns =
            request_lem c c' m renewed.after thawed (reread_lem boost host c set)
              (reread-IsEquipped boost host c set).managed renewed.returns;
        outcome = update_config-Rereads boost host c;
        forgets = refl;
        time = refl;
        set = record {
          normal = (reread-IsEquipped boost host c set).normal;
          logs = (reread-IsEquipped boost host c set).logs;
          managed = (reread-IsEquipped boost host c set).managed;
        };
        ready = renewed.ready;
        bounds = renewed.bounds;
        operators = renewed.operators;
        places = renewed.places;
        going = renewed.going;
        same_tasks = renewed.same_tasks;
        kept = renewed.kept;
      }
