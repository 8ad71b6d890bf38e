-- ===== src/Manager/Watch.antt =====
-- What requests for an update and the minutes of the monitoring thread do to config and manager.
use protei_cov.Prelude.{ℕ, Bool, ◌≡◌, refl, true, false, List, ◌⊎◌, inl, inr, ltb, Bool-cases}
use protei_cov.Effects.{ok}
use protei_cov.Json.{PropertyTree, Host}
use protei_cov.Task.{Distribution}
use protei_cov.Task.Laws.{InBounds}
use protei_cov.Config.ThreadSafe.{ThreadSafeConfig, update_config, is_updated}
use protei_cov.Config.Monitor.{check_file, notify, update_with_request}
use protei_cov.Config.Laws.Reread.{taken_over, Rereads, update_config-Rereads}
use protei_cov.Config.Laws.Watching.{minute_of}
use protei_cov.Pool.Join.{Turn}
use protei_cov.Pool.Progress.{IsRunning}
use protei_cov.Manager.Defs.{Manager, itself, update, process_request_for_update}
use protei_cov.Manager.Configs.{thread_safe}
use protei_cov.Manager.Laws.{IsLawful, IsReady, IsServed, thread_safe-IsLawful}
use protei_cov.Manager.Reread.{IsEquipped, reread, reread_lem, reread-IsEquipped, reread-Updated}
use protei_cov.Manager.Request.{process_request-Requested}
use protei_cov.Manager.Replace.{IsFair}
use protei_cov.Manager.Renew.{update-Updated}

-- What is left of a config and its manager, as far as clients and later events go.
pub record Handled {P : Type 0} (s s' : ThreadSafeConfig P × Manager) : Type 0 where
  pub set : IsEquipped s'.0
  pub ready : IsReady s'.1
  pub going : IsRunning s.1.system → IsRunning s'.1.system
  pub same_tasks : s'.1.next_task ≡ s.1.next_task
  pub kept : (p : ℕ) → IsServed p s.1 → IsServed p s'.1

-- What a minute leaves: nothing new, or a file that was read and settings that are in force.
pub record Checked {P : Type 0} (boost : PropertyTree P) (d : Distribution) (ts : List Turn) (t : ℕ)
    (host : Host) (c : ThreadSafeConfig P) (m : Manager) : Type 0 where
  pub end : ThreadSafeConfig P × Manager
  pub returns :
      check_file boost (itself (thread_safe boost) d ts) (minute_of (t, host)) (c, m) ≡ (ok tt, end)
  pub handled : Handled (c, m) end
  pub outcome :
      ((ltb c.last_write_time t ≡ false) × (end ≡ (c, m)))
      ⊎ ((ltb c.last_write_time t ≡ true)
          × (end.0.last_write_time ≡ t)
          × Rereads boost
              (taken_over boost c.has_logger (host.contents c.path))
              c
              end.0.settings
              end.0.updated
          × ((end.1.r_min, end.1.r_max) ≡ (thread_safe-IsLawful boost).bounds end.0)
          × (end.1.system.pool.size ≡ (thread_safe-IsLawful boost).operators end.0)
          × (handled.ready.queue.size_of_queue ≡ (thread_safe-IsLawful boost).places end.0))

module _ {P : Type 0} (boost : PropertyTree P) (d : Distribution) (ts : List Turn) where
  abbrev law : IsLawful (thread_safe boost)
  law = thread_safe-IsLawful boost

  minute_lem :
      (c c' : ThreadSafeConfig P) (m after : Manager) (t : ℕ) (host : Host)
      → ltb c.last_write_time t ≡ true
      → update_config boost host c ≡ (ok tt, c')
      → c'.has_manager ≡ true
      → update (thread_safe boost) d ts (c', m) ≡ (ok tt, (c', after))
      → check_file boost (itself (thread_safe boost) d ts) (minute_of (t, host)) (c, m)
        ≡ (ok tt, (record c' { last_write_time = t }, after))
  unfolding check_file notify
  minute_lem c c' m after t host newer e managed u = simp (newer, e, managed, u) refl

  frozen_lem :
      (c : ThreadSafeConfig P) (m : Manager) (host : Host) (now : ℕ)
      → c.not_to_update ≡ true
      → process_request_for_update (thread_safe boost) d ts host now (c, m)
        ≡ (ok c.updated, (record c { updated = false }, m))
  unfolding process_request_for_update update_with_request is_updated
  frozen_lem c m host now frozen = simp frozen refl

  module _ (inside : InBounds d) (c : ThreadSafeConfig P) (m : Manager) (set : IsEquipped c)
      (r : IsReady m) (fair : IsFair m.system.pool.size ts) where
    renewed-Handled :
        (host : Host) (c' : ThreadSafeConfig P)
        → IsEquipped c'
        → Handled (c, m) (c', (reread-Updated boost host c set d ts m inside r fair).after)
    renewed-Handled host c' s =
        let u = reread-Updated boost host c set d ts m inside r fair in
        record {
          set = s;
          ready = u.ready;
          going = u.going;
          same_tasks = u.same_tasks;
          kept = u.kept;
        }

    pub nothing-Handled : (c' : ThreadSafeConfig P) → IsEquipped c' → Handled (c, m) (c', m)
    nothing-Handled c' s = record {
      set = s;
      ready = r;
      going = λ u. u;
      same_tasks = refl;
      kept = λ p k. k;
    }

    -- The manager is notified and takes the settings of its config over.
    pub notify-Handled :
        (after : Manager) × (notify boost (itself (thread_safe boost) d ts) (c, m)
          ≡ (ok tt, (c, after)))
        × Handled (c, m) (c, after)
    unfolding notify
    notify-Handled =
        let u = update-Updated law d inside ts c set.normal m r fair in
        (
          u.after,
          simp (set.managed, u.returns) refl,
          record {
            set = set;
            ready = u.ready;
            going = u.going;
            same_tasks = u.same_tasks;
            kept = u.kept;
          },
        )

    newer-Checked :
        (t : ℕ) (host : Host) → ltb c.last_write_time t ≡ true → Checked boost d ts t host c m
    unfolding renewed-Handled
    newer-Checked t host newer =
        let u = reread-Updated boost host c set d ts m inside r fair in
        let s = reread-IsEquipped boost host c set in
        let c' : ThreadSafeConfig P = record (reread boost host c set) { last_write_time = t } in
        record {
          end = (c', u.after);
          returns =
              minute_lem c (reread boost host c set) m u.after t host newer
                (reread_lem boost host c set) s.managed u.returns;
          handled =
              renewed-Handled host c'
                (record { normal = s.normal; logs = s.logs; managed = s.managed });
          outcome =
              inr
                (newer, refl, update_config-Rereads boost host c, u.bounds, u.operators, u.places);
        }

    -- A minute of the thread that watches the file, in which the file's time can be read, where the
    -- config has a logger, its manager and normal settings, the manager is ready and the schedule is
    -- fair: if the file is not newer, nothing changes. If it is, it is read and its time kept: where
    -- its text is JSON with integers only and all four settings among them, these are the config's
    -- settings then, normalised, with `updated` set; for any other text settings and flag stay. The
    -- manager works by the settings. In both cases config and manager stay in order, a running pool runs
    -- on, and every client keeps its place.
    pub check_file-Checked : (t : ℕ) (host : Host) → Checked boost d ts t host c m
    unfolding check_file
    check_file-Checked t host = elim (Bool-cases (ltb c.last_write_time t)) [
      | inl newer ↦ newer-Checked t host newer
      | inr older ↦ record {
        end = (c, m);
        returns = simp older refl;
        handled = nothing-Handled c set;
        outcome = inl (older, refl);
      }
    ]

    -- A request for an update, whether the config may be updated or not.
    pub request-Handled :
        (host : Host) (now : ℕ)
        → (b : Bool) × (s' : ThreadSafeConfig P × Manager) × (process_request_for_update
              (thread_safe boost)
              d
              ts
              host
              now
              (c, m)
            ≡ (ok b, s'))
          × Handled (c, m) s'
    request-Handled host now = elim (Bool-cases c.not_to_update) [
      | inl frozen ↦ (
        c.updated,
        (record c { updated = false }, m),
        frozen_lem c m host now frozen,
        nothing-Handled (record c { updated = false })
            (record { normal = set.normal; logs = set.logs; managed = set.managed }),
      )
      | inr thawed ↦
          let q = process_request-Requested boost d ts host now inside c m thawed set r fair in
          (
            q.changed,
            (q.config, q.after),
            q.returns,
            record {
              set = q.set;
              ready = q.ready;
              going = q.going;
              same_tasks = q.same_tasks;
              kept = q.kept;
            },
          )
    ]
