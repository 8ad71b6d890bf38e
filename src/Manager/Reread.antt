-- ===== src/Manager/Reread.antt =====
-- A config that reads its file again, with a logger and its manager: what both updates on request and
-- the monitoring thread begin with.
use protei_cov.Prelude.{◌≡◌, sym, ap, ◌∙◌, subst, true, List, inl, inr}
use protei_cov.Effects.{ok}
use protei_cov.Json.{PropertyTree, Host}
use protei_cov.Task.{Distribution}
use protei_cov.Task.Laws.{InBounds}
use protei_cov.Config.Range.{IsNormal, normalize_data-IsNormal}
use protei_cov.Config.ThreadSafe.{ThreadSafeConfig, update_config}
use protei_cov.Config.Laws.Update.{update_config-Updates}
use protei_cov.Config.Laws.Watching.{update_config-Keeps, update_config_returns}
use protei_cov.Pool.Join.{Turn}
use protei_cov.Manager.Defs.{Manager}
use protei_cov.Manager.Laws.{IsReady, thread_safe-IsLawful}
use protei_cov.Manager.Replace.{IsFair}
use protei_cov.Manager.Renew.{Updated, update-Updated}

-- A config that its manager can work with.
pub record IsEquipped {P : Type 0} (c : ThreadSafeConfig P) : Type 0 where
  pub normal : IsNormal c.settings
  pub logs : c.has_logger ≡ true
  pub managed : c.has_manager ≡ true

module _ {P : Type 0} (boost : PropertyTree P) (host : Host) (c : ThreadSafeConfig P)
    (set : IsEquipped c) where
  abbrev pub reread : ThreadSafeConfig P
  reread = (update_config boost host c).1

  pub reread_lem : update_config boost host c ≡ (ok tt, reread)
  reread_lem = ap (λ x. (x, reread)) (update_config_returns boost host c set.logs)

  reread-IsNormal : IsNormal reread.settings
  reread-IsNormal = elim (update_config-Updates boost host c) [
    | inl (same, _, _) ↦ subst IsNormal (sym same) set.normal
    | inr (m, _, _, _, e) ↦ subst IsNormal (sym e) (normalize_data-IsNormal m)
  ]

  pub reread-IsEquipped : IsEquipped reread
  reread-IsEquipped = record {
    normal = reread-IsNormal;
    logs = (update_config-Keeps boost host c).logger ∙ set.logs;
    managed = (update_config-Keeps boost host c).manager ∙ set.managed;
  }

  pub reread-Updated :
      (d : Distribution) (ts : List Turn) (m : Manager)
      → InBounds d
      → IsReady m
      → IsFair m.system.pool.size ts
      → Updated (thread_safe-IsLawful boost) d ts reread m
  reread-Updated d ts m inside r fair =
      update-Updated (thread_safe-IsLawful boost) d inside ts reread reread-IsNormal m r fair
