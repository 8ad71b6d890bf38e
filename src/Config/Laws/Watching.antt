-- ===== src/Config/Laws/Watching.antt =====
-- What reading a file again leaves alone, for the thread that watches it.
use protei_cov.Prelude.{ℕ, ◌≡◌, ap, ◌∙◌, true, false, some, if◌then◌else◌, arith, inl, inr}
use protei_cov.Effects.{Exception, ok, throws}
use protei_cov.Json.{PropertyTree, Host, parse, output, output_config}
use protei_cov.Config.ThreadSafe.{ThreadSafeConfig, update_config, reload}
use protei_cov.Config.Laws.Update.{update_config-Updates}
use protei_cov.Config.Monitor.{Minute}

-- What the thread reads of a config besides the settings.
pub record Keeps {P : Type 0} (c c' : ThreadSafeConfig P) : Type 0 where
  pub time : c'.last_write_time ≡ c.last_write_time
  pub stop : c'.stop_thread ≡ c.stop_thread
  pub logger : c'.has_logger ≡ c.has_logger
  pub manager : c'.has_manager ≡ c.has_manager

module _ {P : Type 0} (boost : PropertyTree P) (host : Host) (c : ThreadSafeConfig P) where
  pub update_config-Keeps : Keeps c (update_config boost host c).1
  unfolding update_config reload parse output output_config
  update_config-Keeps = record {
    time = ground arith;
    stop = ground arith;
    logger = ground arith;
    manager = ground arith;
  }

  pub update_config_returns : c.has_logger ≡ true → (update_config boost host c).0 ≡ ok tt
  update_config_returns h = elim (update_config-Updates boost host c) [
    | inl (a, b, e) ↦ e ∙ ap (λ b. if b then ok tt else throws Exception.sliced) h
    | inr (m, a, e, b, k) ↦ e
  ]

-- A minute in which the thread is not stopped, by the file's time and what it holds behind it.
abbrev pub minute_of : ℕ × Host → Minute
minute_of (t, host) = record { stop = false; write_time = some t; host = host }
