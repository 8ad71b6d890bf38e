-- ===== src/Config/ThreadSafe.antt =====
-- The class ThreadSafeConfig, method by method. A method that locks `configMutex` is one step.
-- Logging is left out but for the argument of the log call in `updateConfig`, which can throw.
use protei_cov.Prelude.{ℕ, Bool, true, false, [], if◌then◌else◌, Text, ℤ}
use protei_cov.Effects.{
  Exception, Outcome, ok, throws, fault, Exec, pure, raise, gets, modify, when, deref, try_catch,
  ◌>>=◌, ◌>>◌,
}
use protei_cov.Json.{
  PropertyTree, Settings, no_settings, Host, JsonParser, new_parser, parse, output, output_config,
}
use protei_cov.Config.Settings.{
  value, touch, normalize_data, default_settings, r_min, r_max, amount_of_operators, size_of_queue,
}
use protei_cov.Config.Common.{make_normal_path, lift}

pub record ThreadSafeConfig (P : Type 0) : Type 0 where
  pub parser : JsonParser P
  pub path : Text
  pub settings : Settings
  pub stop_thread : Bool
  pub updated : Bool
  pub last_write_time : ℕ
  pub has_manager : Bool
  pub has_logger : Bool
  pub not_to_update : Bool
  pub monitoring : Bool

abbrev pub on_parser : {P A : Type 0} → Exec (JsonParser P) A → Exec (ThreadSafeConfig P) A
on_parser f c = let (r, p) = f c.parser in (r, record c { parser = p })

abbrev pub set_settings : {P : Type 0} → Settings → ThreadSafeConfig P → ThreadSafeConfig P
set_settings m c = record c { settings = m }

module _ {P : Type 0} (boost : PropertyTree P) where
  -- The `try` block of the constructor.
  load : Host → Text → Exec (ThreadSafeConfig P) (Unit {0})
  load host path = do
    normal ← lift (make_normal_path host path)
    modify (λ c. record c { path = normal })
    on_parser (parse boost host normal)
    m ← on_parser (output_config boost)
    modify (λ c. record c { settings = m; not_to_update = false })

  -- The members before the constructor's body: `memory` is what `lastWriteTime`, which is not set
  -- there, happens to hold.
  raw : ℕ → Bool → ThreadSafeConfig P
  raw memory logger = record {
    parser = new_parser boost logger;
    path = [];
    settings = no_settings;
    stop_thread = false;
    updated = false;
    last_write_time = memory;
    has_manager = false;
    has_logger = logger;
    not_to_update = false;
    monitoring = false;
  }

  fall_back : ThreadSafeConfig P → ThreadSafeConfig P
  fall_back c = record c { settings = default_settings c.settings; not_to_update = true }

  -- The constructor's body.
  initialize : Host → Text → Exec (ThreadSafeConfig P) (Unit {0})
  unfolding load fall_back
  initialize host path = do
    try_catch (load host path) (λ e. modify fall_back)
    modify (λ c. record c { stop_thread = false; updated = false })

  -- The members behind the constructor's body.
  unfoldable pub construct : Host → ℕ → Text → Bool → ThreadSafeConfig P
  unfolding initialize raw
  construct host memory path logger = (initialize host path (raw memory logger)).1

  -- `std::make_shared<ThreadSafeConfig>(…)`: there is an object where the body returns.
  unfoldable pub make : Host → ℕ → Text → Bool → Outcome (ThreadSafeConfig P)
  unfolding initialize raw
  make host memory path logger =
      let (r, c) = initialize host path (raw memory logger) in
      elim r [ ok u ↦ ok c | throws e ↦ throws e | fault ↦ fault ]

  unfoldable pub get_min_max : Exec (ThreadSafeConfig P) (ℤ × ℤ)
  get_min_max c = (
    ok (value r_min c.settings, value r_max c.settings),
    set_settings (touch r_max (touch r_min c.settings)) c,
  )

  unfoldable pub get_amount_of_operators : Exec (ThreadSafeConfig P) ℤ
  get_amount_of_operators c = (
    ok (value amount_of_operators c.settings),
    set_settings (touch amount_of_operators c.settings) c,
  )

  unfoldable pub get_size_of_queue : Exec (ThreadSafeConfig P) ℤ
  get_size_of_queue c =
      (ok (value size_of_queue c.settings), set_settings (touch size_of_queue c.settings) c)

  unfoldable pub get_path : Exec (ThreadSafeConfig P) Text
  get_path = gets (λ c. c.path)

  -- The text for the log is made only where there is a logger.
  log_new_configuration : Exec (ThreadSafeConfig P) (Unit {0})
  log_new_configuration = do
    logging ← gets (λ c. c.has_logger)
    when logging (on_parser (output boost) >> pure tt)

  -- The `try` block of `updateConfig`.
  unfoldable pub reload : Host → Exec (ThreadSafeConfig P) (Unit {0})
  unfolding log_new_configuration
  reload host = do
    path ← gets (λ c. c.path)
    on_parser (parse boost host path)
    log_new_configuration
    m ← on_parser (output_config boost)
    modify (set_settings m)
    modify (λ c. set_settings (normalize_data c.settings) c)
    modify (λ c. record c { updated = true })

  unfoldable pub update_config : Host → Exec (ThreadSafeConfig P) (Unit {0})
  update_config host = try_catch (reload host) λ e. do
    logging ← gets (λ c. c.has_logger)
    if logging then pure tt else raise Exception.sliced

  unfoldable pub is_updated : Exec (ThreadSafeConfig P) Bool
  is_updated c = (ok c.updated, record c { updated = false })

  unfoldable pub set_manager : ThreadSafeConfig P → ThreadSafeConfig P
  set_manager c = record c { has_manager = true }

  -- The logger is written to at once.
  unfoldable set_logger : Bool → Exec (ThreadSafeConfig P) (Unit {0})
  set_logger logger = modify (λ c. record c { has_logger = logger }) >> deref logger

  unfoldable pub run_monitoring : ThreadSafeConfig P → ThreadSafeConfig P
  run_monitoring c = if c.not_to_update then c else record c { monitoring = true }

  unfoldable pub is_monitoring : ThreadSafeConfig P → Bool
  is_monitoring c = c.monitoring
