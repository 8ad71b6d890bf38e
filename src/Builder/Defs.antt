-- ===== src/Builder/Defs.antt =====
-- The class ManagerBuilder. What its calls of the logging library come to is an argument: a log file
-- that cannot be opened throws.
use protei_cov.Prelude.{
  ℕ, Bool, true, false, Option, none, some, List, [], ◌∷◌, if◌then◌else◌, Text,
}
use protei_cov.Effects.{
  Exception, Exec, fault, pure, raise, gets, modify, deref, when, try_catch, ◌>>=◌, ◌>>◌,
}
use protei_cov.Json.{PropertyTree, Host}
use protei_cov.World.{World}
use protei_cov.Pool.{ThreadPool, new_pool, set_logger}
use protei_cov.Recorder.{open_recorder}
use protei_cov.Config.ThreadSafe.{
  ThreadSafeConfig, make as make_config, get_amount_of_operators, get_size_of_queue, run_monitoring,
  set_manager,
}
use protei_cov.Manager.{Manager, new_manager, to_unsigned, lift}
use protei_cov.Manager
use protei_cov.Manager.Configs.{thread_safe}

-- The members, with the text of `cdrFile.txt`. Recorder 0 writes to that file.
pub record ManagerBuilder (P : Type 0) : Type 0 where
  pub logger : Bool
  pub config : Option (ThreadSafeConfig P)
  pub recorders : List ℕ
  pub cdr_file : Text

-- What a construction meets: whether the log file opens, the file system, the path of the config,
-- and what `lastWriteTime` holds in memory.
pub record Site : Type 0 where
  pub log_opens : Bool
  pub host : Host
  pub path : Text
  pub memory : ℕ

module _ {P : Type 0} where
  abbrev pub new_builder : Text → ManagerBuilder P
  new_builder cdr_file = record {
    logger = false;
    config = none;
    recorders = [];
    cdr_file = cdr_file;
  }

  use_logger : Exec (ManagerBuilder P) (Unit {0})
  use_logger b = deref b.logger b

  -- `logger->critical(…); throw e;` in a handler.
  rethrow : {A : Type 0} → Exception → Exec (ManagerBuilder P) A
  unfolding use_logger
  rethrow e = use_logger >> raise Exception.sliced

  -- A call through `config`.
  on_config : {A : Type 0} → Exec (ThreadSafeConfig P) A → Exec (ManagerBuilder P) A
  on_config f b = elim b.config [
    | none ↦ (fault, b)
    | some c ↦ let (r, c') = f c in (r, record b { config = some c' })
  ]

  unfoldable pub build_logger : Bool → Exec (ManagerBuilder P) (Unit {0})
  build_logger opens =
      if opens then modify (λ b. record b { logger = true }) else raise Exception.system_failure

  unfoldable pub build_recorders : Exec (ManagerBuilder P) (List ℕ)
  unfolding use_logger rethrow
  build_recorders =
      try_catch
        (do
          present ← gets (λ b. b.recorders)
          when (elim present [ [] ↦ true | r ∷ rs ↦ false ])
              do
                use_logger
                modify (λ b. record b { recorders = 0 ∷ []; cdr_file = open_recorder b.cdr_file })
          gets (λ b. b.recorders))
        rethrow

module _ {P : Type 0} (boost : PropertyTree P) where
  unfoldable pub build_config : Site → Exec (ManagerBuilder P) (Unit {0})
  unfolding use_logger rethrow
  build_config site =
      try_catch
        (do
          logger ← gets (λ b. b.logger)
          c ← lift (make_config boost site.host site.memory site.path logger)
          modify (λ b. record b { config = some c })
          use_logger)
        rethrow

  unfoldable pub build_thread_pool : Exec (ManagerBuilder P) ThreadPool
  unfolding use_logger rethrow on_config
  build_thread_pool =
      try_catch
        (do
          amount ← on_config (get_amount_of_operators boost)
          size ← on_config (get_size_of_queue boost)
          p ← lift (new_pool (to_unsigned amount) (to_unsigned size))
          use_logger
          logger ← gets (λ b. b.logger)
          lift (set_logger logger p))
        rethrow

  -- The `try` block of `Construct`, over shared objects of which there are none yet.
  assemble : Site → World → Exec (ManagerBuilder P) Manager
  unfolding use_logger on_config
  assemble site world = do
    build_logger site.log_opens
    build_config site
    build_recorders
    p ← build_thread_pool
    m ← on_config (new_manager (thread_safe boost) (record { pool = p; world = world }))
    logger ← gets (λ b. b.logger)
    let logged = Manager.set_logger logger m
    lift logged.0
    on_config (modify (run_monitoring boost))
    on_config (modify (set_manager boost))
    use_logger
    pure logged.1

  unfoldable pub construct : Site → World → Exec (ManagerBuilder P) Manager
  unfolding assemble rethrow
  construct site world = try_catch (assemble site world) rethrow
