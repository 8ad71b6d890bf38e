-- ===== src/Manager/Configs.antt =====
-- Both config classes implement `IConfig`.
use protei_cov.Json.{PropertyTree}
use protei_cov.Config.ThreadSafe.{
  ThreadSafeConfig, get_min_max, get_amount_of_operators, get_size_of_queue, is_updated,
}
use protei_cov.Config.Monitor.{update_with_request}
use protei_cov.Config.Simple
use protei_cov.Manager.Defs.{IConfig}

module _ {P : Type 0} (boost : PropertyTree P) {M : Type 0} where
  abbrev pub thread_safe : IConfig (ThreadSafeConfig P) M
  thread_safe = record {
    get_min_max = get_min_max boost;
    get_amount_of_operators = get_amount_of_operators boost;
    get_size_of_queue = get_size_of_queue boost;
    is_updated = is_updated boost;
    update_with_request = update_with_request boost;
  }

  abbrev pub plain : IConfig (Simple.Config P) M
  plain = record {
    get_min_max = Simple.get_min_max boost;
    get_amount_of_operators = Simple.get_amount_of_operators boost;
    get_size_of_queue = Simple.get_size_of_queue boost;
    is_updated = Simple.is_updated boost;
    update_with_request = λ manager host now. Simple.update_with_request boost manager host;
  }
