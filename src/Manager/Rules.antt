-- ===== src/Manager/Rules.antt =====
-- What `update` leaves of a relation between states, from what its parts do.
use protei_cov.Prelude.{List, ℤ, ◌==◌, if◌then◌else◌}
use protei_cov.Effects.{ok, pure, gets, modify}
use protei_cov.Effects.Grows.{Order, Grows, Grows-bind, Grows-result, Grows-if}
use protei_cov.Task.{Distribution}
use protei_cov.Queue.{to_size}
use protei_cov.Queue
use protei_cov.Pool
use protei_cov.Pool.{ThreadPool, on_queue, get_size, new_pool}
use protei_cov.Pool.Join.{Turn}
use protei_cov.Manager.Defs.{
  Manager, IConfig, on_system, set_bounds, set_new_thread_pool, replace_pool, update, lift,
  on_config, on_manager, to_unsigned,
}

module _ {C : Type 0} {R : C × Manager → C × Manager → Type 0} ⦃order : Order R⦄
    (config : IConfig C Manager) (d : Distribution) (joining : List Turn)
    (bounds : Grows R (on_config config.get_min_max))
    (operators : Grows R (on_config config.get_amount_of_operators))
    (places : Grows R (on_config config.get_size_of_queue))
    (new_bounds : (b : ℤ × ℤ) → Grows R (on_manager (modify (set_bounds b))))
    (new_places : (size : ℤ)
      → Grows R (on_manager (on_system (on_queue (λ q. (ok tt, Queue.update size q))))))
    (new_operators : (p : ThreadPool)
      → Grows R (on_manager (set_new_thread_pool d joining p))) where
  replace_pool-Grows : Grows R (replace_pool config d joining)
  unfolding replace_pool
  replace_pool-Grows = Grows-bind (on_config config.get_amount_of_operators) _ operators λ amount.
      Grows-bind (on_config config.get_size_of_queue) _ places λ size.
        Grows-bind (lift (new_pool (to_unsigned amount) (to_unsigned size))) _ (Grows-result _) λ p.
          Grows-bind (gets (λ s. s.1.has_logger)) _ (Grows-result _) λ logger.
            Grows-bind (lift (Pool.set_logger logger p))
              (λ p'. on_manager (set_new_thread_pool d joining p')) (Grows-result _) new_operators

  pub update-Grows : Grows R (update config d joining)
  unfolding update
  update-Grows = Grows-bind (on_config config.get_min_max) _ bounds λ b.
      Grows-bind (on_manager (modify (set_bounds b))) _ (new_bounds b) λ _.
        Grows-bind (on_config config.get_size_of_queue) _ places λ size.
          Grows-bind (on_manager (on_system (on_queue (λ q. (ok tt, Queue.update size q))))) _
            (new_places size)
            λ _. Grows-bind (on_config config.get_amount_of_operators) _ operators λ amount.
              Grows-bind (gets (λ s. get_size s.1.system.pool))
                (λ current.
                  if to_size amount == current then pure tt else replace_pool config d joining)
                (Grows-result _)
                λ current. Grows-if (to_size amount == current) (Grows-result _) replace_pool-Grows
