-- ===== src/Manager/Ending.antt =====
-- The manager of a config that is destroyed.
use protei_cov.Prelude.{List}
use protei_cov.Effects.{Exec}
use protei_cov.Effects.Grows.{Grows}
use protei_cov.Json.{PropertyTree}
use protei_cov.Task.{Distribution}
use protei_cov.Config.ThreadSafe.{get_min_max, get_amount_of_operators, get_size_of_queue}
use protei_cov.Config.Laws.Ending.{StaysStopped, stays_order}
use protei_cov.Pool.Join.{Turn}
use protei_cov.Manager.Defs.{Manager, update, on_manager}
use protei_cov.Manager.Configs.{thread_safe}
use protei_cov.Manager.Rules.{update-Grows}

module _ {P : Type 0} (boost : PropertyTree P) (d : Distribution) (joining : List Turn) where
  beside : {A : Type 0} (f : Exec Manager A) → Grows (StaysStopped {P = P}) (on_manager f)
  beside f = record { at = λ s. record { stays = λ h. h } }

  -- `update` leaves the flag of the config's thread as it is.
  pub update-StaysStopped : Grows StaysStopped (update (thread_safe boost) d joining)
  unfolding get_min_max get_amount_of_operators get_size_of_queue
  update-StaysStopped =
      update-Grows (thread_safe boost) d joining (record { at = λ s. record { stays = λ h. h } })
        (record { at = λ s. record { stays = λ h. h } })
        (record { at = λ s. record { stays = λ h. h } }) (λ b. beside _) (λ size. beside _)
        λ p. beside _
