-- ===== src/Manager/Events.antt =====
-- The days of a manager: calls, moves of the operators, changes of the settings, pauses.
use protei_cov.Prelude.{ℕ, ◌≡◌, Option, none, some, List, [], ◌∷◌, Text}
use protei_cov.Effects.{Exec, pure, try_catch, ◌>>=◌, ◌>>◌}
use protei_cov.Task.{Distribution}
use protei_cov.Pool.Join.{Turn}
use protei_cov.Manager.Defs.{
  IConfig, Manager, Arrival, add_task, update, set_new_config, start_thread_pool, stop_thread_pool,
  on_manager,
}
use protei_cov.Manager.Laws.{IsLawful}
use protei_cov.Manager.Move.{worker_moves}
use protei_cov.Manager.Replace.{IsFair}

-- `joining` is how the threads of a pool of each size move while its destructor waits for them.
pub data Event (C : Type 0) : Type 0 where
  calls : Arrival → Text → Event C
  moves : Turn → Event C
  updates : (joining : ℕ → List Turn) → Event C
  takes_config : C → (joining : ℕ → List Turn) → Event C
  starts stops : Event C

abbrev pub gained : Option ℕ → List ℕ → List ℕ
gained none ps = ps
gained (some p) ps = p ∷ ps

module _ {C : Type 0} (config : IConfig C Manager) (d : Distribution) where
  abbrev pub current_size : C × Manager → ℕ
  current_size s = s.1.system.pool.size

  -- The promise that a caller of `addTask` gets; an exception is the caller's.
  abbrev pub step : Event C → Exec (C × Manager) (Option ℕ)
  step (calls a number) s =
      try_catch (on_manager (do r ← add_task a number; pure (some r.1))) (λ e. pure none) s
  step (moves t) s = (on_manager (worker_moves d t) >> pure none) s
  step (updates joining) s = (update config d (joining (current_size s)) >> pure none) s
  step (takes_config c joining) s =
      (set_new_config config d (joining (current_size s)) c >> pure none) s
  step starts s = (on_manager start_thread_pool >> pure none) s
  step stops s = (on_manager stop_thread_pool >> pure none) s

  -- The promises of the calls, in their order.
  unfoldable pub run : List (Event C) → Exec (C × Manager) (List ℕ)
  run [] = pure []
  run (e ∷ es) = do p ← step e; ps ← run es; pure (gained p ps)

-- An event that does not stop the pool.
abbrev pub IsBusy : {C : Type 0} → Event C → Type 0
IsBusy stops = ⊥
IsBusy (calls a number) = Unit {0}
IsBusy (moves t) = Unit {0}
IsBusy (updates joining) = Unit {0}
IsBusy (takes_config c joining) = Unit {0}
IsBusy starts = Unit {0}

-- The random device works, schedules are fair, and new configs are good.
abbrev pub IsAllowed :
    {C : Type 0} {config : IConfig C Manager} → IsLawful config → Event C → Type 0
IsAllowed law (calls a number) = Unit {0}
IsAllowed law (moves t) = (seed : ℕ) × (t.env.entropy ≡ some seed)
IsAllowed law (updates joining) = (n : ℕ) → IsFair n (joining n)
IsAllowed law (takes_config c joining) = law.IsGood c × ((n : ℕ) → IsFair n (joining n))
IsAllowed law starts = Unit {0}
IsAllowed law stops = Unit {0}
