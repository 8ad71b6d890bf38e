-- ===== src/Config/Monitor.antt =====
-- ThreadSafeConfig's calls of the manager, and its monitoring thread. The state is the config
-- together with the manager's side `M`, which `IManager.update` reads and writes.
use protei_cov.Prelude.{
  ℕ, Bool, true, not, ◌||◌, List, [], ◌∷◌, Option, none, some, if◌then◌else◌, ltb,
}
use protei_cov.Effects.{Exception, Exec, pure, raise, gets, modify, when, try_catch, ◌>>=◌, ◌>>◌}
use protei_cov.Json.{PropertyTree, Host}
use protei_cov.Config.Common.{IManager}
use protei_cov.Config.ThreadSafe.{ThreadSafeConfig, update_config}

-- What happens while the thread sleeps for a minute: the destructor may set `stopThread`, the file
-- may be written, or removed, which makes `last_write_time` throw.
pub record Minute : Type 0 where
  pub stop : Bool
  pub write_time : Option ℕ
  pub host : Host

-- How far the thread has come: in its loop still, or past it, by the flag or by an exception.
pub data Thread : Type 0 where
  sleeping stopped crashed : Thread

abbrev pub on_config :
    {P M A : Type 0} → Exec (ThreadSafeConfig P) A → Exec (ThreadSafeConfig P × M) A
on_config f s = let (r, c) = f s.0 in (r, (c, s.1))

module _ {P M : Type 0} (boost : PropertyTree P) (manager : IManager (ThreadSafeConfig P × M)) where
  unfoldable pub notify : Exec (ThreadSafeConfig P × M) (Unit {0})
  notify = do set ← gets (λ s. s.0.has_manager); when set manager.update

  unfoldable pub update_with_request : Host → ℕ → Exec (ThreadSafeConfig P × M) (Unit {0})
  unfolding notify
  update_with_request host now = do
    frozen ← gets (λ s. s.0.not_to_update)
    when (not frozen) do
      on_config (update_config boost host)
      notify
      on_config (modify (λ c. record c { last_write_time = now }))

  -- `lastTime(path_)`
  unfoldable pub last_time : Option ℕ → Exec (ThreadSafeConfig P × M) ℕ
  last_time none = raise Exception.filesystem_error
  last_time (some t) = pure t

  -- One turn of the loop, from the end of the sleep on.
  unfoldable pub check_file : Minute → Exec (ThreadSafeConfig P × M) (Unit {0})
  unfolding notify last_time
  check_file minute = do
    current ← last_time minute.write_time
    last ← gets (λ s. s.0.last_write_time)
    when (ltb last current) do
      on_config (update_config boost minute.host)
      notify
      on_config (modify (λ c. record c { last_write_time = current }))

  sleep_through : Minute → Exec (ThreadSafeConfig P × M) (Unit {0})
  unfolding check_file
  sleep_through minute = do
    on_config (modify (λ c. record c { stop_thread = c.stop_thread || minute.stop }))
    check_file minute

  -- The handler of the thread's function.
  crash : Exception → Exec (ThreadSafeConfig P × M) Thread
  crash e = do
    logging ← gets (λ s. s.0.has_logger)
    if logging then pure Thread.crashed else raise Exception.sliced

  -- `while (!stopThread)` over the minutes that have passed.
  unfoldable pub watch : List Minute → Exec (ThreadSafeConfig P × M) Thread
  unfolding sleep_through
  watch [] = pure Thread.sleeping
  watch (minute ∷ later) = do
    stop ← gets (λ s. s.0.stop_thread)
    let rest = sleep_through minute >> watch later
    if stop then pure Thread.stopped else rest

  unfoldable pub update_config_thread :
      Option ℕ → List Minute → Exec (ThreadSafeConfig P × M) Thread
  unfolding watch last_time crash
  update_config_thread first minutes =
      try_catch
        (do
          t ← last_time first
          on_config (modify (λ c. record c { last_write_time = t }))
          watch minutes)
        crash

  -- A thread that sleeps, over the minutes that have passed.
  unfoldable pub wake_up : List Minute → Exec (ThreadSafeConfig P × M) Thread
  unfolding crash
  wake_up [] = pure Thread.sleeping
  wake_up (minute ∷ later) = try_catch (check_file minute >> watch later) crash

  -- The destructor while the thread sleeps: it sets the flag and joins the thread.
  unfoldable pub destroy : List Minute → Exec (ThreadSafeConfig P × M) Thread
  destroy minutes = do
    on_config (modify (λ c. record c { stop_thread = true }))
    joinable ← gets (λ s. s.0.monitoring)
    if joinable then wake_up minutes else pure Thread.stopped
