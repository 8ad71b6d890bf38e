-- ===== src/Config/Laws/Ending.antt =====
-- The destructor of ThreadSafeConfig and the thread that it joins.
use protei_cov.Prelude.{
  ℕ, Bool, ◌≡◌, ◌≢◌, refl, true, false, List, ◌∷◌, Option, none, some, ◌∙◌, if◌then◌else◌, ltb,
  arith,
}
use protei_cov.Effects.{Outcome, ok, throws, fault, Exec, gets, pure, modify, when}
use protei_cov.Effects.Grows.{Order, Grows, Grows-bind, Grows-result, Grows-when}
use protei_cov.Json.{PropertyTree, Host}
use protei_cov.Config.Common.{IManager}
use protei_cov.Config.ThreadSafe.{ThreadSafeConfig, update_config}
use protei_cov.Config.Monitor.{
  Minute, Thread, sleeping, stopped, on_config, notify, check_file, watch, wake_up, destroy,
  last_time,
}
use protei_cov.Config.Laws.Watching.{update_config-Keeps}

module _ {P M : Type 0} where
  -- A flag that is set stays set.
  pub record StaysStopped (s s' : ThreadSafeConfig P × M) : Type 0 where
    pub stays : s.0.stop_thread ≡ true → s'.0.stop_thread ≡ true

  instance abbrev pub stays_order : Order StaysStopped
  stays_order = record {
    same = λ s. record { stays = λ h. h };
    chain = λ a b. record { stays = λ h. b.stays (a.stays h) };
  }

-- A thread that is joined where it runs.
joined :
    {S : Type 0} (running : Bool) (m : Exec S Thread) (s end : S)
    → ((m s).1 ≡ end) × ((m s).0 ≢ ok sleeping)
    → (((if running then m else pure stopped) s).1 ≡ (if running then end else s))
      × (((if running then m else pure stopped) s).0 ≢ ok sleeping)
joined true m s end h = h
joined false m s end h = (refl, λ n. ground arith)

module _ {P M : Type 0} (boost : PropertyTree P) (manager : IManager (ThreadSafeConfig P × M))
    (law : Grows StaysStopped manager.update) where
  last_time-StaysStopped : (t : Option ℕ) → Grows StaysStopped (last_time boost manager t)
  unfolding last_time
  last_time-StaysStopped none = Grows-result _
  last_time-StaysStopped (some t) = Grows-result _

  update_config-StaysStopped :
      (host : Host) → Grows (StaysStopped {M = M}) (on_config (update_config boost host))
  update_config-StaysStopped host = record {
    at = λ s. record { stays = λ h. (update_config-Keeps boost host s.0).stop ∙ h };
  }

  check_file-StaysStopped : (minute : Minute) → Grows StaysStopped (check_file boost manager minute)
  unfolding check_file notify
  check_file-StaysStopped minute =
      Grows-bind (last_time boost manager minute.write_time) _
        (last_time-StaysStopped minute.write_time)
        λ current. Grows-bind (gets (λ s. s.0.last_write_time)) _ (Grows-result _) λ last.
          Grows-when (ltb last current) (
            Grows-bind (on_config (update_config boost minute.host)) _
              (update_config-StaysStopped minute.host)
              λ _.
                Grows-bind (notify boost manager)
                  (λ _. on_config (modify (λ c. record c { last_write_time = current })))
                  (Grows-bind (gets (λ s. s.0.has_manager)) (λ set. when set manager.update)
                    (Grows-result _) λ set. Grows-when set law)
                  λ _. record { at = λ s. record { stays = λ h. h } })

  module _ (minute next : Minute) (later : List Minute) where
    abbrev minutes : List Minute
    minutes = minute ∷ next ∷ later

    watch_no_more :
        (s : ThreadSafeConfig P × M) (r : Outcome (Unit {0}) × (ThreadSafeConfig P × M))
        → check_file boost manager minute s ≡ r
        → (r.1.0.stop_thread ≡ true)
        → ((wake_up boost manager minutes s).1 ≡ r.1)
          × ((wake_up boost manager minutes s).0 ≢ ok sleeping)
    unfolding wake_up watch
    watch_no_more s (ok u, s') e h = rw (e, h) (refl, λ n. ground arith)
    watch_no_more s (fault, s') e h = rw e (refl, λ n. ground arith)
    watch_no_more s (throws x, s') e h = rw e (ground arith, λ n. ground arith)

    -- The destructor of a config, over a manager that leaves the flag of the thread set, joins a thread
    -- that sleeps in its minute: what it leaves is what one check of the file at the end of that minute
    -- leaves, with the flag set before, and where no thread runs, just the flag. The thread is out of
    -- its loop then, by the flag or by an exception; none of the later minutes, in whatever state the
    -- file is in them, is looked at.
    pub destroy_once :
        (s : ThreadSafeConfig P × M)
        → ((destroy boost manager minutes s).1 ≡ (
            if s.0.monitoring
            then (check_file boost manager minute (record (s.0) { stop_thread = true }, s.1)).1
            else (record (s.0) { stop_thread = true }, s.1)))
          × ((destroy boost manager minutes s).0 ≢ ok sleeping)
    unfolding destroy
    destroy_once s =
        let s' : ThreadSafeConfig P × M = (record (s.0) { stop_thread = true }, s.1) in
        joined s.0.monitoring (wake_up boost manager minutes) s'
          (check_file boost manager minute s').1
          (watch_no_more s' (check_file boost manager minute s') refl
            (((check_file-StaysStopped minute).at s').stays refl))
