-- ===== src/Config/Laws/Frozen.antt =====
-- What holds over the whole life of a config: settings that were taken over stay normal, and a
-- config that could not be read at the start never changes.
use protei_cov.Prelude.{
  ℕ, Bool, true, false, ◌≡◌, refl, ◌∙◌, ◌⊎◌, inl, inr, List, [], ◌∷◌, none, some, Text, ℤ, arith,
  String,
}
use protei_cov.Effects.{ok, Exec, pure, ◌>>◌, >>=-ok}
use protei_cov.Json.{PropertyTree, Settings, no_settings, Host}
use protei_cov.Config.Settings.{touch, default_settings, r_min, r_max}
use protei_cov.Config.Range.{IsNormal, normalize_data-IsNormal}
use protei_cov.Config.Common.{IManager}
use protei_cov.Config.ThreadSafe.{
  ThreadSafeConfig, construct, get_min_max, get_amount_of_operators, get_size_of_queue,
  update_config, is_updated, set_manager, run_monitoring,
}
use protei_cov.Config.Monitor.{update_with_request}
use protei_cov.Config.Laws.Update.{
  starts_updated, update_config-Updates, construct-StartsFrom, initial_settings,
}

-- The calls that others make of a config.
pub data Call : Type 0 where
  gets_min_max gets_amount_of_operators gets_size_of_queue asks_updated sets_manager : Call
  runs_monitoring : Call
  updates : Host → Call

pub touch_present : (k : String) (m : Settings) {v : ℤ} → m k ≡ some v → touch k m ≡ m
unfolding touch
touch_present k m h = ground arith

module _ {P : Type 0} (boost : PropertyTree P) where
  -- The config after a call, however the call ended.
  unfoldable pub call : ThreadSafeConfig P → Call → ThreadSafeConfig P
  call c gets_min_max = (get_min_max boost c).1
  call c gets_amount_of_operators = (get_amount_of_operators boost c).1
  call c gets_size_of_queue = (get_size_of_queue boost c).1
  call c asks_updated = (is_updated boost c).1
  call c sets_manager = set_manager boost c
  call c runs_monitoring = run_monitoring boost c
  call c (updates host) = (update_config boost host c).1

  unfoldable pub calls : ThreadSafeConfig P → List Call → ThreadSafeConfig P
  unfolding call
  calls c [] = c
  calls c (k ∷ ks) = calls (call c k) ks

  call-IsNormal :
      (c : ThreadSafeConfig P) (k : Call) → IsNormal c.settings → IsNormal (call c k).settings
  unfolding call get_min_max get_amount_of_operators get_size_of_queue is_updated set_manager
      run_monitoring
  call-IsNormal c gets_min_max n =
      rw (touch_present r_min c.settings n.has_r_min, touch_present r_max c.settings n.has_r_max) n
  call-IsNormal c gets_amount_of_operators n = rw (touch_present _ c.settings n.has_operators) n
  call-IsNormal c gets_size_of_queue n = rw (touch_present _ c.settings n.has_queue) n
  call-IsNormal c asks_updated n = n
  call-IsNormal c sets_manager n = n
  call-IsNormal c runs_monitoring n = ground arith
  call-IsNormal c (updates host) n = elim (update_config-Updates boost host c) [
    | inl (e, _, _) ↦ rw e n
    | inr (m, _, _, _, e) ↦ rw e (normalize_data-IsNormal m)
  ]

  -- A config that would report an update has normal settings.
  abbrev pub IsSettled : ThreadSafeConfig P → Type 0
  IsSettled c = c.updated ≡ true → IsNormal c.settings

  call-updated :
      (c : ThreadSafeConfig P) (k : Call)
      → (call c k).updated ≡ true
      → (c.updated ≡ true) ⊎ IsNormal (call c k).settings
  unfolding call get_min_max get_amount_of_operators get_size_of_queue is_updated set_manager
      run_monitoring
  call-updated c (updates host) u = elim (update_config-Updates boost host c) [
    | inl (_, e, _) ↦ inl (cc)
    | inr (m, _, _, _, e) ↦ inr (rw e (normalize_data-IsNormal m))
  ]
  call-updated c asks_updated u = cc
  call-updated c _ u = inl (ground arith)

  call-IsSettled : (c : ThreadSafeConfig P) (k : Call) → IsSettled c → IsSettled (call c k)
  call-IsSettled c k h u = elim (call-updated c k u) [
    | inl before ↦ call-IsNormal c k (h before)
    | inr now ↦ now
  ]

  calls-IsSettled : (c : ThreadSafeConfig P) (ks : List Call) → IsSettled c → IsSettled (calls c ks)
  unfolding calls
  calls-IsSettled c [] h = h
  calls-IsSettled c (k ∷ ks) h = calls-IsSettled (call c k) ks (call-IsSettled c k h)

  construct-updated :
      (host : Host) (memory : ℕ) (path : Text) (logger : Bool)
      → (construct boost host memory path logger).updated ≡ false
  construct-updated host memory path logger = starts_updated boost host memory path logger

  -- From the constructor on, after any calls: whenever `updated` is set, all settings are in the
  -- ranges that `normalizeData` gives.
  pub construct-IsSettled :
      (host : Host) (memory : ℕ) (path : Text) (logger : Bool) (ks : List Call)
      → let c = calls (construct boost host memory path logger) ks in
        c.updated ≡ true → IsNormal c.settings
  construct-IsSettled host memory path logger ks =
      calls-IsSettled (construct boost host memory path logger) ks
        (λ u. absurd (cc (construct-updated host memory path logger)))

-- Requests for an update, one after the other, each with the file system and the time it meets.
module _ {P M : Type 0} (boost : PropertyTree P) (manager : IManager (ThreadSafeConfig P × M)) where
  pub requests : List (Host × ℕ) → Exec (ThreadSafeConfig P × M) (Unit {0})
  requests [] = pure tt
  requests ((host, now) ∷ later) = do update_with_request boost manager host now; requests later

  frozen_request :
      (host : Host) (now : ℕ) (c : ThreadSafeConfig P) (m : M)
      → c.not_to_update ≡ true
      → update_with_request boost manager host now (c, m) ≡ (ok tt, (c, m))
  unfolding update_with_request
  frozen_request host now c m h = rw h

  requests_frozen :
      (rs : List (Host × ℕ)) (c : ThreadSafeConfig P) (m : M)
      → c.not_to_update ≡ true
      → requests rs (c, m) ≡ (ok tt, (c, m))
  unfolding requests
  requests_frozen [] c m h = refl
  requests_frozen ((host, now) ∷ rs) c m h =
      >>=-ok (update_with_request boost manager host now) (λ _. requests rs)
        (frozen_request host now c m h)
      ∙ requests_frozen rs c m h

  -- A config whose file could not be read at the start keeps the defaults: no request changes it,
  -- none reaches the manager, and no monitoring thread starts.
  pub unreadable_stays :
      (host : Host) (memory : ℕ) (path : Text) (logger : Bool) (rs : List (Host × ℕ)) (m : M)
      → initial_settings boost host path ≡ none
      → let c = construct boost host memory path logger in
        (c.settings ≡ default_settings no_settings)
        × (requests rs (c, m) ≡ (ok tt, (c, m)))
        × (run_monitoring boost c ≡ c)
  unfolding run_monitoring
  unreadable_stays host memory path logger rs m h =
      let start = rw h at (construct-StartsFrom boost host memory path logger).1 in
      (start.0, requests_frozen rs _ m start.1, ground (arith, start))
