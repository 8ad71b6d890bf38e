-- ===== src/Http/Steps.antt =====
-- The steps of requests for an update and of the thread that watches the file, in a row and in turn.
use protei_cov.Prelude.{ℕ, Bool, ◌≡◌, refl, ◌∙◌, true, false, List, inl, inr, ltb, Bool-cases}
use protei_cov.Effects.{Outcome, ok, throws, fault, Exec, pure, ◌>>=◌, ◌>>◌}
use protei_cov.Json.{PropertyTree, Host}
use protei_cov.Task.{Distribution}
use protei_cov.Task.Laws.{InBounds}
use protei_cov.Config.ThreadSafe.{ThreadSafeConfig, update_config, is_updated}
use protei_cov.Config.Monitor.{check_file, notify}
use protei_cov.Config.Laws.Watching.{minute_of}
use protei_cov.Pool.Join.{Turn}
use protei_cov.Manager.Configs.{thread_safe}
use protei_cov.Http.Serving.{Watching, asleep, see_file, watch_on}
use protei_cov.Config.Laws.Update.{update_config-Updates}
use protei_cov.Manager.{Manager, itself}
use protei_cov.Manager.Laws.{IsReady}
use protei_cov.Manager.Reread.{IsEquipped, reread, reread_lem, reread-IsEquipped}
use protei_cov.Manager.Replace.{IsFair}
use protei_cov.Manager.Watch.{notify-Handled}
use protei_cov.Http.Visits.{Visit, its_manager}

module _ {P : Type 0} (boost : PropertyTree P) (d : Distribution) where
  -- Two requests, step by step in turn, and what both are told.
  abbrev pub in_turn : Visit → Visit → Exec (ThreadSafeConfig P × Manager) (Bool × Bool)
  in_turn v v' =
      let a = its_manager boost d v in
      let b = its_manager boost d v' in
      do
        a.update_config
        b.update_config
        a.notify
        b.notify
        a.note_time
        b.note_time
        first ← a.is_updated
        second ← b.is_updated
        pure (first, second)

  flag_stays :
      (host : Host) (c : ThreadSafeConfig P)
      → c.updated ≡ true
      → (update_config boost host c).1.updated ≡ true
  flag_stays host c h = elim (update_config-Updates boost host c) [
    | inl (_, same, _) ↦ same ∙ h
    | inr (_, _, _, taken, _) ↦ taken
  ]

  -- Two requests for an update that run step by step in turn, over a config with a logger, its manager
  -- and normal settings and a manager that is ready, where the first takes the file's settings over:
  -- nothing fails, the first is told that the config was updated, the second that it was not, and the
  -- config and the manager are in order still.
  pub in_turn_differ :
      (inside : InBounds d) (v v' : Visit)
      → ((n : ℕ) → IsFair n (v.joining n))
      → ((n : ℕ) → IsFair n (v'.joining n))
      → (c : ThreadSafeConfig P) (m : Manager) → IsEquipped c
      → IsReady m
      → (update_config boost v.host c).1.updated ≡ true
      → (s' : ThreadSafeConfig P × Manager) × (in_turn v v' (c, m) ≡ (ok (true, false), s'))
        × IsEquipped s'.0
        × IsReady s'.1
  unfolding is_updated
  in_turn_differ inside v v' fair fair' c m set r taken =
      let c1 = reread boost v.host c set in
      let set1 = reread-IsEquipped boost v.host c set in
      let c2 = reread boost v'.host c1 set1 in
      let set2 = reread-IsEquipped boost v'.host c1 set1 in
      let (m1, e1, h1) =
        notify-Handled boost d (v.joining m.system.pool.size) inside c2 m set2 r
          (fair m.system.pool.size) in
      let (m2, e2, h2) =
        notify-Handled boost d (v'.joining m1.system.pool.size) inside c2 m1 set2 h1.ready
          (fair' m1.system.pool.size) in
      (
        (record c2 { last_write_time = v'.arrival.now; updated = false }, m2),
        simp
            (
              reread_lem boost v.host c set,
              reread_lem boost v'.host c1 set1,
              e1,
              e2,
              flag_stays v'.host c1 taken,
            )
            refl,
        record { normal = set2.normal; logs = set2.logs; managed = set2.managed },
        h2.ready,
      )

  module _ (t : ℕ) (host : Host) (joining : ℕ → List Turn) (c : ThreadSafeConfig P)
      (m : Manager) where
    abbrev in_a_row : Exec (ThreadSafeConfig P × Manager) Watching
    in_a_row =
        see_file boost d t host asleep >>= watch_on boost d joining >>= watch_on boost d joining

    abbrev whole : Exec (ThreadSafeConfig P × Manager) Watching
    whole =
        check_file boost (itself (thread_safe boost) d (joining m.system.pool.size))
          (minute_of (t, host))
        >> pure asleep

    module _ (newer : ltb c.last_write_time t ≡ true) where
      after_notify :
          (c' : ThreadSafeConfig P) (o : Outcome (Unit {0}) × (ThreadSafeConfig P × Manager))
          → update_config boost host c ≡ (ok tt, c')
          → notify boost (itself (thread_safe boost) d (joining m.system.pool.size)) (c', m) ≡ o
          → in_a_row (c, m) ≡ whole (c, m)
      unfolding check_file
      after_notify c' (ok u, s') e k = simp (newer, e, k) refl
      after_notify c' (throws x, s') e k = simp (newer, e, k) refl
      after_notify c' (fault, s') e k = simp (newer, e, k) refl

      after_read :
          (o : Outcome (Unit {0}) × ThreadSafeConfig P)
          → update_config boost host c ≡ o
          → in_a_row (c, m) ≡ whole (c, m)
      unfolding check_file
      after_read (ok u, c') e =
          after_notify c'
            (notify boost (itself (thread_safe boost) d (joining m.system.pool.size)) (c', m)) e
            refl
      after_read (throws x, c') e = simp (newer, e) refl
      after_read (fault, c') e = simp (newer, e) refl

    -- The steps of the thread that watches the file, where no other thread comes between, are a round
    -- of its loop.
    pub see_file-check_file : in_a_row (c, m) ≡ whole (c, m)
    unfolding check_file
    see_file-check_file = elim (Bool-cases (ltb c.last_write_time t)) [
      | inl newer ↦ after_read newer (update_config boost host c) refl
      | inr older ↦ simp older refl
    ]
