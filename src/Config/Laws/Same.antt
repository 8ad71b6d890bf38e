-- ===== src/Config/Laws/Same.antt =====
-- The two config classes start alike, and differ in what an update does on an error.
use protei_cov.Prelude.{ℕ, Bool, ◌≡◌, Text, arith, none, some, Option-cases, ◌⊎◌, inl, inr}
use protei_cov.Effects.{Exception, throws, ok}
use protei_cov.Json.{PropertyTree, Settings, no_settings, Host, parse, output_config}
use protei_cov.Config.Settings.{normalize_data}
use protei_cov.Config.Laws.Update.{read_settings, collect_cases}
use protei_cov.Config.ThreadSafe.{construct}
use protei_cov.Config.Simple.{Config, construct as construct_plain, update_config}

module _ {P : Type 0} (boost : PropertyTree P) (host : Host) where
  -- Config and ThreadSafeConfig come out of their constructors with the same settings, path and
  -- notToUpdate, whatever the file holds.
  construct_alike :
      (memory : ℕ) (path : Text) (logger : Bool)
      → ((construct_plain boost host path logger).settings
          ≡ (construct boost host memory path logger).settings)
        × ((construct_plain boost host path logger).path
            ≡ (construct boost host memory path logger).path)
        × ((construct_plain boost host path logger).not_to_update
            ≡ (construct boost host memory path logger).not_to_update)
  unfolding construct construct_plain
  construct_alike memory path logger = (ground arith, ground arith, ground arith)

  -- `updateConfig` of Config throws where the file is no map of integers, and leaves the settings;
  -- else it takes the settings over, normalised, with a logger or without.
  update_config_plain :
      (c : Config P)
      → ((read_settings boost (host.contents c.path) ≡ none)
          × ((update_config boost host c).0 ≡ throws Exception.sliced)
          × ((update_config boost host c).1.settings ≡ c.settings))
        ⊎ ((m : Settings) × (read_settings boost (host.contents c.path) ≡ some m)
            × ((update_config boost host c).0 ≡ ok tt)
            × ((update_config boost host c).1.settings ≡ normalize_data m))
  unfolding update_config parse output_config normalize_data
  update_config_plain c = elim (Option-cases (boost.read_json (host.contents c.path))) [
    | inl h ↦ inl (ground arith, ground arith, ground arith)
    | inr (t, h) ↦ elim (collect_cases boost (boost.children t) no_settings) [
      | inl (m, k) ↦ inr (m, ground arith, ground arith, ground arith)
      | inr k ↦ inl (ground arith, ground arith, ground arith)
    ]
  ]
