-- ===== src/Tests/ConfigTests.antt =====
-- Settings, the config and its methods on small files.
use protei_cov.Prelude.{ℕ, suc, ◌≡◌, refl, true, false, [], ◌∷◌, some, codes, pos, negsuc}
use protei_cov.Effects.{ok}
use protei_cov.Config.Simple.{Config, construct as construct_plain}
use protei_cov.Json.{Settings, no_settings, assign, collect}
use protei_cov.Json.{JsonParser}
use protei_cov.Json.Laws.{Outputs, output_config_lem}
use protei_cov.Config.Settings.{
  value, normalize_data, default_settings, r_min, r_max, amount_of_operators, size_of_queue,
}
use protei_cov.Config.Normalize.{normalize_data_lem, clamp, min_ℤ, max_ℤ}
use protei_cov.Config.Range.{IsNormal, normalize_data-IsNormal}
use protei_cov.Config.Common.{IManager, make_normal_path}
use protei_cov.Config.ThreadSafe.{ThreadSafeConfig, construct, make, update_config, run_monitoring}
use protei_cov.Config.Laws.Update.{
  Updates, update_config-Updates, update_config_wants_r_min, StartsFrom, construct-StartsFrom,
  initial_settings,
}
use protei_cov.Config.ThreadSafe.{get_min_max, reload}
use protei_cov.Json.{output, output_config, parse}
use protei_cov.Config.Settings.{
  cap_at, normalize_amount_of_operators, normalize_r_min_r_max, normalize_size_of_queue, raise_to,
  sort_pair,
}
use protei_cov.Config.Laws.Frozen.{
  updates, gets_min_max, calls, construct-IsSettled, requests, unreadable_stays,
}
use protei_cov.Tests.ConfigFiles.{
  Flat, boost, no_r_min, upper_host, broken_host, no_r_min_host, base,
}

path_in_working_directory : make_normal_path upper_host base ≡ ok (codes "/srv/base.json")
unfolding make_normal_path
path_in_working_directory = refl

abbrev upper_config : ThreadSafeConfig Flat
upper_config = construct boost upper_host 0 base true

-- The constructor of tests/upperBorder.json keeps the values; `updateConfig` brings them down.
upper_start : value r_max upper_config.settings ≡ pos 140_000
unfolding construct value make_normal_path parse output_config
upper_start = refl

upper_updated : value r_max (update_config boost upper_host upper_config).1.settings ≡ pos 140
unfolding construct update_config normalize_data value reload parse make_normal_path output_config
    output normalize_size_of_queue raise_to cap_at normalize_amount_of_operators
    normalize_r_min_r_max sort_pair
upper_updated = refl

mixed : Settings
mixed = assign r_min (pos 90) (assign r_max (negsuc 3) no_settings)

normalize_data_lem_example : normalize_data mixed r_min ≡ some (pos 5)
unfolding mixed value clamp min_ℤ max_ℤ
normalize_data_lem_example = normalize_data_lem mixed r_min

normalize_data-IsNormal_example : IsNormal (normalize_data mixed)
normalize_data-IsNormal_example = normalize_data-IsNormal mixed

update_config-Updates_example :
    Updates boost (codes "A") upper_config (update_config boost upper_host upper_config)
update_config-Updates_example = update_config-Updates boost upper_host upper_config

abbrev no_r_min_settings : Settings
no_r_min_settings =
    assign size_of_queue (pos 20)
      (assign amount_of_operators (pos 5) (assign r_max (pos 20) no_settings))

update_config_wants_r_min_example :
    (update_config boost no_r_min_host upper_config).1.settings ≡ upper_config.settings
unfolding construct collect make_normal_path parse output_config
update_config_wants_r_min_example =
    update_config_wants_r_min boost no_r_min_host upper_config no_r_min no_r_min_settings refl refl
      refl

construct-StartsFrom_example :
    (make boost broken_host 0 base false ≡ ok (construct boost broken_host 0 base false))
    × StartsFrom boost
        (initial_settings boost broken_host base)
        (construct boost broken_host 0 base false)
construct-StartsFrom_example = construct-StartsFrom boost broken_host 0 base false

construct-IsSettled_example :
    let c = calls boost upper_config (updates upper_host ∷ gets_min_max ∷ []) in IsNormal c.settings
unfolding construct calls update_config get_min_max reload parse make_normal_path output_config
    output
construct-IsSettled_example =
    construct-IsSettled boost upper_host 0 base true (updates upper_host ∷ gets_min_max ∷ []) refl

-- A manager that counts the calls of `update`.
abbrev counting : IManager (ThreadSafeConfig Flat × ℕ)
counting = record { update = λ s. (ok tt, (s.0, suc s.1)) }

unreadable_stays_example :
    let c = construct boost broken_host 0 base true in
    (c.settings ≡ default_settings no_settings)
    × (requests boost counting ((upper_host, 7) ∷ []) (c, 0) ≡ (ok tt, (c, 0)))
    × (run_monitoring boost c ≡ c)
unfolding make_normal_path collect
unreadable_stays_example =
    unreadable_stays boost counting broken_host 0 base true ((upper_host, 7) ∷ []) 0 refl

abbrev plain_config : Config Flat
plain_config = construct_plain boost upper_host base false

-- A tree that has a key twice.
abbrev twice_r_min : JsonParser Flat
twice_r_min = record {
  tree = (r_min, some (pos 5)) ∷ (size_of_queue, some (pos 20)) ∷ (r_min, some (pos 7)) ∷ [];
  has_logger = true;
}

output_config_lem_example : Outputs boost twice_r_min (output_config boost twice_r_min)
output_config_lem_example = output_config_lem boost twice_r_min
