-- ===== src/Config/Laws/Update.antt =====
-- `updateConfig` takes a file over whole or not at all; the constructor takes it as it is.
use protei_cov.Prelude.{
  ℕ, Bool, true, false, ◌≡◌, ◌≢◌, refl, ◌⊎◌, inl, inr, List, [], ◌∷◌, Option, none, some,
  if◌then◌else◌, Text, arith, Bool-cases, Option-cases, String,
}
use protei_cov.Effects.{Exception, Outcome, ok, throws, fault, Outcome-cases}
use protei_cov.Json.{
  PropertyTree, missing, Settings, no_settings, Host, JsonParser, parse, output, collect,
  output_config, assign,
}
use protei_cov.Config.Settings.{normalize_data, default_settings, r_min}
use protei_cov.Config.Common.{make_normal_path}
use protei_cov.Config.ThreadSafe.{ThreadSafeConfig, construct, make, update_config, reload}

make_normal_path-ne-fault : (host : Host) (path : Text) → make_normal_path host path ≢ fault
unfolding make_normal_path
make_normal_path-ne-fault host path = ground arith

module _ {P : Type 0} (boost : PropertyTree P) where
  -- The settings that a text stands for: it is JSON, and every child of the tree is an integer.
  abbrev pub read_settings : Text → Option Settings
  read_settings text = elim (boost.read_json text) [
    | none ↦ none
    | some t ↦ elim (collect boost (boost.children t) no_settings) [ ok m ↦ some m | _ ↦ none ]
  ]

  -- A call that left the settings alone, or one that took `text` over.
  abbrev pub Updates : Text → ThreadSafeConfig P → Outcome (Unit {0}) × ThreadSafeConfig P → Type 0
  Updates text c (r, c') =
      ((c'.settings ≡ c.settings)
        × (c'.updated ≡ c.updated)
        × (r ≡ (if c.has_logger then ok tt else throws Exception.sliced)))
      ⊎ ((m : Settings) × (read_settings text ≡ some m)
          × (r ≡ ok tt)
          × (c'.updated ≡ true)
          × (c'.settings ≡ normalize_data m))

  pub collect_cases :
      (ts : List (String × P)) (m : Settings)
      → ((n : Settings) × (collect boost ts m ≡ ok n))
        ⊎ (collect boost ts m ≡ throws Exception.bad_data)
  unfolding collect
  collect_cases [] m = inl (m, refl)
  collect_cases ((k, t) ∷ ts) m = elim (Option-cases (boost.get_value_int t)) [
    | inl e ↦ inr (ground arith)
    | inr (v, e) ↦ rw (e, collect) (collect_cases ts (assign k v m))
  ]

  pub output_state : (p : JsonParser P) → (output boost p).1 ≡ p
  unfolding output
  output_state p = ground arith

  pub output-ne-fault : (p : JsonParser P) → (output boost p).0 ≢ fault
  unfolding output
  output-ne-fault p = ground arith

  module _ (host : Host) (c : ThreadSafeConfig P) where
    -- The file is not JSON.
    refuses_text :
        boost.read_json (host.contents c.path) ≡ none
        → Updates (host.contents c.path) c (update_config boost host c)
    unfolding update_config reload parse
    refuses_text e = inl (ground arith, ground arith, ground arith)

    -- It is JSON, and some child is no integer.
    refuses_child :
        (t : P)
        → boost.read_json (host.contents c.path) ≡ some t
        → collect boost (boost.children t) no_settings ≡ throws Exception.bad_data
        → Updates (host.contents c.path) c (update_config boost host c)
    unfolding update_config reload parse output_config
    refuses_child t e g =
        let same = output_state (record c.parser { tree = t }) in
        let sure = output-ne-fault (record c.parser { tree = t }) in
        inl (ground (arith, same, sure), ground (arith, same, sure), ground (arith, same, sure))

    -- All children are integers; the log call may throw still.
    takes_tree :
        (t : P) (m : Settings)
        → boost.read_json (host.contents c.path) ≡ some t
        → collect boost (boost.children t) no_settings ≡ ok m
        → Updates (host.contents c.path) c (update_config boost host c)
    unfolding update_config reload parse output_config
    takes_tree t m e g =
        let same = output_state (record c.parser { tree = t }) in
        elim (Bool-cases c.has_logger) [
          | inr off ↦ inr (m, ground arith, ground arith, ground arith, ground arith)
          | inl on ↦ elim (Outcome-cases (output boost (record c.parser { tree = t })).0) [
            | inl (text, f) ↦
                inr (
                  m,
                  ground arith,
                  ground (arith, same),
                  ground (arith, same),
                  ground (arith, same),
                )
            | inr (inl (x, f)) ↦
                inl (ground (arith, same), ground (arith, same), ground (arith, same))
            | inr (inr f) ↦ absurd (output-ne-fault _ f)
          ]
        ]

  -- `updateConfig` is all or nothing: either the text of the file is JSON with integers only, and
  -- the config holds its normalised settings, with `updated` set; or settings and `updated` are as
  -- they were, and the call returns if there is a logger and throws `std::exception` if not.
  pub update_config-Updates :
      (host : Host) (c : ThreadSafeConfig P)
      → Updates (host.contents c.path) c (update_config boost host c)
  update_config-Updates host c = elim (Option-cases (boost.read_json (host.contents c.path))) [
    | inl e ↦ refuses_text host c e
    | inr (t, e) ↦ elim (collect_cases (boost.children t) no_settings) [
      | inl (m, g) ↦ takes_tree host c t m e g
      | inr g ↦ refuses_child host c t e g
    ]
  ]

  -- The text for the log wants all four keys, the settings themselves do not: where a file has only
  -- integers but no RMin, `updateConfig` takes it over without a logger, and refuses it with one.
  pub update_config_wants_r_min :
      (host : Host) (c : ThreadSafeConfig P) (t : P) (m : Settings)
      → boost.read_json (host.contents c.path) ≡ some t
      → collect boost (boost.children t) no_settings ≡ ok m
      → boost.get_int r_min t ≡ missing
      → (update_config boost host c).1.settings
        ≡ (if c.has_logger then c.settings else normalize_data m)
  unfolding update_config reload parse output_config output
  update_config_wants_r_min host c t m e g h = ground arith

  -- What the file at a path holds, if the path can be made and the file be read.
  abbrev pub initial_settings : Host → Text → Option Settings
  initial_settings host path = elim (make_normal_path host path) [
    | ok normal ↦ read_settings (host.contents normal)
    | _ ↦ none
  ]

  abbrev pub StartsFrom : Option Settings → ThreadSafeConfig P → Type 0
  StartsFrom (some m) c = (c.settings ≡ m) × (c.not_to_update ≡ false)
  StartsFrom none c = (c.settings ≡ default_settings no_settings) × (c.not_to_update ≡ true)

  pub make_lem :
      (host : Host) (memory : ℕ) (path : Text) (logger : Bool)
      → make boost host memory path logger ≡ ok (construct boost host memory path logger)
  unfolding make construct parse output_config
  make_lem host memory path logger = elim (Outcome-cases (make_normal_path host path)) [
    | inr (inr f) ↦ absurd (make_normal_path-ne-fault host path f)
    | inr (inl (x, f)) ↦ ground arith
    | inl (n, f) ↦ elim (Option-cases (boost.read_json (host.contents n))) [
      | inl e ↦ ground arith
      | inr (t, e) ↦ ground (arith, collect_cases (boost.children t) no_settings)
    ]
  ]

  starts_from :
      (host : Host) (memory : ℕ) (path : Text) (logger : Bool)
      → StartsFrom (initial_settings host path) (construct boost host memory path logger)
  unfolding construct parse output_config
  starts_from host memory path logger = elim (Outcome-cases (make_normal_path host path)) [
    | inr (inr f) ↦ absurd (make_normal_path-ne-fault host path f)
    | inr (inl (x, f)) ↦ ground arith
    | inl (n, f) ↦ elim (Option-cases (boost.read_json (host.contents n))) [
      | inl e ↦ ground arith
      | inr (t, e) ↦ ground (arith, collect_cases (boost.children t) no_settings)
    ]
  ]

  pub starts_updated :
      (host : Host) (memory : ℕ) (path : Text) (logger : Bool)
      → (construct boost host memory path logger).updated ≡ false
  unfolding construct parse output_config
  starts_updated host memory path logger = elim (Outcome-cases (make_normal_path host path)) [
    | inr (inr f) ↦ absurd (make_normal_path-ne-fault host path f)
    | inr (inl (x, f)) ↦ ground arith
    | inl (n, f) ↦ elim (Option-cases (boost.read_json (host.contents n))) [
      | inl e ↦ ground arith
      | inr (t, e) ↦ ground (arith, collect_cases (boost.children t) no_settings)
    ]
  ]

  -- The constructor throws nothing and makes an object, whatever the host, the path and the file. It
  -- takes readable settings as they are, in range or not; where there are none it falls back to its
  -- four defaults and sets `notToUpdate`.
  pub construct-StartsFrom :
      (host : Host) (memory : ℕ) (path : Text) (logger : Bool)
      → (make boost host memory path logger ≡ ok (construct boost host memory path logger))
        × StartsFrom (initial_settings host path) (construct boost host memory path logger)
  construct-StartsFrom host memory path logger =
      (make_lem host memory path logger, starts_from host memory path logger)
