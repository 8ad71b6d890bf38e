-- ===== src/Config/Laws/Reread.antt =====
-- What `updateConfig` takes over of a file, for every text that the file may hold.
use protei_cov.Prelude.{
  ◌≡◌, sym, subst, Bool, true, false, not, ◌&&◌, ◌||◌, inl, inr, Option, none, some, if◌then◌else◌,
  Text, arith, Bool-cases, Option-cases, String,
}
use protei_cov.Effects.{ok, throws, Exception, Outcome-cases}
use protei_cov.Json.{
  PropertyTree, found, missing, malformed, Settings, no_settings, Host, JsonParser, parse, output,
  collect, output_config,
}
use protei_cov.Config.Settings.{normalize_data, r_min, r_max, amount_of_operators, size_of_queue}
use protei_cov.Config.ThreadSafe.{ThreadSafeConfig, update_config, reload}
use protei_cov.Config.Laws.Update.{read_settings, collect_cases, output_state, output-ne-fault}

module _ {P : Type 0} (boost : PropertyTree P) where
  abbrev has_int : String → P → Bool
  has_int k t = elim (boost.get_int k t) [ found v ↦ true | missing ↦ false | malformed ↦ false ]

  -- The tree has all four settings as integers, which the text for the log is made of.
  abbrev has_all : P → Bool
  has_all t =
      has_int r_min t
      && (has_int r_max t && (has_int amount_of_operators t && has_int size_of_queue t))

  -- The settings that a config takes over from a text, normalised: those that it holds, if it is JSON
  -- with integers only, and, for a config with a logger, has all four settings.
  abbrev pub taken_over : Bool → Text → Option Settings
  taken_over logger text = elim (boost.read_json text) [
    | none ↦ none
    | some t ↦ if not logger || has_all t then read_settings boost text else none
  ]

  -- The settings and the flag `updated` of `c` have become these: they have been taken over, and the
  -- flag is set; or both are as they were.
  abbrev pub Rereads : Option Settings → ThreadSafeConfig P → Settings → Bool → Type 0
  Rereads none c settings updated = (settings ≡ c.settings) × (updated ≡ c.updated)
  Rereads (some m) c settings updated = (settings ≡ normalize_data m) × (updated ≡ true)

  output-has_all :
      (p : JsonParser P) (text : Text) → (output boost p).0 ≡ ok text → has_all p.tree ≡ true
  unfolding output
  output-has_all p text e = ground arith

  throws-has_all :
      (p : JsonParser P) (x : Exception) → (output boost p).0 ≡ throws x → has_all p.tree ≡ false
  unfolding output
  throws-has_all p x e = ground arith

  module _ (host : Host) (c : ThreadSafeConfig P) where
    abbrev pub Takes : Type 0
    Takes =
        Rereads (taken_over c.has_logger (host.contents c.path)) c
          (update_config boost host c).1.settings (update_config boost host c).1.updated

    abbrev pub after : ThreadSafeConfig P
    after = (update_config boost host c).1

    nothing :
        taken_over c.has_logger (host.contents c.path) ≡ none
        → after.settings ≡ c.settings
        → after.updated ≡ c.updated
        → Takes
    nothing e a b = subst (λ o. Rereads o c after.settings after.updated) (sym e) (a, b)

    all_of :
        (m : Settings)
        → taken_over c.has_logger (host.contents c.path) ≡ some m
        → after.settings ≡ normalize_data m
        → after.updated ≡ true
        → Takes
    all_of m e a b = subst (λ o. Rereads o c after.settings after.updated) (sym e) (a, b)

    from_text : boost.read_json (host.contents c.path) ≡ none → Takes
    unfolding update_config reload parse
    from_text e = nothing (ground arith) (ground arith) (ground arith)

    module _ (t : P) (e : boost.read_json (host.contents c.path) ≡ some t) where
      abbrev p : JsonParser P
      p = record (c.parser) { tree = t }

      from_child : collect boost (boost.children t) no_settings ≡ throws Exception.bad_data → Takes
      unfolding update_config reload parse output_config
      from_child g =
          let same = output_state boost p in
          let sure = output-ne-fault boost p in
          nothing (ground arith) (ground (arith, same, sure)) (ground (arith, same, sure))

      from_integers : (m : Settings) → collect boost (boost.children t) no_settings ≡ ok m → Takes
      unfolding update_config reload parse output_config
      from_integers m g =
          let same = output_state boost p in
          elim (Bool-cases c.has_logger) [
            | inr off ↦ all_of m (ground arith) (ground arith) (ground arith)
            | inl on ↦ elim (Outcome-cases (output boost p).0) [
              | inl (text, f) ↦
                  let full = output-has_all p text f in
                  all_of m (ground arith) (ground (arith, same)) (ground (arith, same))
              | inr (inl (x, f)) ↦
                  let lacks = throws-has_all p x f in
                  nothing (ground arith) (ground (arith, same)) (ground (arith, same))
              | inr (inr f) ↦ absurd (output-ne-fault boost p f)
            ]
          ]

    -- `updateConfig` takes over what a config with its logger takes over from the file's text, and else
    -- leaves settings and flag.
    pub update_config-Rereads : Takes
    update_config-Rereads = elim (Option-cases (boost.read_json (host.contents c.path))) [
      | inl e ↦ from_text e
      | inr (t, e) ↦ elim (collect_cases boost (boost.children t) no_settings) [
        | inl (m, g) ↦ from_integers t e m g
        | inr g ↦ from_child t e g
      ]
    ]
