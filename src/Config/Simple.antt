-- ===== src/Config/Simple.antt =====
-- The class Config, which has no mutex, no thread and no flag of updates.
use protei_cov.Prelude.{Bool, true, false, not, [], Text, ℤ}
use protei_cov.Effects.{
  Outcome, ok, throws, fault, Exec, pure, gets, modify, when, try_catch, deref, ◌>>=◌, ◌>>◌,
}
use protei_cov.Json.{
  PropertyTree, Settings, no_settings, Host, JsonParser, new_parser, parse, output_config,
}
use protei_cov.Config.Settings.{
  value, touch, default_settings, r_min, r_max, amount_of_operators, size_of_queue,
}
use protei_cov.Config.Settings
use protei_cov.Config.Common
use protei_cov.Config.Common.{lift, IManager}

pub record Config (P : Type 0) : Type 0 where
  pub parser : JsonParser P
  pub path : Text
  pub settings : Settings
  pub has_manager : Bool
  pub has_logger : Bool
  pub not_to_update : Bool

abbrev pub on_parser : {P A : Type 0} → Exec (JsonParser P) A → Exec (Config P) A
on_parser f c = let (r, p) = f c.parser in (r, record c { parser = p })

abbrev pub set_settings : {P : Type 0} → Settings → Config P → Config P
set_settings m c = record c { settings = m }

-- The path is made as that of ThreadSafeConfig, word for word.
abbrev make_normal_path : Host → Text → Outcome Text
make_normal_path = Common.make_normal_path

module _ {P : Type 0} where
  unfoldable set_manager : Config P → Config P
  set_manager c = record c { has_manager = true }

  unfoldable set_logger : Bool → Config P → Config P
  set_logger logger c = record c { has_logger = logger }

  -- The three normalisations are those of ThreadSafeConfig, word for word.
  abbrev normalize_r_min_r_max : Config P → Config P
  normalize_r_min_r_max c = set_settings (Settings.normalize_r_min_r_max c.settings) c

  abbrev normalize_amount_of_operators : Config P → Config P
  normalize_amount_of_operators c =
      set_settings (Settings.normalize_amount_of_operators c.settings) c

  abbrev normalize_size_of_queue : Config P → Config P
  normalize_size_of_queue c = set_settings (Settings.normalize_size_of_queue c.settings) c

  abbrev normalize_data : Config P → Config P
  normalize_data c =
      normalize_size_of_queue (normalize_amount_of_operators (normalize_r_min_r_max c))

module _ {P : Type 0} (boost : PropertyTree P) where
  load : Host → Text → Exec (Config P) (Unit {0})
  load host path = do
    normal ← lift (make_normal_path host path)
    modify (λ c. record c { path = normal })
    on_parser (parse boost host normal)
    m ← on_parser (output_config boost)
    modify (λ c. record c { settings = m; not_to_update = false })

  fall_back : Config P → Config P
  fall_back c = record c { settings = default_settings c.settings; not_to_update = true }

  raw : Bool → Config P
  raw logger = record {
    parser = new_parser boost logger;
    path = [];
    settings = no_settings;
    has_manager = false;
    has_logger = logger;
    not_to_update = false;
  }

  -- The constructor's body.
  initialize : Host → Text → Exec (Config P) (Unit {0})
  unfolding load fall_back
  initialize host path = try_catch (load host path) (λ e. modify fall_back)

  -- The members behind the constructor's body, and the object, which there is where it returns.
  unfoldable pub construct : Host → Text → Bool → Config P
  unfolding initialize raw
  construct host path logger = (initialize host path (raw logger)).1

  unfoldable pub make : Host → Text → Bool → Outcome (Config P)
  unfolding initialize raw
  make host path logger =
      let (r, c) = initialize host path (raw logger) in
      elim r [ ok u ↦ ok c | throws e ↦ throws e | fault ↦ fault ]

  unfoldable pub get_min_max : Exec (Config P) (ℤ × ℤ)
  get_min_max c = (
    ok (value r_min c.settings, value r_max c.settings),
    set_settings (touch r_max (touch r_min c.settings)) c,
  )

  unfoldable pub get_amount_of_operators : Exec (Config P) ℤ
  get_amount_of_operators c = (
    ok (value amount_of_operators c.settings),
    set_settings (touch amount_of_operators c.settings) c,
  )

  unfoldable pub get_size_of_queue : Exec (Config P) ℤ
  get_size_of_queue c =
      (ok (value size_of_queue c.settings), set_settings (touch size_of_queue c.settings) c)

  unfoldable get_path : Exec (Config P) Text
  get_path = gets (λ c. c.path)

  unfoldable pub is_updated : Exec (Config P) Bool
  is_updated = pure false

  unfoldable pub update_config : Host → Exec (Config P) (Unit {0})
  update_config host = do
    path ← gets (λ c. c.path)
    on_parser (parse boost host path)
    m ← on_parser (output_config boost)
    modify (set_settings m)
    modify normalize_data

abbrev pub on_config : {P M A : Type 0} → Exec (Config P) A → Exec (Config P × M) A
on_config f s = let (r, c) = f s.0 in (r, (c, s.1))

module _ {P M : Type 0} (boost : PropertyTree P) (manager : IManager (Config P × M)) where
  -- Without a manager the call goes through a null pointer.
  unfoldable pub notify : Exec (Config P × M) (Unit {0})
  notify = do set ← gets (λ s. s.0.has_manager); deref set; manager.update

  unfoldable pub update_with_request : Host → Exec (Config P × M) (Unit {0})
  unfolding notify
  update_with_request host = do
    frozen ← gets (λ s. s.0.not_to_update)
    when (not frozen) (on_config (update_config boost host) >> notify)
