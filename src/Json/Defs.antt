-- ===== src/Json/Defs.antt =====
-- The class JsonParser.
use text.Mathlib.Text.{◌==◌ as str_eq}
use protei_cov.Prelude.{
  Bool, Option, none, some, List, [], ◌∷◌, ◌++◌, if◌then◌else◌, String, Text, codes, ℤ,
}
use protei_cov.Effects.{Exception, Outcome, ok, throws, Exec, pure, raise, try_catch, ◌>>=◌}
use protei_cov.Stdlib.Decimal.{show_int}

-- `tree.get<int>(key)`: the value, or which of its two exceptions it throws.
pub data IntRead : Type 0 where
  found : ℤ → IntRead
  missing malformed : IntRead

-- `boost::property_tree`, as far as it is called.
pub record PropertyTree (P : Type 0) : Type 0 where
  pub empty : P
  pub read_json : Text → Option P
  pub children : P → List (String × P)
  pub get_value_int : P → Option ℤ
  pub get_int : String → P → IntRead

-- `std::map<std::string, int>`: the value of a key, where the key is present.
abbrev pub Settings : Type 0
Settings = String → Option ℤ

abbrev pub no_settings : Settings
no_settings k = none

-- `m[k] = v`
abbrev pub assign : String → ℤ → Settings → Settings
assign k v m j = if str_eq k j then some v else m j

-- The file system: what reading a file gives (nothing, where it cannot be opened), and the working
-- directory, where it can be found.
pub record Host : Type 0 where
  pub contents : Text → Text
  pub current_path : Option Text

pub record JsonParser (P : Type 0) : Type 0 where
  pub tree : P
  pub has_logger : Bool

abbrev pub set_logger : {P : Type 0} → Bool → JsonParser P → JsonParser P
set_logger logger p = record p { has_logger = logger }

module _ {P : Type 0} (boost : PropertyTree P) where
  -- The constructor.
  abbrev pub new_parser : Bool → JsonParser P
  new_parser logger = record { tree = boost.empty; has_logger = logger }

  -- `throw e;` in the handler throws a copy of the base class.
  unfoldable pub parse : Host → Text → Exec (JsonParser P) (Unit {0})
  parse host path =
      try_catch
        (λ s. elim (boost.read_json (host.contents path)) [
          | none ↦ (throws Exception.json_parser_error, s)
          | some t ↦ (ok tt, record s { tree = t })
        ])
        (λ e. raise Exception.sliced)

  get_line : String → String → Exec (JsonParser P) Text
  get_line label key s = elim (boost.get_int key s.tree) [
    | found v ↦ (ok (codes label ++ (show_int v ++ codes "\n")), s)
    | missing ↦ (throws Exception.bad_path, s)
    | malformed ↦ (throws Exception.bad_data, s)
  ]

  unfoldable pub output : Exec (JsonParser P) Text
  unfolding get_line
  output = do
    r_min ← get_line "RMin: " "RMin"
    r_max ← get_line "RMax: " "RMax"
    operators ← get_line "AmountOfOperators: " "AmountOfOperators"
    size ← get_line "SizeOfQueue: " "SizeOfQueue"
    pure (r_min ++ (r_max ++ (operators ++ size)))

  -- The loop of `outputConfig` over the children, with the map built so far.
  unfoldable pub collect : List (String × P) → Settings → Outcome Settings
  collect [] res = ok res
  collect ((k, t) ∷ rest) res = elim (boost.get_value_int t) [
    | none ↦ throws Exception.bad_data
    | some v ↦ collect rest (assign k v res)
  ]

  unfoldable pub output_config : Exec (JsonParser P) Settings
  unfolding collect
  output_config =
      try_catch (λ s. (collect (boost.children s.tree) no_settings, s))
        (λ e. raise Exception.sliced)
