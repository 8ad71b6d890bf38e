-- ===== src/Tests/ConfigFiles.antt =====
-- A reader of small config files.
use text.Mathlib.Text.{◌==◌ as str_eq}
use protei_cov.Prelude.{
  List, [], ◌∷◌, map, Option, none, some, if◌then◌else◌, String, Text, codes, ℤ, pos,
}
use protei_cov.Json.{PropertyTree, IntRead, found, missing, malformed, Host}
use protei_cov.Config.Settings.{r_min, r_max, amount_of_operators, size_of_queue}

-- A tree of one level: keys with their integers, where they are integers.
abbrev pub Flat : Type 0
Flat = List (String × Option ℤ)

abbrev pub get_flat : String → Flat → IntRead
get_flat k [] = missing
get_flat k ((j, v) ∷ t) =
    if str_eq k j then elim v [ none ↦ malformed | some n ↦ found n ] else get_flat k t

abbrev pub head_int : Flat → Option ℤ
head_int [] = none
head_int ((k, v) ∷ t) = v

abbrev pub leaf : String × Option ℤ → String × Flat
leaf (k, v) = (k, (k, v) ∷ [])

abbrev pub upper_border : Flat
upper_border =
    (r_min, some (pos 100_000))
    ∷ (r_max, some (pos 140_000))
    ∷ (amount_of_operators, some (pos 10_000))
    ∷ (size_of_queue, some (pos 350_000))
    ∷ []

abbrev pub broken : Flat
broken = (r_min, some (pos 33)) ∷ (amount_of_operators, none) ∷ []

abbrev pub no_r_min : Flat
no_r_min =
    (r_max, some (pos 20))
    ∷ (amount_of_operators, some (pos 5))
    ∷ (size_of_queue, some (pos 20))
    ∷ []

abbrev pub good : Flat
good =
    (r_min, some (pos 5))
    ∷ (r_max, some (pos 10))
    ∷ (amount_of_operators, some (pos 3))
    ∷ (size_of_queue, some (pos 20))
    ∷ []

-- A reader that knows four texts, by their length.
abbrev pub flat_json : Text → Option Flat
flat_json (a ∷ []) = some upper_border
flat_json (a ∷ b ∷ []) = some broken
flat_json (a ∷ b ∷ c ∷ []) = some no_r_min
flat_json (a ∷ b ∷ c ∷ d ∷ []) = some good
flat_json _ = none

abbrev pub boost : PropertyTree Flat
boost = record {
  empty = [];
  read_json = flat_json;
  children = map leaf;
  get_value_int = head_int;
  get_int = get_flat;
}

-- A file system where every file holds one text.
abbrev pub holding : Text → Host
holding text = record { contents = λ p. text; current_path = some (codes "/srv") }

abbrev pub upper_host : Host
upper_host = holding (codes "A")

abbrev pub broken_host : Host
broken_host = holding (codes "BB")

abbrev pub no_r_min_host : Host
no_r_min_host = holding (codes "CCC")

abbrev pub good_host : Host
good_host = holding (codes "DDDD")

abbrev pub base : Text
base = codes "base.json"
