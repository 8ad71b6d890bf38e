-- ===== src/Config/Normalize.antt =====
-- What `normalizeData` makes of any settings.
use text.Mathlib.Text.{◌==◌ as str_eq}
use text.Mathlib.TextEquality.{eq_iff}
use protei_cov.Prelude.{◌≡◌, some, leb_ℤ, if◌then◌else◌, String, ℤ, pos, arith}
use protei_cov.Json.{Settings}
use protei_cov.Config.Settings.{
  value, touch, cap_at, raise_to, sort_pair, normalize_r_min_r_max, normalize_amount_of_operators,
  normalize_size_of_queue, normalize_data, r_min, r_max, amount_of_operators, size_of_queue,
}

unfoldable pub min_ℤ : ℤ → ℤ → ℤ
min_ℤ a b = if leb_ℤ a b then a else b

unfoldable pub max_ℤ : ℤ → ℤ → ℤ
max_ℤ a b = if leb_ℤ a b then b else a

unfoldable pub clamp : ℤ → ℤ → ℤ → ℤ
clamp lo hi v = max_ℤ lo (min_ℤ hi v)

module _ (k : String) (m : Settings) (i : String) where
  touch_lem : touch k m i ≡ (if str_eq k i then some (value k m) else m i)
  unfolding touch value
  touch_lem = ground (arith, eq_iff k i)

  value-touch : value i (touch k m) ≡ value i m
  unfolding touch value
  value-touch = ground (arith, eq_iff k i)

  module _ (bound : ℤ) where
    cap_at_lem : cap_at k bound m i ≡ (if str_eq k i then some (min_ℤ bound (value k m)) else m i)
    unfolding cap_at min_ℤ
    cap_at_lem = ground (arith, eq_iff k i, eq_iff k k)

    raise_to_lem :
        raise_to k bound m i ≡ (if str_eq k i then some (max_ℤ bound (value k m)) else m i)
    unfolding raise_to max_ℤ
    raise_to_lem = ground (arith, eq_iff k i, eq_iff k k)

    value-cap_at :
        value i (cap_at k bound m) ≡ (if str_eq k i then min_ℤ bound (value k m) else value i m)
    unfolding value
    value-cap_at = ground (arith, cap_at_lem)

    value-raise_to :
        value i (raise_to k bound m) ≡ (if str_eq k i then max_ℤ bound (value k m) else value i m)
    unfolding value
    value-raise_to = ground (arith, raise_to_lem)

sort_pair_lem :
    (j k : String) (m : Settings) (i : String)
    → sort_pair j k m i ≡ (
        if str_eq k i
        then some (max_ℤ (value j m) (value k m))
        else if str_eq j i
        then some (min_ℤ (value j m) (value k m))
        else m i)
unfolding sort_pair min_ℤ max_ℤ
sort_pair_lem j k m i = ground (
  arith,
  eq_iff k i,
  eq_iff j i,
  touch_lem j m i,
  touch_lem k (touch j m) i,
  value-touch k (touch j m) j,
  value-touch k (touch j m) k,
  value-touch j m j,
  value-touch j m k,
)

value-sort_pair :
    (j k : String) (m : Settings) (i : String)
    → value i (sort_pair j k m) ≡ (
        if str_eq k i
        then max_ℤ (value j m) (value k m)
        else if str_eq j i
        then min_ℤ (value j m) (value k m)
        else value i m)
unfolding value
value-sort_pair j k m i = ground (arith, sort_pair_lem j k m i)

ruleset steps =
    (cap_at_lem, raise_to_lem, sort_pair_lem, value-cap_at, value-raise_to, value-sort_pair)

-- The settings that `normalizeData` makes, key by key.
abbrev pub normal_form : Settings → Settings
normal_form m i =
    let low = clamp (pos 4) (pos 100) (value r_min m) in
    let high = clamp (pos 5) (pos 140) (value r_max m) in
    if str_eq size_of_queue i
    then some (clamp (pos 15) (pos 350) (value size_of_queue m))
    else if str_eq amount_of_operators i
    then some (clamp (pos 2) (pos 80) (value amount_of_operators m))
    else if str_eq r_max i
    then some (max_ℤ low high)
    else if str_eq r_min i
    then some (min_ℤ low high)
    else m i

-- `normalizeData` clamps the four settings to their ranges and puts the two bounds of a call's
-- length in order; every other key keeps its value.
pub normalize_data_lem : (m : Settings) (i : String) → normalize_data m i ≡ normal_form m i
unfolding normalize_data normalize_r_min_r_max normalize_amount_of_operators normalize_size_of_queue
normalize_data_lem m i = simp steps (unfold clamp in ground arith)
