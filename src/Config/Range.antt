-- ===== src/Config/Range.antt =====
-- The ranges that normalised settings keep to, and that normalising twice is normalising once.
use mathlib.Core.Path.{fun_ext}
use text.Mathlib.TextEquality.{eq_iff}
use protei_cov.Prelude.{◌≡◌, some, ◌≤ℤ◌, String, ℤ, pos, arith}
use protei_cov.Json.{Settings}
use protei_cov.Config.Settings.{
  value, normalize_data, r_min, r_max, amount_of_operators, size_of_queue,
}
use protei_cov.Config.Normalize.{min_ℤ, max_ℤ, clamp, normalize_data_lem}

-- The four settings are there, and in the ranges of the program.
pub record IsNormal (m : Settings) : Type 0 where
  pub has_r_min : m r_min ≡ some (value r_min m)
  pub has_r_max : m r_max ≡ some (value r_max m)
  pub has_operators : m amount_of_operators ≡ some (value amount_of_operators m)
  pub has_queue : m size_of_queue ≡ some (value size_of_queue m)
  pub r_min_from : pos 4 ≤ℤ value r_min m
  pub r_min_to : value r_min m ≤ℤ pos 100
  pub r_max_from : pos 5 ≤ℤ value r_max m
  pub r_max_to : value r_max m ≤ℤ pos 140
  pub ordered : value r_min m ≤ℤ value r_max m
  pub operators_from : pos 2 ≤ℤ value amount_of_operators m
  pub operators_to : value amount_of_operators m ≤ℤ pos 80
  pub queue_from : pos 15 ≤ℤ value size_of_queue m
  pub queue_to : value size_of_queue m ≤ℤ pos 350

min_max_bounds :
    (a b : ℤ)
    → (pos 4 ≤ℤ a)
    → (a ≤ℤ pos 100)
    → (pos 5 ≤ℤ b)
    → (b ≤ℤ pos 140)
    → (pos 4 ≤ℤ min_ℤ a b)
      × (min_ℤ a b ≤ℤ pos 100)
      × (pos 5 ≤ℤ max_ℤ a b)
      × (max_ℤ a b ≤ℤ pos 140)
      × (min_ℤ a b ≤ℤ max_ℤ a b)
unfolding min_ℤ max_ℤ
min_max_bounds a b p q r s = ground arith

clamp_bounds : (lo hi v : ℤ) → lo ≤ℤ hi → (lo ≤ℤ clamp lo hi v) × (clamp lo hi v ≤ℤ hi)
unfolding clamp min_ℤ max_ℤ
clamp_bounds lo hi v h = ground arith

clamp_self : (lo hi v : ℤ) → lo ≤ℤ v → v ≤ℤ hi → clamp lo hi v ≡ v
unfolding clamp min_ℤ max_ℤ
clamp_self lo hi v p q = ground arith

min_max_self : (a b : ℤ) → a ≤ℤ b → (min_ℤ a b ≡ a) × (max_ℤ a b ≡ b)
unfolding min_ℤ max_ℤ
min_max_self a b h = ground arith

value_of : (k : String) (m : Settings) {v : ℤ} → m k ≡ some v → value k m ≡ v
unfolding value
value_of k m h = ground arith

present : (k : String) (m : Settings) {v : ℤ} → m k ≡ some v → m k ≡ some (value k m)
unfolding value
present k m h = ground arith

module _ (m : Settings) where
  abbrev low : ℤ
  low = clamp (pos 4) (pos 100) (value r_min m)

  abbrev high : ℤ
  high = clamp (pos 5) (pos 140) (value r_max m)

  normal_values :
      (value r_min (normalize_data m) ≡ min_ℤ low high)
      × (value r_max (normalize_data m) ≡ max_ℤ low high)
      × (value amount_of_operators (normalize_data m)
          ≡ clamp (pos 2) (pos 80) (value amount_of_operators m))
      × (value size_of_queue (normalize_data m) ≡ clamp (pos 15) (pos 350) (value size_of_queue m))
  normal_values = (
    value_of r_min _ (normalize_data_lem m r_min),
    value_of r_max _ (normalize_data_lem m r_max),
    value_of amount_of_operators _ (normalize_data_lem m amount_of_operators),
    value_of size_of_queue _ (normalize_data_lem m size_of_queue),
  )

  normal_present :
      (normalize_data m r_min ≡ some (value r_min (normalize_data m)))
      × (normalize_data m r_max ≡ some (value r_max (normalize_data m)))
      × (normalize_data m amount_of_operators ≡ some (value amount_of_operators (normalize_data m)))
      × (normalize_data m size_of_queue ≡ some (value size_of_queue (normalize_data m)))
  normal_present = (
    present r_min _ (normalize_data_lem m r_min),
    present r_max _ (normalize_data_lem m r_max),
    present amount_of_operators _ (normalize_data_lem m amount_of_operators),
    present size_of_queue _ (normalize_data_lem m size_of_queue),
  )

  -- Whatever the settings were, after `normalizeData` the four keys are present, the bounds of a
  -- call's length are ordered with 4 <= RMin <= 100 and 5 <= RMax <= 140, there are 2 to 80
  -- operators, and the queue's size is 15 to 350.
  pub normalize_data-IsNormal : IsNormal (normalize_data m)
  normalize_data-IsNormal = ground (
    arith,
    normal_values,
    normal_present,
    clamp_bounds (pos 4) (pos 100) (value r_min m),
    clamp_bounds (pos 5) (pos 140) (value r_max m),
    clamp_bounds (pos 2) (pos 80) (value amount_of_operators m),
    clamp_bounds (pos 15) (pos 350) (value size_of_queue m),
    min_max_bounds low high,
  )

-- Settings that are in range already are left as they are.
pub normalize_data_of_IsNormal : (m : Settings) → IsNormal m → normalize_data m ≡ m
normalize_data_of_IsNormal m h = fun_ext λ i. rw (normalize_data_lem m i) (
    rw
      (
        clamp_self (pos 4) (pos 100) (value r_min m) h.r_min_from h.r_min_to,
        clamp_self (pos 5) (pos 140) (value r_max m) h.r_max_from h.r_max_to,
        clamp_self (pos 2) (pos 80) (value amount_of_operators m) h.operators_from h.operators_to,
        clamp_self (pos 15) (pos 350) (value size_of_queue m) h.queue_from h.queue_to,
        (min_max_self (value r_min m) (value r_max m) h.ordered).0,
        (min_max_self (value r_min m) (value r_max m) h.ordered).1,
      )
      (ground (
        arith,
        h,
        eq_iff size_of_queue i,
        eq_iff amount_of_operators i,
        eq_iff r_max i,
        eq_iff r_min i,
      )))

-- Normalising a second time changes nothing, for any settings.
pub normalize_data_idem : (m : Settings) → normalize_data (normalize_data m) ≡ normalize_data m
normalize_data_idem m = normalize_data_of_IsNormal (normalize_data m) (normalize_data-IsNormal m)
