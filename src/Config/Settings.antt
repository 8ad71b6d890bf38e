-- ===== src/Config/Settings.antt =====
-- The data map of both config classes and its normalisation, which both write in the same words.
use protei_cov.Prelude.{none, some, ltb_ℤ, leb_ℤ, if◌then◌else◌, String, ℤ, pos}
use protei_cov.Json.{Settings, assign}

abbrev pub r_min : String
r_min = "RMin"

abbrev pub r_max : String
r_max = "RMax"

abbrev pub amount_of_operators : String
amount_of_operators = "AmountOfOperators"

abbrev pub size_of_queue : String
size_of_queue = "SizeOfQueue"

-- `data_[k]` as a value: 0 for a missing key.
unfoldable pub value : String → Settings → ℤ
value k m = elim (m k) [ none ↦ pos 0 | some v ↦ v ]

-- `data_[k]` as an effect: a missing key is put into the map with the value 0.
unfoldable pub touch : String → Settings → Settings
touch k m = elim (m k) [ none ↦ assign k (pos 0) m | some v ↦ m ]

-- `if(data_[k] >= bound) data_[k] = bound;`
unfoldable pub cap_at : String → ℤ → Settings → Settings
unfolding touch value
cap_at k bound m = let m' = touch k m in if leb_ℤ bound (value k m') then assign k bound m' else m'

-- `if(data_[k] <= bound) data_[k] = bound;`
unfoldable pub raise_to : String → ℤ → Settings → Settings
unfolding touch value
raise_to k bound m =
    let m' = touch k m in if leb_ℤ (value k m') bound then assign k bound m' else m'

-- `if(data_[j] > data_[k]) std::swap(data_[j], data_[k]);`
unfoldable pub sort_pair : String → String → Settings → Settings
unfolding touch value
sort_pair j k m =
    let m' = touch k (touch j m) in
    if ltb_ℤ (value k m') (value j m') then assign k (value j m') (assign j (value k m') m') else m'

unfoldable pub normalize_r_min_r_max : Settings → Settings
normalize_r_min_r_max m = sort_pair r_min r_max (
    raise_to r_max (pos 5)
      (raise_to r_min (pos 4) (cap_at r_max (pos 140) (cap_at r_min (pos 100) m))))

unfoldable pub normalize_amount_of_operators : Settings → Settings
normalize_amount_of_operators m =
    raise_to amount_of_operators (pos 2) (cap_at amount_of_operators (pos 80) m)

unfoldable pub normalize_size_of_queue : Settings → Settings
normalize_size_of_queue m = raise_to size_of_queue (pos 15) (cap_at size_of_queue (pos 350) m)

unfoldable pub normalize_data : Settings → Settings
normalize_data m = normalize_size_of_queue (normalize_amount_of_operators (normalize_r_min_r_max m))

-- The values that the constructors fall back to.
unfoldable pub default_settings : Settings → Settings
default_settings m =
    assign size_of_queue (pos 15)
      (assign amount_of_operators (pos 2) (assign r_max (pos 15) (assign r_min (pos 10) m)))
