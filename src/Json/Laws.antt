-- ===== src/Json/Laws.antt =====
-- What `outputConfig` makes of a tree that was read.
use text.Mathlib.Text.{◌==◌ as str_eq}
use protei_cov.Prelude.{
  ◌≡◌, refl, ap, List, [], ◌∷◌, ◌++◌, Option, none, some, Option-cases, ◌⊎◌, inl, inr, All,
  if◌then◌else◌, String, ℤ, arith,
}
use protei_cov.Effects.{Exception, Outcome, ok, throws}
use protei_cov.Json.Defs.{
  PropertyTree, Settings, no_settings, assign, JsonParser, collect, output_config,
}

module _ {P : Type 0} (boost : PropertyTree P) where
  -- The integer of the last child with a key.
  unfoldable pub last_value : String → List (String × P) → Option ℤ
  last_value k [] = none
  last_value k ((j, t) ∷ rest) = elim (last_value k rest) [
    | some v ↦ some v
    | none ↦ if str_eq j k then boost.get_value_int t else none
  ]

  -- Every child is an integer.
  abbrev pub AllIntegers : List (String × P) → Type 0
  AllIntegers = All (λ c. (v : ℤ) × (boost.get_value_int c.1 ≡ some v))

  -- A child is none, behind children that are.
  abbrev pub HasOther : List (String × P) → Type 0
  HasOther cs =
      (before behind : List (String × P)) × (c : String × P) × (cs ≡ before ++ (c ∷ behind))
      × AllIntegers before
      × (boost.get_value_int c.1 ≡ none)

  or_else : Option ℤ → Option ℤ → Option ℤ
  or_else (some v) o = some v
  or_else none o = o

  abbrev Collects : List (String × P) → Settings → Type 0
  Collects cs res =
      (AllIntegers cs
        × (m : Settings) × (collect boost cs res ≡ ok m)
        × ((k : String) → m k ≡ or_else (last_value k cs) (res k)))
      ⊎ (HasOther cs × (collect boost cs res ≡ throws Exception.bad_data))

  with_child :
      (c : String × P) (v : ℤ) (cs : List (String × P)) (res : Settings)
      → boost.get_value_int c.1 ≡ some v
      → Collects cs (assign c.0 v res)
      → Collects (c ∷ cs) res
  unfolding collect last_value or_else
  with_child (j, t) v cs res e (inl (all, m, g, at)) =
      inl (((v, e), all), m, rw (e, collect) g, λ k. ground (arith, at k))
  with_child (j, t) v cs res e (inr ((before, behind, c, split, all, other), g)) = inr (
    (((j, t) ∷ before), behind, c, ap (λ l. (j, t) ∷ l) split, ((v, e), all), other),
    rw (e, collect) g,
  )

  collects : (cs : List (String × P)) (res : Settings) → Collects cs res
  unfolding collect last_value or_else
  collects [] res = inl (tt, res, refl, λ k. refl)
  collects ((j, t) ∷ cs) res = elim (Option-cases (boost.get_value_int t)) [
    | inl e ↦ inr (([], cs, (j, t), refl, tt, e), rw (e, collect) refl)
    | inr (v, e) ↦ with_child (j, t) v cs res e (collects cs (assign j v res))
  ]

  -- The result of `outputConfig` for a parser.
  abbrev pub Outputs : JsonParser P → Outcome Settings × JsonParser P → Type 0
  Outputs p o =
      (AllIntegers (boost.children p.tree)
        × (m : Settings) × (o ≡ (ok m, p))
        × ((k : String) → m k ≡ last_value k (boost.children p.tree)))
      ⊎ (HasOther (boost.children p.tree) × (o ≡ (throws Exception.sliced, p)))

  -- Where every child of the tree is an integer, `outputConfig` returns a map that has for each key the
  -- value of the last child with that key, and no other keys. Else it throws, where a child is none
  -- behind children that are. The parser stays as it is.
  pub output_config_lem : (p : JsonParser P) → Outputs p (output_config boost p)
  unfolding output_config or_else
  output_config_lem p = elim (collects (boost.children p.tree) no_settings) [
    | inl (all, m, e, at) ↦ inl (all, m, rw e refl, λ k. ground (arith, at k))
    | inr (other, e) ↦ inr (other, rw e refl)
  ]
