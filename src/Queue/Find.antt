-- ===== src/Queue/Find.antt =====
-- `find_if` over items whose numbers differ finds the one item with a number, or none.
use protei_cov.Prelude.{
  ◌≡◌, refl, ap, inl, inr, Bool, true, false, List, [], ◌∷◌, ◌++◌, Option, none, some,
  if◌then◌else◌, All, All-map, AllPairs, Bool-cases,
}
use protei_cov.Queue.Defs.{Item, Found, put_before, find_if}

-- The items that do not pass a test.
unfoldable pub others : (Item → Bool) → List Item → List Item
others p [] = []
others p (x ∷ xs) = let rest = others p xs in if p x then rest else x ∷ rest

module _ (p : Item → Bool) where
  others_of_none : (xs : List Item) → All (λ x. p x ≡ false) xs → others p xs ≡ xs
  unfolding others
  others_of_none [] h = refl
  others_of_none (x ∷ xs) h = rw h.0 (ap (◌∷◌ x) (others_of_none xs h.1))

  -- What `find_if` tells of a list.
  abbrev pub Splits : List Item → Option Found → Type 0
  Splits xs none = All (λ x. p x ≡ false) xs × (others p xs ≡ xs)
  Splits xs (some f) =
      (xs ≡ f.before ++ (f.it ∷ f.behind)) × (p f.it ≡ true) × (others p xs ≡ f.before ++ f.behind)

  Splits-cons :
      (x : Item) (xs : List Item) (r : Option Found)
      → p x ≡ false
      → Splits xs r
      → Splits (x ∷ xs) (put_before x r)
  unfolding others
  Splits-cons x xs none h s = ((h, s.0), rw (h, s.1))
  Splits-cons x xs (some f) h s = (ap (◌∷◌ x) s.0, s.1, rw (h, s.2))

  -- Two items that pass the test are never both in the list.
  pub find_if-Splits :
      (xs : List Item) → AllPairs (λ x y. p x ≡ true → p y ≡ false) xs → Splits xs (find_if p xs)
  unfolding find_if others
  find_if-Splits [] h = (tt, refl)
  find_if-Splits (x ∷ xs) h = elim (Bool-cases (p x)) [
    | inl hit ↦ rw hit (refl, hit, rw hit (others_of_none xs (All-map xs (λ y f. f hit) h.0)))
    | inr miss ↦ rw miss (Splits-cons x xs (find_if p xs) miss (find_if-Splits xs h.1))
  ]
