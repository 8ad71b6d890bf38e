-- ===== src/Prelude/Lists.antt =====
-- Lists measured by native numbers, and predicates on all their entries.
use Prim.Native.Nat.{ℕ, suc, ◌+◌}
use mathlib.Core.Path.{◌≡◌}
use mathlib.Core.List.{List, [], ◌∷◌, ◌++◌}
use mathlib.Core.Logic.{◌⊎◌, inl, inr}
use native.Mathlib.Omega.{arith}

module _ {ℓ} {A : Type ℓ} where
  abbrev pub length : List A → ℕ
  length [] = 0
  length (x ∷ xs) = suc (length xs)

  pub length-append : (xs ys : List A) → length (xs ++ ys) ≡ length xs + length ys
  length-append [] ys = omega arith
  length-append (x ∷ xs) ys = omega (arith, length-append xs ys)

-- A predicate by recursion computes to tuples, which the tactics read and build.
abbrev pub All {ℓ κ} : {A : Type ℓ} → (A → Type κ) → List A → Type κ
All P [] = Unit
All P (x ∷ xs) = P x × All P xs

pub All-append {ℓ κ} :
    {A : Type ℓ} (P : A → Type κ) (xs ys : List A) → All P xs → All P ys → All P (xs ++ ys)
All-append P [] ys hx hy = hy
All-append P (x ∷ xs) ys hx hy = (hx.0, All-append P xs ys hx.1 hy)

pub All-map {ℓ κ} :
    {A : Type ℓ} {P Q : A → Type κ} (xs : List A) → ((a : A) → P a → Q a) → All P xs → All Q xs
All-map [] f h = tt
All-map (x ∷ xs) f h = (f x h.0, All-map xs f h.1)

-- A relation between any two entries of a list, the earlier one first.
abbrev pub AllPairs {ℓ κ} : {A : Type ℓ} → (A → A → Type κ) → List A → Type κ
AllPairs R [] = Unit
AllPairs R (x ∷ xs) = All (R x) xs × AllPairs R xs

pub All-remove {ℓ κ} :
    {A : Type ℓ} (P : A → Type κ) (xs : List A) (x : A) (ys : List A)
    → All P (xs ++ x ∷ ys)
    → P x × All P (xs ++ ys)
All-remove P [] x ys h = h
All-remove P (y ∷ xs) x ys h = let r = All-remove P xs x ys h.1 in (r.0, (h.0, r.1))

pub All-insert {ℓ κ} :
    {A : Type ℓ} (P : A → Type κ) (xs : List A) (x : A) (ys : List A)
    → P x
    → All P (xs ++ ys)
    → All P (xs ++ x ∷ ys)
All-insert P [] x ys p h = (p, h)
All-insert P (y ∷ xs) x ys p h = (h.0, All-insert P xs x ys p h.1)

module _ {ℓ κ} {A : Type ℓ} (R : A → A → Type κ) where
  pub AllPairs-snoc :
      (xs : List A) (x : A) → AllPairs R xs → All (λ y. R y x) xs → AllPairs R (xs ++ x ∷ [])
  AllPairs-snoc [] x p h = (tt, tt)
  AllPairs-snoc (y ∷ xs) x p h =
      (All-append (R y) xs (x ∷ []) p.0 (h.0, tt), AllPairs-snoc xs x p.1 h.1)

  -- Taking one entry out leaves the others related, to each other and to it.
  pub AllPairs-remove :
      (xs : List A) (x : A) (ys : List A)
      → ((a b : A) → R a b → R b a)
      → AllPairs R (xs ++ x ∷ ys)
      → All (R x) (xs ++ ys) × AllPairs R (xs ++ ys)
  AllPairs-remove [] x ys s p = p
  AllPairs-remove (y ∷ xs) x ys s p =
      let rest = AllPairs-remove xs x ys s p.1 in
      let mine = All-remove (R y) xs x ys p.0 in ((s y x mine.0, rest.0), (mine.1, rest.1))

pub AllPairs-map {ℓ κ} :
    {A : Type ℓ} {R S : A → A → Type κ} (xs : List A)
    → ((a b : A) → R a b → S a b)
    → AllPairs R xs
    → AllPairs S xs
AllPairs-map [] f p = tt
AllPairs-map (x ∷ xs) f p = (All-map xs (f x) p.0, AllPairs-map xs f p.1)

pub All-zip {ℓ κ} :
    {A : Type ℓ} {P Q R : A → Type κ} (xs : List A)
    → ((a : A) → P a → Q a → R a)
    → All P xs
    → All Q xs
    → All R xs
All-zip [] f p q = tt
All-zip (x ∷ xs) f p q = (f x p.0 q.0, All-zip xs f p.1 q.1)

-- Some entry has the property.
abbrev pub Any {ℓ} : {A : Type ℓ} → (A → Type 0) → List A → Type 0
Any P [] = ⊥
Any P (x ∷ xs) = P x ⊎ Any P xs

-- Carried along for entries that have another property besides.
pub Any-zip {ℓ} :
    {A : Type ℓ} {P Q R : A → Type 0} (xs : List A)
    → ((a : A) → P a → Q a → R a)
    → All P xs
    → Any Q xs
    → Any R xs
Any-zip [] f p q = q
Any-zip (x ∷ xs) f p (inl q) = inl (f x p.0 q)
Any-zip (x ∷ xs) f p (inr q) = inr (Any-zip xs f p.1 q)

pub Any-map {ℓ} :
    {A : Type ℓ} {P Q : A → Type 0} (xs : List A) → ((a : A) → P a → Q a) → Any P xs → Any Q xs
Any-map [] f h = h
Any-map (x ∷ xs) f (inl h) = inl (f x h)
Any-map (x ∷ xs) f (inr h) = inr (Any-map xs f h)

module _ {ℓ} {A : Type ℓ} (P : A → Type 0) where
  pub Any-left : (xs ys : List A) → Any P xs → Any P (xs ++ ys)
  Any-left [] ys h = absurd h
  Any-left (x ∷ xs) ys (inl h) = inl h
  Any-left (x ∷ xs) ys (inr h) = inr (Any-left xs ys h)

  pub Any-right : (xs ys : List A) → Any P ys → Any P (xs ++ ys)
  Any-right [] ys h = h
  Any-right (x ∷ xs) ys h = inr (Any-right xs ys h)

  -- One entry taken out of a list: it has the property, or another one has it.
  pub Any-remove :
      (xs : List A) (x : A) (ys : List A) → Any P (xs ++ x ∷ ys) → P x ⊎ Any P (xs ++ ys)
  Any-remove [] x ys h = h
  Any-remove (y ∷ xs) x ys (inl h) = inr (inl h)
  Any-remove (y ∷ xs) x ys (inr h) = elim (Any-remove xs x ys h) [
    | inl a ↦ inl a
    | inr b ↦ inr (inr b)
  ]
