-- ===== src/Effects.antt =====
-- What a C++ call can do besides returning: throw, or run into undefined behaviour.
use protei_cov.Prelude.{Bool, true, false, if◌then◌else◌, ◌≡◌, refl, ◌⊎◌, inl, inr}
pub mod Grows

-- The exceptions that the program's own calls raise, by the class that a handler sees.
-- `sliced` is what `throw e;` in a handler for `std::exception&` makes: a plain `std::exception`.
pub data Exception : Type 0 where
  sliced : Exception
  json_parser_error : Exception
  bad_path : Exception
  bad_data : Exception
  invalid_argument : Exception
  out_of_range : Exception
  length_error : Exception
  promise_already_satisfied : Exception
  broken_promise : Exception
  filesystem_error : Exception
  system_failure : Exception

-- `fault` stands for undefined behaviour: a null pointer read, `front` of an empty vector.
pub data Outcome {ℓ} (A : Type ℓ) : Type ℓ where
  ok : A → Outcome A
  throws : Exception → Outcome A
  fault : Outcome A

-- A call on a state: what was written before a throw stays written.
abbrev pub Exec : Type 0 → Type 0 → Type 0
Exec S A = S → Outcome A × S

module _ {S A : Type 0} where
  abbrev pub pure : A → Exec S A
  pure a s = (ok a, s)

  abbrev pub raise : Exception → Exec S A
  raise e s = (throws e, s)

  abbrev pub undefined : Exec S A
  undefined s = (fault, s)

  abbrev pub gets : (S → A) → Exec S A
  gets f s = (ok (f s), s)

  abbrev pub handle : (Exception → Exec S A) → Outcome A × S → Outcome A × S
  handle h (ok a, s) = (ok a, s)
  handle h (throws e, s) = h e s
  handle h (fault, s) = (fault, s)

  -- `try { m } catch (const std::exception& e) { h(e) }`
  abbrev pub try_catch : Exec S A → (Exception → Exec S A) → Exec S A
  try_catch m h s = handle h (m s)

abbrev pub continue : {S A B : Type 0} → (A → Exec S B) → Outcome A × S → Outcome B × S
continue f (ok a, s) = f a s
continue f (throws e, s) = (throws e, s)
continue f (fault, s) = (fault, s)

infixl 5 ◌>>=◌ ◌>>◌
abbrev pub ◌>>=◌ : {S A B : Type 0} → Exec S A → (A → Exec S B) → Exec S B
◌>>=◌ m f s = continue f (m s)

abbrev pub ◌>>◌ : {S A B : Type 0} → Exec S A → Exec S B → Exec S B
m >> k = m >>= λ _. k

abbrev pub modify : {S : Type 0} → (S → S) → Exec S (Unit {0})
modify f s = (ok tt, f s)

abbrev pub when : {S : Type 0} → Bool → Exec S (Unit {0}) → Exec S (Unit {0})
when b m s = if b then m s else (ok tt, s)

-- `p->f()` through a pointer: undefined where the pointer is null.
abbrev pub deref : {S : Type 0} → Bool → Exec S (Unit {0})
deref b s = (if b then ok tt else fault, s)

pub Outcome-cases {ℓ} :
    {A : Type ℓ} (r : Outcome A)
    → ((a : A) × (r ≡ ok a)) ⊎ ((e : Exception) × (r ≡ throws e)) ⊎ (r ≡ fault)
Outcome-cases (ok a) = inl (a, refl)
Outcome-cases (throws e) = inr (inl (e, refl))
Outcome-cases fault = inr (inr refl)

-- A step whose outcome is known hands on its result and its state.
module _ {S A B : Type 0} (m : Exec S A) (f : A → Exec S B) {s s' : S} where
  pub >>=-ok : {a : A} → m s ≡ (ok a, s') → (m >>= f) s ≡ f a s'
  >>=-ok e = rw e

  pub >>=-throws : {e : Exception} → m s ≡ (throws e, s') → (m >>= f) s ≡ (throws e, s')
  >>=-throws e = rw e

-- The exceptions that are a `std::future_error`.
abbrev pub is_future_error : Exception → Bool
is_future_error promise_already_satisfied = true
is_future_error broken_promise = true
is_future_error _ = false
