-- ===== src/Stdlib/Stoll.antt =====
-- `std::stoll`: white space, a sign, and the longest run of decimal digits; the rest is ignored.
use protei_cov.Prelude.{
  ℕ, ◌^◌, ◌<◌, ◌≡◌, ◌≢◌, refl, ◌⊎◌, inl, inr, Bool, true, false, ◌&&◌, ◌||◌, [], ◌∷◌, arith, ltb,
  leb, ◌==◌, if◌then◌else◌, All, subst, Text, ℤ, pos, negsuc, ◌-◌,
}
use protei_cov.Effects.{Outcome, ok, throws, fault, Exception, Outcome-cases, is_future_error}
use protei_cov.Stdlib.Decimal.{
  digits_value, IsDigit, show_nat, show_nat-IsDigit, digits_value-show_nat, show_nat-ne-nil,
}

is_digit : ℕ → Bool
is_digit c = leb b'0' c && leb c b'9'

is_space : ℕ → Bool
is_space c = c == 32 || (leb 9 c && leb c 13)

leading_digits : Text → Text
leading_digits [] = []
leading_digits (c ∷ cs) = let more = leading_digits cs in if is_digit c then c ∷ more else []

-- `long long` is taken as 64 bits wide.
in_range : Bool → ℕ → Outcome ℤ
in_range false n = if ltb n (2 ^ 63) then ok (pos n) else throws Exception.out_of_range
in_range true n =
    if n == 0
    then ok (pos 0)
    else if leb n (2 ^ 63)
    then ok (negsuc (n - 1))
    else throws Exception.out_of_range

convert : Bool → Text → Outcome ℤ
convert negative [] = throws Exception.invalid_argument
convert negative (c ∷ cs) = in_range negative (digits_value 0 (c ∷ cs))

signed : Text → Outcome ℤ
signed [] = convert false []
signed (c ∷ cs) =
    if c == b'-'
    then convert true (leading_digits cs)
    else if c == b'+'
    then convert false (leading_digits cs)
    else convert false (leading_digits (c ∷ cs))

skip_space : Text → Text
skip_space [] = []
skip_space (c ∷ cs) = if is_space c then skip_space cs else c ∷ cs

unfoldable pub stoll : Text → Outcome ℤ
unfolding skip_space signed convert in_range leading_digits is_digit is_space
stoll s = signed (skip_space s)

leading_digits-IsDigit : (s : Text) → All IsDigit s → leading_digits s ≡ s
unfolding leading_digits is_digit
leading_digits-IsDigit [] h = refl
leading_digits-IsDigit (c ∷ cs) h = ground (arith, leading_digits-IsDigit cs)

stoll_digits :
    (s : Text) (n : ℕ)
    → All IsDigit s
    → digits_value 0 s ≡ n
    → s ≢ []
    → n < 2 ^ 63
    → stoll s ≡ ok (pos n)
unfolding skip_space signed convert in_range is_space stoll
stoll_digits [] n d v ne b = absurd (ne refl)
stoll_digits (c ∷ cs) n d v ne b = ground (arith, leading_digits-IsDigit (c ∷ cs) d)

-- Reading back a printed number.
pub stoll-show_nat : (n : ℕ) → n < 2 ^ 63 → stoll (show_nat n) ≡ ok (pos n)
stoll-show_nat n h =
    stoll_digits (show_nat n) n (show_nat-IsDigit n) (digits_value-show_nat n) (show_nat-ne-nil n) h

-- `std::stoi`, for an `int` of 32 bits.
abbrev in_int : ℤ → Outcome ℤ
in_int (pos n) = if ltb n (2 ^ 31) then ok (pos n) else throws Exception.out_of_range
in_int (negsuc n) = if ltb n (2 ^ 31) then ok (negsuc n) else throws Exception.out_of_range

unfoldable pub stoi : Text → Outcome ℤ
stoi s = elim (stoll s) [ ok z ↦ in_int z | throws e ↦ throws e | fault ↦ fault ]

pub stoi-show_nat : (n : ℕ) → n < 2 ^ 31 → stoi (show_nat n) ≡ ok (pos n)
unfolding stoi
stoi-show_nat n h = ground (arith, stoll-show_nat n)

in_range_defined : (b : Bool) (n : ℕ) → in_range b n ≢ fault
unfolding in_range
in_range_defined true n = ground arith
in_range_defined false n = ground arith

convert_defined : (b : Bool) (s : Text) → convert b s ≢ fault
unfolding convert
convert_defined b [] = ground arith
convert_defined b (c ∷ cs) = in_range_defined b (digits_value 0 (c ∷ cs))

signed_defined : (s : Text) → signed s ≢ fault
unfolding signed
signed_defined [] = convert_defined false []
signed_defined (c ∷ cs) = ground (
  arith,
  convert_defined true (leading_digits cs),
  convert_defined false (leading_digits cs),
  convert_defined false (leading_digits (c ∷ cs)),
)

stoll_defined : (s : Text) → stoll s ≢ fault
unfolding stoll
stoll_defined s = signed_defined (skip_space s)

-- What it throws is no `std::future_error`.
abbrev IsPlain : Outcome ℤ → Type 0
IsPlain (ok z) = Unit {0}
IsPlain (throws e) = is_future_error e ≡ false
IsPlain fault = Unit {0}

in_range-IsPlain : (b : Bool) (n : ℕ) → IsPlain (in_range b n)
unfolding in_range
in_range-IsPlain true n = ground arith
in_range-IsPlain false n = ground arith

convert-IsPlain : (b : Bool) (s : Text) → IsPlain (convert b s)
unfolding convert
convert-IsPlain b [] = refl
convert-IsPlain b (c ∷ cs) = in_range-IsPlain b (digits_value 0 (c ∷ cs))

signed-IsPlain : (s : Text) → IsPlain (signed s)
unfolding signed
signed-IsPlain [] = convert-IsPlain false []
signed-IsPlain (c ∷ cs) = ground (
  arith,
  convert-IsPlain true (leading_digits cs),
  convert-IsPlain false (leading_digits cs),
  convert-IsPlain false (leading_digits (c ∷ cs)),
)

pub stoll_throws_plain : (s : Text) (e : Exception) → stoll s ≡ throws e → is_future_error e ≡ false
unfolding stoll
stoll_throws_plain s e h = subst IsPlain h (signed-IsPlain (skip_space s))

-- `std::stoll` returns or throws.
pub stoll_cases :
    (s : Text) → ((z : ℤ) × (stoll s ≡ ok z)) ⊎ ((e : Exception) × (stoll s ≡ throws e))
stoll_cases s = elim (Outcome-cases (stoll s)) [
  | inl h ↦ inl h
  | inr (inl h) ↦ inr h
  | inr (inr h) ↦ absurd (stoll_defined s h)
]
