-- ===== src/Stdlib/Decimal.antt =====
-- `std::to_string` and `operator<<` on integers: decimal digits, most significant first.
use protei_cov.Prelude.{
  ℕ, zero, suc, ◌+◌, ◌-◌, ◌*◌, ◌/◌, ◌%◌, ◌≤◌, ◌<◌, ◌≡◌, ◌≢◌, [], ◌∷◌, arith, ltb, if◌then◌else◌,
  All, Text, ℤ, pos, negsuc,
}

abbrev digit : ℕ → ℕ
digit n = b'0' + n % 10

-- Digits in front of `acc`. The fuel bounds the number of digits.
show_digits : ℕ → ℕ → Text → Text
show_digits zero n acc = acc
show_digits (suc f) n acc =
    let more = show_digits f (n / 10) (digit n ∷ acc) in if ltb n 10 then digit n ∷ acc else more

unfoldable pub show_nat : ℕ → Text
unfolding show_digits
show_nat n = show_digits (suc n) n []

unfoldable pub show_int : ℤ → Text
unfolding show_nat
show_int (pos n) = show_nat n
show_int (negsuc n) = b'-' ∷ show_nat (suc n)

-- The value of a run of digits that continues the number `acc`.
abbrev pub digits_value : ℕ → Text → ℕ
digits_value acc [] = acc
digits_value acc (c ∷ cs) = digits_value (acc * 10 + (c - b'0')) cs

abbrev pub IsDigit : ℕ → Type 0
IsDigit c = (b'0' ≤ c) × (c ≤ b'9')

show_digits-IsDigit : (f n : ℕ) (acc : Text) → All IsDigit acc → All IsDigit (show_digits f n acc)
unfolding show_digits
show_digits-IsDigit zero n acc h = h
show_digits-IsDigit (suc f) n acc h = ground (arith, show_digits-IsDigit f (n / 10) (digit n ∷ acc))

pub show_nat-IsDigit : (n : ℕ) → All IsDigit (show_nat n)
unfolding show_nat
show_nat-IsDigit n = show_digits-IsDigit (suc n) n [] tt

show_digits-value :
    (f n : ℕ) (acc : Text) → n < f → digits_value 0 (show_digits f n acc) ≡ digits_value n acc
unfolding show_digits
show_digits-value zero n acc h = absurd (omega arith)
show_digits-value (suc f) n acc h = ground (arith, show_digits-value f (n / 10) (digit n ∷ acc))

-- Enough fuel is given: the digits of `n` have the value `n`.
pub digits_value-show_nat : (n : ℕ) → digits_value 0 (show_nat n) ≡ n
unfolding show_nat
digits_value-show_nat n = show_digits-value (suc n) n [] (omega arith)

show_digits-ne-nil : (f n c : ℕ) (acc : Text) → show_digits f n (c ∷ acc) ≢ []
unfolding show_digits
show_digits-ne-nil zero n c acc = ground arith
show_digits-ne-nil (suc f) n c acc =
    ground (arith, show_digits-ne-nil f (n / 10) (digit n) (c ∷ acc))

pub show_nat-ne-nil : (n : ℕ) → show_nat n ≢ []
unfolding show_nat show_digits
show_nat-ne-nil n = ground (arith, show_digits-ne-nil n (n / 10) (digit n) [])
