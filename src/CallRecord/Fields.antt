-- ===== src/CallRecord/Fields.antt =====
-- The fields of a written record.
use protei_cov.Prelude.{
  ℕ, suc, ◌+◌, ◌/◌, ◌%◌, ◌≡◌, refl, [], ◌∷◌, ◌++◌, arith, ◌==◌, if◌then◌else◌, All, Text, ℤ, pos,
  negsuc,
}
use protei_cov.Stdlib.Decimal.{show_nat, show_int, IsDigit, show_nat-IsDigit}
use protei_cov.CallRecord.Defs.{
  Cdr, CallStatus, to_string, pad3, prepare_time, separator, write_cdr, joined, nanos_per_second,
  nanos_per_milli,
}

-- The separators in a text: one less than its fields.
abbrev pub separators : Text → ℕ
separators [] = 0
separators (c ∷ cs) = (if c == separator then 1 else 0) + separators cs

pub separators-append : (s t : Text) → separators (s ++ t) ≡ separators s + separators t
separators-append [] t = omega arith
separators-append (c ∷ cs) t = ground (arith, separators-append cs t)

separators_of_digits : (s : Text) → All IsDigit s → separators s ≡ 0
separators_of_digits [] h = refl
separators_of_digits (c ∷ cs) h = ground (arith, separators_of_digits cs)

pub separators-show_nat : (n : ℕ) → separators (show_nat n) ≡ 0
separators-show_nat n = separators_of_digits (show_nat n) (show_nat-IsDigit n)

pub separators-show_int : (z : ℤ) → separators (show_int z) ≡ 0
unfolding show_int
separators-show_int (pos n) = separators-show_nat n
separators-show_int (negsuc n) = ground (arith, separators-show_nat (suc n))

pub separators-to_string : (s : CallStatus) → separators (to_string s) ≡ 0
unfolding to_string
separators-to_string CallStatus.awaiting = refl
separators-to_string CallStatus.completed = refl
separators-to_string CallStatus.duplication = refl
separators-to_string CallStatus.overloaded = refl
separators-to_string CallStatus.rejected = refl
separators-to_string CallStatus.timeout = refl

separators-pad3 : (n : ℕ) → separators (pad3 n) ≡ 0
unfolding pad3
separators-pad3 n = ground (arith, separators-show_nat n)

module _ (local_time : ℕ → Text) (plain : (n : ℕ) → separators (local_time n) ≡ 0) where
  pub separators-prepare_time : (t : ℕ) → separators (prepare_time local_time t) ≡ 0
  unfolding prepare_time
  separators-prepare_time t = ground (
    arith,
    separators-append (local_time (t / nanos_per_second))
        (b'.' ∷ pad3 (t % nanos_per_second / nanos_per_milli)),
    plain (t / nanos_per_second),
    separators-pad3 (t % nanos_per_second / nanos_per_milli),
  )

  -- A written record has seven separators more than the caller's number, so exactly eight fields
  -- when the number holds no separator, where the calendar text has none.
  pub separators-write_cdr :
      (cdr : Cdr) → separators (write_cdr local_time cdr) ≡ 7 + separators cdr.number
  unfolding write_cdr joined
  separators-write_cdr cdr =
      simp
        (
          separators-append, separators-prepare_time, separators-show_nat, separators-show_int,
          separators-to_string,
        )
        (omega arith)
