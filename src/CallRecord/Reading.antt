-- ===== src/CallRecord/Reading.antt =====
-- What a written record tells to those who read it.
use protei_cov.Prelude.{
  ℕ, suc, ◌+◌, ◌≡◌, ◌≢◌, refl, sym, ap, ◌∙◌, subst, List, [], ◌∷◌, ◌++◌, arith, ◌==◌, if◌then◌else◌,
  All, Text, ℤ, pos, negsuc,
}
use protei_cov.Stdlib.Decimal.{
  show_nat, show_int, digits_value, digits_value-show_nat, IsDigit, show_nat-IsDigit,
}
use protei_cov.CallRecord.Defs.{
  Cdr, CallStatus, to_string, prepare_time, separator, write_cdr, joined,
}
use protei_cov.CallRecord.Fields.{
  separators, separators-append, separators-prepare_time, separators-show_nat, separators-show_int,
  separators-to_string,
}

abbrev attach : ℕ → List Text → List Text
attach c [] = (c ∷ []) ∷ []
attach c (f ∷ fs) = (c ∷ f) ∷ fs

-- The fields of a line, as a reader finds them.
abbrev pub split : Text → List Text
split [] = [] ∷ []
split (c ∷ cs) = let fs = split cs in if c == separator then [] ∷ fs else attach c fs

split_one : (s : Text) → separators s ≡ 0 → split s ≡ s ∷ []
split_one [] h = refl
split_one (c ∷ cs) h = ground (arith, split_one cs)

split-append : (s t : Text) → separators s ≡ 0 → split (s ++ (separator ∷ t)) ≡ s ∷ split t
split-append [] t h = refl
split-append (c ∷ cs) t h = ground (arith, split-append cs t)

-- Splitting undoes joining.
split-joined :
    (f : Text) (fs : List Text)
    → separators f ≡ 0
    → All (λ g. separators g ≡ 0) fs
    → split (joined (f ∷ fs)) ≡ f ∷ fs
unfolding joined
split-joined f [] h hs = split_one f h
split-joined f (g ∷ fs) h (k, hs) =
    split-append f (joined (g ∷ fs)) h ∙ ap (λ gs. f ∷ gs) (split-joined g fs k hs)

abbrev tail : Text → Text
tail [] = []
tail (c ∷ cs) = cs

abbrev without_last : Text → Text
without_last [] = []
without_last (c ∷ []) = []
without_last (c ∷ d ∷ cs) = c ∷ without_last (d ∷ cs)

without_last-append : (s : Text) (c : ℕ) → without_last (s ++ (c ∷ [])) ≡ s
without_last-append [] c = refl
without_last-append (d ∷ []) c = refl
without_last-append (d ∷ e ∷ s) c = ap (λ r. d ∷ r) (without_last-append (e ∷ s) c)

show_nat_injective : (a b : ℕ) → show_nat a ≡ show_nat b → a ≡ b
show_nat_injective a b e =
    sym (digits_value-show_nat a) ∙ ap (digits_value 0) e ∙ digits_value-show_nat b

no_sign : (n : ℕ) (s : Text) → show_nat n ≢ b'-' ∷ s
no_sign n s e =
    let d : All IsDigit (b'-' ∷ s) = subst (All IsDigit) e (show_nat-IsDigit n) in
    absurd (omega (arith, d.0))

show_int_injective : (a b : ℤ) → show_int a ≡ show_int b → a ≡ b
unfolding show_int
show_int_injective (pos n) (pos k) e = ap pos (show_nat_injective n k e)
show_int_injective (pos n) (negsuc k) e = absurd (no_sign n (show_nat (suc k)) e)
show_int_injective (negsuc n) (pos k) e = absurd (no_sign k (show_nat (suc n)) (sym e))
show_int_injective (negsuc n) (negsuc k) e =
    let same : suc n ≡ suc k = show_nat_injective (suc n) (suc k) (ap tail e) in
    ap negsuc (omega (arith, same))

-- The states by their first letters.
abbrev state_of : Text → CallStatus
state_of [] = CallStatus.awaiting
state_of (c ∷ cs) =
    if c == b'A'
    then CallStatus.awaiting
    else if c == b'C'
    then CallStatus.completed
    else if c == b'D'
    then CallStatus.duplication
    else if c == b'O'
    then CallStatus.overloaded
    else if c == b'R'
    then CallStatus.rejected
    else CallStatus.timeout

state_of-to_string : (s : CallStatus) → state_of (to_string s) ≡ s
unfolding to_string
state_of-to_string CallStatus.awaiting = refl
state_of-to_string CallStatus.completed = refl
state_of-to_string CallStatus.duplication = refl
state_of-to_string CallStatus.overloaded = refl
state_of-to_string CallStatus.rejected = refl
state_of-to_string CallStatus.timeout = refl

module _ (local_time : ℕ → Text) (plain : (n : ℕ) → separators (local_time n) ≡ 0) where
  abbrev duration : Cdr → Text
  duration cdr = show_int cdr.call_duration ++ (b's' ∷ [])

  -- The fields of a record whose number holds no separator.
  split-write_cdr :
      (cdr : Cdr)
      → separators cdr.number ≡ 0
      → split (write_cdr local_time cdr)
        ≡ prepare_time local_time cdr.start_time
          ∷ show_nat cdr.call_id
          ∷ cdr.number
          ∷ prepare_time local_time cdr.end_time
          ∷ to_string cdr.status
          ∷ prepare_time local_time cdr.operator_call_time
          ∷ show_nat cdr.operator_id
          ∷ duration cdr
          ∷ []
  unfolding write_cdr
  split-write_cdr cdr h =
      let time = separators-prepare_time local_time plain in
      split-joined (prepare_time local_time cdr.start_time) _ (time cdr.start_time) (
        separators-show_nat cdr.call_id,
        (
          h,
          (
            time cdr.end_time,
            (
              separators-to_string cdr.status,
              (
                time cdr.operator_call_time,
                (
                  separators-show_nat cdr.operator_id,
                  (
                    separators-append (show_int cdr.call_duration) (b's' ∷ [])
                        ∙ ap (λ n. n + 0) (separators-show_int cdr.call_duration),
                    tt,
                  ),
                ),
              ),
            ),
          ),
        ),
      )

  -- Two records with numbers that hold no separator, written as one line, have the same id, number,
  -- state, operator and length of the call, and the same texts of their times, where the calendar
  -- text has no separator: a line of the file tells all of its call.
  pub write_cdr_injective :
      (a b : Cdr)
      → separators a.number ≡ 0
      → separators b.number ≡ 0
      → write_cdr local_time a ≡ write_cdr local_time b
      → (a.call_id ≡ b.call_id)
        × (a.number ≡ b.number)
        × (a.status ≡ b.status)
        × (a.operator_id ≡ b.operator_id)
        × (a.call_duration ≡ b.call_duration)
        × (prepare_time local_time a.start_time ≡ prepare_time local_time b.start_time)
        × (prepare_time local_time a.end_time ≡ prepare_time local_time b.end_time)
        × (prepare_time local_time a.operator_call_time
            ≡ prepare_time local_time b.operator_call_time)
  write_cdr_injective a b h k e =
      let f = sym (split-write_cdr a h) ∙ ap split e ∙ split-write_cdr b k in
      let status : to_string a.status ≡ to_string b.status = cc in
      let length : duration a ≡ duration b = cc in
      (
        show_nat_injective a.call_id b.call_id (cc),
        cc,
        sym (state_of-to_string a.status) ∙ ap state_of status ∙ state_of-to_string b.status,
        show_nat_injective a.operator_id b.operator_id (cc),
        show_int_injective a.call_duration b.call_duration (
            sym (without_last-append (show_int a.call_duration) b's')
            ∙ ap without_last length
            ∙ without_last-append (show_int b.call_duration) b's'),
        cc,
        cc,
        cc,
      )
