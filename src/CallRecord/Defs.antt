-- ===== src/CallRecord/Defs.antt =====
-- The types and functions of commonStructures.
use protei_cov.Prelude.{ℕ, ◌/◌, ◌%◌, List, [], ◌∷◌, ◌++◌, ltb, ◌==◌, if◌then◌else◌, Text, codes, ℤ}
use protei_cov.Stdlib.Decimal.{show_nat, show_int}

pub data CallStatus : Type 0 where
  awaiting completed duplication overloaded rejected timeout : CallStatus

pub record Cdr : Type 0 where
  pub start_time : ℕ
  pub end_time : ℕ
  pub call_id : ℕ
  pub status : CallStatus
  pub operator_call_time : ℕ
  pub operator_id : ℕ
  pub call_duration : ℤ
  pub number : Text

pub record CallResult : Type 0 where
  pub status : CallStatus
  pub call_duration : ℤ
  pub call_id : ℕ

unfoldable pub to_string : CallStatus → Text
to_string CallStatus.awaiting = codes "Awaiting"
to_string CallStatus.completed = codes "Completed"
to_string CallStatus.duplication = codes "Duplication"
to_string CallStatus.overloaded = codes "Overloaded"
to_string CallStatus.rejected = codes "Rejected"
to_string CallStatus.timeout = codes "Timeout"

abbrev pub nanos_per_second : ℕ
nanos_per_second = 1_000_000_000

abbrev pub nanos_per_milli : ℕ
nanos_per_milli = 1_000_000

-- `std::setw(3) << std::setfill('0')`
unfoldable pub pad3 : ℕ → Text
pad3 n =
    if ltb n 10
    then b'0' ∷ b'0' ∷ show_nat n
    else if ltb n 100
    then b'0' ∷ show_nat n
    else show_nat n

unfoldable pub prepare_time : (ℕ → Text) → ℕ → Text
unfolding pad3
prepare_time local_time time =
    if time == 0
    then []
    else local_time (time / nanos_per_second)
      ++ (b'.' ∷ pad3 (time % nanos_per_second / nanos_per_milli))

abbrev pub separator : ℕ
separator = b';'

-- The fields in the order of the stream, a separator between two.
unfoldable pub joined : List Text → Text
joined [] = []
joined (f ∷ []) = f
joined (f ∷ g ∷ fs) = f ++ (separator ∷ joined (g ∷ fs))

-- `operator<<` on a CDR.
unfoldable pub write_cdr : (ℕ → Text) → Cdr → Text
write_cdr local_time cdr = joined (
    prepare_time local_time cdr.start_time
    ∷ show_nat cdr.call_id
    ∷ cdr.number
    ∷ prepare_time local_time cdr.end_time
    ∷ to_string cdr.status
    ∷ prepare_time local_time cdr.operator_call_time
    ∷ show_nat cdr.operator_id
    ∷ (show_int cdr.call_duration ++ (b's' ∷ []))
    ∷ [])
