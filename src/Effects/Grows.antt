-- ===== src/Effects/Grows.antt =====
-- Relations between the states before and after a call, whether it returns, throws or faults: one
-- rule for each way to build a call.
use protei_cov.Prelude.{Bool, true, false, if◌then◌else◌}
use protei_cov.Effects.{
  Outcome, ok, throws, fault, Exception, Exec, when, handle, continue, try_catch, ◌>>=◌,
}

-- What holds of a state and itself, and of the ends of two steps.
pub record Order {S : Type 0} (R : S → S → Type 0) : Type 0 where
  pub same : (s : S) → R s s
  pub chain : {s s' s'' : S} → R s s' → R s' s'' → R s s''

-- `m` leads to a state that stands in `R` to the one before it, however it ends.
pub record Grows {S A : Type 0} (R : S → S → Type 0) (m : Exec S A) : Type 0 where
  pub at : (s : S) → R s (m s).1

module _ {S : Type 0} {R : S → S → Type 0} ⦃order : Order R⦄ where
  module _ {A : Type 0} where
    pub Grows-result : (o : S → Outcome A) → Grows R (λ s. (o s, s))
    Grows-result o = record { at = λ s. order.same s }

    pub Grows-if :
        (b : Bool) {m n : Exec S A} → Grows R m → Grows R n → Grows R (if b then m else n)
    Grows-if true km kn = km
    Grows-if false km kn = kn

    after_handle :
        (h : Exception → Exec S A)
        → ((e : Exception) → Grows R (h e))
        → (s : S) (r : Outcome A × S) → R s r.1
        → R s (handle h r).1
    after_handle h kh s (ok a, s') k = k
    after_handle h kh s (throws e, s') k = order.chain k ((kh e).at s')
    after_handle h kh s (fault, s') k = k

    pub Grows-try :
        (m : Exec S A) (h : Exception → Exec S A)
        → Grows R m
        → ((e : Exception) → Grows R (h e))
        → Grows R (try_catch m h)
    Grows-try m h km kh = record { at = λ s. after_handle h kh s (m s) (km.at s) }

  pub Grows-when : (b : Bool) {m : Exec S (Unit {0})} → Grows R m → Grows R (when b m)
  Grows-when true km = km
  Grows-when false km = record { at = λ s. order.same s }

  module _ {A B : Type 0} where
    after_continue :
        (f : A → Exec S B)
        → ((a : A) → Grows R (f a))
        → (s : S) (r : Outcome A × S) → R s r.1
        → R s (continue f r).1
    after_continue f kf s (ok a, s') k = order.chain k ((kf a).at s')
    after_continue f kf s (throws e, s') k = k
    after_continue f kf s (fault, s') k = k

    pub Grows-bind :
        (m : Exec S A) (f : A → Exec S B)
        → Grows R m
        → ((a : A) → Grows R (f a))
        → Grows R (m >>= f)
    Grows-bind m f km kf = record { at = λ s. after_continue f kf s (m s) (km.at s) }
