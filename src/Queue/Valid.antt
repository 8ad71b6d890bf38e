-- ===== src/Queue/Valid.antt =====
-- The invariant of a queue: its callers have different numbers and promises of their own, on which
-- the clients still wait.
use protei_cov.Prelude.{
  ℕ, ◌≡◌, ◌≢◌, sym, Bool, true, false, List, arith, All, AllPairs, AllPairs-map, text_eq_iff,
}
use protei_cov.World.{World, pending}
use protei_cov.Task.{get_number}
use protei_cov.Queue.Defs.{Item, find_if, same_number}
use protei_cov.Queue.Dismiss.{dismiss, dismiss-number, dismiss-promise, dismiss-promises}
use protei_cov.Queue.Find.{Splits, find_if-Splits}

abbrev pub promise_of : World → Item → ℕ
promise_of w x = (w.tasks x.0).promise

abbrev pub Waits : World → Item → Type 0
Waits w x = w.promises (promise_of w x) ≡ pending

abbrev pub Apart : World → Item → Item → Type 0
Apart w x y = (get_number x.0 w ≢ get_number y.0 w) × (promise_of w x ≢ promise_of w y)

-- Two items with promises of their own.
abbrev pub OwnPromise : World → Item → Item → Type 0
OwnPromise w x y = promise_of w x ≢ promise_of w y

pub record IsValid (xs : List Item) (w : World) : Type 0 where
  pub waiting : All (Waits w) xs
  pub apart : AllPairs (Apart w) xs

-- A call that may be pushed: its client waits, on no other call's promise.
pub record IsFresh (x : Item) (xs : List Item) (w : World) : Type 0 where
  pub waits : Waits w x
  pub own : All (λ y. OwnPromise w y x) xs

pub Apart-sym : (w : World) (x y : Item) → Apart w x y → Apart w y x
Apart-sym w x y h = (λ e. h.0 (sym e), λ e. h.1 (sym e))

pub same_number_once :
    (w : World) (t : ℕ) (x y : Item)
    → Apart w x y
    → same_number w t x ≡ true
    → same_number w t y ≡ false
unfolding same_number
same_number_once w t x y h e = ground (
  arith,
  text_eq_iff (get_number x.0 w) (get_number t w),
  text_eq_iff (get_number y.0 w) (get_number t w),
)

-- How the queue's items split at the number of a new call.
pub items-Splits :
    (xs : List Item) (w : World) (t : ℕ)
    → IsValid xs w
    → Splits (same_number w t) xs (find_if (same_number w t) xs)
items-Splits xs w t v =
    find_if-Splits (same_number w t) xs (AllPairs-map xs (same_number_once w t) v.apart)

module _ (now : ℕ) (is_duplication : Bool) (x : Item) (rs : List ℕ) (w : World) where
  -- A call keeps waiting while another client is answered.
  pub dismiss-Waits :
      (y : Item) → OwnPromise w x y → Waits w y → Waits (dismiss now is_duplication x rs w) y
  dismiss-Waits y own h = ground (
    arith,
    dismiss-promise now is_duplication x rs w y.0,
    dismiss-promises now is_duplication x rs w (promise_of w y),
  )

  pub dismiss-Apart : (y z : Item) → Apart w y z → Apart (dismiss now is_duplication x rs w) y z
  dismiss-Apart y z h = ground (
    arith,
    dismiss-promise now is_duplication x rs w y.0,
    dismiss-promise now is_duplication x rs w z.0,
    dismiss-number now is_duplication x rs w y.0,
    dismiss-number now is_duplication x rs w z.0,
  )
