-- ===== src/Queue/Dismiss.antt =====
-- What becomes of a call that the queue turns away: its record is closed and handed to the
-- recorders, and its client gets a result at once.
use protei_cov.Prelude.{ℕ, ◌≡◌, refl, Bool, List, [], ◌∷◌, if◌then◌else◌, ◌==◌, arith}
use protei_cov.Effects.{ok, ◌>>◌}
use protei_cov.CallRecord.{CallStatus, duplication, overloaded, Cdr}
use protei_cov.World.{World, pending, value, set_task, set_promise, set_value, make_record, update}
use protei_cov.Task.{get_number}
use protei_cov.Queue.Defs.{
  Item, Queue, record_all, closed, process_cdr, write_cdr, answer, unserved,
}

abbrev pub reason : Bool → CallStatus
reason is_duplication = if is_duplication then duplication else overloaded

-- The world after a call has been turned away.
unfoldable pub dismiss : ℕ → Bool → Item → List ℕ → World → World
dismiss now is_duplication (t, id) recorders w =
    let v = closed is_duplication now (w.tasks t) in
    set_promise v.promise (value (unserved (reason is_duplication) id))
      (record_all recorders v.cdr (set_task t v w))

pub record_all_keeps :
    (rs : List ℕ) (cdr : Cdr) (w : World)
    → ((record_all rs cdr w).tasks ≡ w.tasks) × ((record_all rs cdr w).promises ≡ w.promises)
unfolding record_all make_record
record_all_keeps [] cdr w = (refl, refl)
record_all_keeps (r ∷ rs) cdr w = record_all_keeps rs cdr (make_record r cdr w)

-- Turning away a call whose client still waits.
pub process_cdr-answer :
    (now : ℕ) (is_duplication : Bool) (x : Item) (q : Queue) (w : World)
    → w.promises (w.tasks x.0).promise ≡ pending
    → (process_cdr now x.0 is_duplication >> answer x.0 (unserved (reason is_duplication) x.1))
        (q, w)
      ≡ (ok tt, (q, dismiss now is_duplication x q.recorders w))
unfolding process_cdr write_cdr answer set_value dismiss
process_cdr-answer now is_duplication (t, id) q w h = ground (
  arith,
  record_all_keeps q.recorders (closed is_duplication now (w.tasks t)).cdr
      (set_task t (closed is_duplication now (w.tasks t)) w),
)

module _ (now : ℕ) (is_duplication : Bool) (x : Item) (rs : List ℕ) (w : World) where
  kept :
      ((record_all rs
          (closed is_duplication now (w.tasks x.0)).cdr
          (set_task x.0 (closed is_duplication now (w.tasks x.0)) w)).tasks
        ≡ update w.tasks x.0 (closed is_duplication now (w.tasks x.0)))
      × ((record_all rs
            (closed is_duplication now (w.tasks x.0)).cdr
            (set_task x.0 (closed is_duplication now (w.tasks x.0)) w)).promises
          ≡ w.promises)
  kept = record_all_keeps rs _ (set_task x.0 (closed is_duplication now (w.tasks x.0)) w)

  abbrev w' : World
  w' = dismiss now is_duplication x rs w

  -- No task's number and no task's promise is another one afterwards.
  pub dismiss-number : (t : ℕ) → get_number t w' ≡ get_number t w
  unfolding dismiss get_number
  dismiss-number t = rw kept.0 (ground arith)

  pub dismiss-promise : (t : ℕ) → (w'.tasks t).promise ≡ (w.tasks t).promise
  unfolding dismiss
  dismiss-promise t = rw kept.0 (ground arith)

  -- Nor what its operator needs of it.
  pub dismiss-options :
      (t : ℕ)
      → ((w'.tasks t).has_logger ≡ (w.tasks t).has_logger)
        × ((w'.tasks t).r_min ≡ (w.tasks t).r_min)
        × ((w'.tasks t).r_max ≡ (w.tasks t).r_max)
  unfolding dismiss
  dismiss-options t = rw kept.0 (ground arith, ground arith, ground arith)

  -- One client has its answer, and the others wait as before.
  pub dismiss-promises :
      (p : ℕ)
      → w'.promises p ≡ (
          if (w.tasks x.0).promise == p
          then value (unserved (reason is_duplication) x.1)
          else w.promises p)
  unfolding dismiss
  dismiss-promises p = rw kept.1 (ground arith)
