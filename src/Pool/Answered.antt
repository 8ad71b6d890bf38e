-- ===== src/Pool/Answered.antt =====
-- A running pool comes to the end of its work.
use protei_cov.Prelude.{
  ℕ, ◌+◌, ◌*◌, ◌≡◌, ◌≤◌, ◌<◌, refl, some, List, [], ◌∷◌, length, inl, inr, ◌⊎◌, All, arith,
}
use protei_cov.Effects.{ok}
use protei_cov.Task.{Distribution}
use protei_cov.Task.Laws.{InBounds}
use protei_cov.Queue.{Item, Queue}
use protei_cov.Pool.Defs.{System, Worker, looping, waiting, working, gone}
use protei_cov.Pool.Join.{Turn, turns}
use protei_cov.Pool.Kept.{Holds}
use protei_cov.Pool.Placed.{IsTold, Placed, queued, held, answered}
use protei_cov.Pool.Progress.{IsRunning, stage, work}
use protei_cov.Pool.Joining.{Fit, count, turns-Runs}
use native.Mathlib.Decide.{dec_lt}

stage-le : (k : Worker) → stage k ≤ 2
stage-le looping = omega arith
stage-le waiting = omega arith
stage-le (working x) = omega arith
stage-le gone = omega arith

resting : (k : Worker) → stage k ≡ 0 → (k ≡ gone) ⊎ (k ≡ waiting)
resting gone h = inl refl
resting waiting h = inr refl
resting looping h = absurd (omega arith)
resting (working x) h = absurd (omega arith)

none_left : (xs : List Item) → length xs ≡ 0 → xs ≡ []
none_left [] h = refl
none_left (x ∷ xs) h = absurd (omega arith)

-- The end of the work: an empty queue, every worker waiting, and everybody answered.
pub record AllAnswered (d : Distribution) (q : Queue) (ts : List Turn) (s : System) : Type 0 where
  pub end : System
  pub queue : Queue
  pub returns : turns d ts s ≡ (ok tt, end)
  pub here : end.pool.task_queue ≡ some queue
  pub empty : queue.items ≡ []
  pub at_rest : (j : ℕ) → j < s.pool.size → end.pool.workers j ≡ waiting
  pub told : (p : ℕ) → Placed p q.items s.pool.workers s.world → IsTold p end.world

all-IsTold :
    {n p : ℕ} {q : Queue} {s : System}
    → Holds n q s
    → q.items ≡ []
    → ((j : ℕ) → j < s.pool.size → s.pool.workers j ≡ waiting)
    → Placed p q.items s.pool.workers s.world
    → IsTold p s.world
all-IsTold h none w (answered t) = t
all-IsTold h none w (queued m) = absurd (rw none at m)
all-IsTold {s} h none w (held i x e m) = elim (dec_lt i s.pool.size) [
  | yes lt ↦ let f = w i lt in absurd (cc)
  | no ge ↦ let f = h.outside i (omega arith) in absurd (cc)
]

module _ (d : Distribution) (inside : InBounds d) (n : ℕ) (q : Queue) (ts : List Turn) (s : System)
    (h : Holds n q s) (run : IsRunning s) (fit : All (Fit s.pool.size) ts)
    (often : (j : ℕ) → j < s.pool.size → 3 * length q.items + 2 ≤ count j ts) where
  -- A pool that keeps the invariant and runs, with workers of whom none is gone and a random device
  -- that works, comes to the end of its work on every schedule, in any order, that gives each worker
  -- three turns for each call in the queue and two more: nothing is thrown, the queue is empty, every
  -- worker waits, and each client whose call was in the queue or in a hand, or who had a result, has a
  -- result.
  pub turns-AllAnswered : AllAnswered d q ts s
  turns-AllAnswered =
      let r = turns-Runs d inside n ts q s h fit in
      let (running, less) = r.busy run in
      let done : (j : ℕ) → j < s.pool.size → work r.kept.queue (r.end.pool.workers j) ≡ 0 =
        λ j lt. omega (arith, less j, often j lt, stage-le (s.pool.workers j)) in
      let empty = none_left r.kept.queue.items (omega (arith, done 0 run.staffed)) in
      let at_rest : (j : ℕ) → j < s.pool.size → r.end.pool.workers j ≡ waiting = λ j lt.
        elim (resting (r.end.pool.workers j) (omega (arith, done j lt))) [
          | inl g ↦ absurd (running.present j g)
          | inr w ↦ w
        ] in
      record {
        end = r.end;
        queue = r.kept.queue;
        returns = r.returns;
        here = r.kept.holds.here;
        empty = empty;
        at_rest = at_rest;
        told = λ p m.
            all-IsTold r.kept.holds empty (λ j lt. at_rest j (rw r.flags.size at lt))
              (r.kept.placed p m);
      }
