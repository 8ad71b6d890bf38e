-- ===== src/Pool/Destroyed.antt =====
-- The destructor comes to its end, and loses nobody.
use protei_cov.Prelude.{ℕ, ◌≡◌, ◌≤◌, ◌<◌, refl, true, List, ◌⊎◌, inl, inr, All, Any, arith}
use protei_cov.Effects.{ok}
use protei_cov.Task.{Distribution}
use protei_cov.Task.Laws.{InBounds}
use protei_cov.Queue.{Queue}
use protei_cov.Queue.Valid.{promise_of}
use protei_cov.Pool.Defs.{System, Worker, looping, waiting, working, gone, set_pool}
use protei_cov.Pool.Join.{Turn, destroy, Joined, stop_threads}
use protei_cov.Pool.Kept.{Holds, SameLine}
use protei_cov.Pool.Placed.{IsTold, Placed, queued, held, answered}
use protei_cov.Pool.Joining.{Fit, rank, count, turns-Runs}
use native.Mathlib.Decide.{dec_lt}

-- A client whose call waits in the queue, or who has the answer.
abbrev pub Settled : ℕ → Queue → System → Type 0
Settled p q s = Any (λ y. promise_of s.world y ≡ p) q.items ⊎ IsTold p s.world

rank-le : (k : Worker) → rank k ≤ 3
rank-le looping = omega arith
rank-le waiting = omega arith
rank-le (working x) = omega arith
rank-le gone = omega arith

at_end : (k : Worker) → rank k ≡ 0 → k ≡ gone
at_end gone h = refl
at_end looping h = absurd (omega arith)
at_end (working x) h = absurd (omega arith)
at_end waiting h = absurd (omega arith)

pub record Destroyed (d : Distribution) (n : ℕ) (q : Queue) (ts : List Turn) (s : System)
    : Type 0 where
  pub end : System
  pub returns : destroy d ts s ≡ (ok tt, end)
  pub joined : Joined end.pool
  pub queue : Queue
  pub holds : Holds n queue end
  pub line : SameLine q queue
  pub calm : s.pool.paused ≡ true → queue ≡ q
  pub settled : (p : ℕ) → Placed p q.items s.pool.workers s.world → Settled p queue end

no_hands :
    {n p : ℕ} {q : Queue} {s : System}
    → Holds n q s
    → Joined s.pool
    → Placed p q.items s.pool.workers s.world
    → Settled p q s
no_hands h j (queued m) = inl m
no_hands h j (answered t) = inr t
no_hands {s} h j (held i x e m) = elim (dec_lt i s.pool.size) [
  | yes lt ↦ let f = j i lt in absurd (cc)
  | no ge ↦ let f = h.outside i (omega arith) in absurd (cc)
]

-- The destructor of a pool that keeps the invariant, with a random device that works, is over once
-- each of its threads has had three turns, in any order and with any others between: all threads are
-- out of `run`, nothing was thrown, each client whose call waited, was in a hand or was answered is in
-- the queue still or has its answer, and the queue of a paused pool is as it was.
pub destroy-Destroyed :
    (d : Distribution) (n : ℕ) (q : Queue) (ts : List Turn) (s : System)
    → InBounds d
    → Holds n q s
    → All (Fit s.pool.size) ts
    → ((i : ℕ) → i < s.pool.size → 3 ≤ count i ts)
    → Destroyed d n q ts s
unfolding destroy
destroy-Destroyed d n q ts s inside h fit often =
    let start = set_pool stop_threads s in
    let r =
      turns-Runs d inside n ts q start (record { here = h.here; inv = h.inv; outside = h.outside })
        fit in
    let joined : Joined r.end.pool = λ i lt. at_end (r.end.pool.workers i) (
      omega
        (arith, r.nearer refl i, rank-le (s.pool.workers i), often i (rw r.flags.size at lt))) in
    record {
      end = r.end;
      returns = r.returns;
      joined = joined;
      queue = r.kept.queue;
      holds = r.kept.holds;
      line = r.kept.line;
      calm = r.kept.calm;
      settled = λ p m. no_hands r.kept.holds joined (r.kept.placed p m);
    }
