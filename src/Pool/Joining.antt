-- ===== src/Pool/Joining.antt =====
-- Runs of the workers, and the end of the destructor.
use protei_cov.Prelude.{
  ℕ, ◌+◌, ◌-◌, ◌≡◌, ◌<◌, ◌≤◌, refl, ap, ◌∙◌, Bool, true, some, List, [], ◌∷◌, ◌⊎◌, inl, inr, All,
  ◌==◌, if◌then◌else◌, arith,
}
use protei_cov.Effects.{ok, >>=-ok}
use protei_cov.World.{update}
use protei_cov.Task.{Distribution}
use protei_cov.Task.Laws.{InBounds}
use protei_cov.Queue.{Queue}
use protei_cov.Pool.Defs.{ThreadPool, System, Worker, looping, waiting, working, gone, turn}
use protei_cov.Pool.Join.{Turn, turns}
use protei_cov.Pool.Alike.{update_cases}
use protei_cov.Pool.Moves.{SameFlags, Moves, rests, goes, takes, serves}
use protei_cov.Pool.Progress.{IsRunning, work, Moves-Progress}
use protei_cov.Pool.Turn.{turn-Moves}
use protei_cov.Pool.Kept.{Holds, same_line}
use protei_cov.Pool.Placed.{Kept, Moves-Kept}

-- A turn of a thread that the pool has, where the random device works.
abbrev pub Fit : ℕ → Turn → Type 0
Fit size t = (t.worker < size) × ((seed : ℕ) × (t.env.entropy ≡ some seed))

-- How many moves a worker is from the end of `run`, at most, once the pool is stopped.
abbrev pub rank : Worker → ℕ
rank gone = 0
rank looping = 1
rank (working x) = 2
rank waiting = 3

-- How many of the turns are worker `i`'s.
abbrev pub count : ℕ → List Turn → ℕ
count i [] = 0
count i (t ∷ ts) = (if t.worker == i then 1 else 0) + count i ts

Kept-trans :
    {n : ℕ} {q : Queue} {s s1 s2 : System} (k : Kept n q s s1)
    → SameFlags s.pool s1.pool
    → Kept n k.queue s1 s2
    → Kept n q s s2
Kept-trans k f l = record {
  queue = l.queue;
  holds = l.holds;
  line = record {
    size = l.line.size ∙ k.line.size;
    recorders = l.line.recorders ∙ k.line.recorders;
  };
  calm = λ e. l.calm (f.paused ∙ e) ∙ k.calm e;
  placed = λ p m. l.placed p (k.placed p m);
}

SameFlags-trans : {p p1 p2 : ThreadPool} → SameFlags p p1 → SameFlags p1 p2 → SameFlags p p2
SameFlags-trans a b = record {
  size = b.size ∙ a.size;
  stopped = b.stopped ∙ a.stopped;
  paused = b.paused ∙ a.paused;
  draining = b.draining ∙ a.draining;
}

goes_down :
    (stopped : Bool) (k k' : Worker)
    → stopped ≡ true
    → ((k ≡ looping) × (k' ≡ (if stopped then gone else waiting)))
      ⊎ ((k ≡ waiting) × (stopped ≡ true) × (k' ≡ looping))
    → rank k' ≤ rank k - 1
goes_down stopped k k' stop (inl (a, b)) = rw (a, b, stop) (omega arith)
goes_down stopped k k' stop (inr (a, _, b)) = rw (a, b) (omega arith)

after_call : {A : Type 0} (k : Worker) → (k ≡ looping) ⊎ ((k ≡ gone) × A) → rank k ≤ 1
after_call k (inl a) = rw a (omega arith)
after_call k (inr (a, _)) = rw a (omega arith)

one_nearer :
    (f g : ℕ → Worker) (i : ℕ) (k : Worker)
    → g ≡ update f i k
    → rank k ≤ rank (f i) - 1
    → (j : ℕ) → rank (g j) ≤ rank (f j) - (if i == j then 1 else 0)
one_nearer f g i k e h j = elim (update_cases f i k j) [
  | inl (ij, a) ↦ rw e (ground (arith, ap rank a))
  | inr (ne, a) ↦ rw e (ground (arith, ap rank a))
]

-- In a stopped pool a move brings its worker nearer to the end, and no other one.
Moves-rank :
    {i : ℕ} {q : Queue} {s s' : System}
    → Moves i q s s'
    → s.pool.stopped ≡ true
    → (j : ℕ) → rank (s'.pool.workers j) ≤ rank (s.pool.workers j) - (if i == j then 1 else 0)
Moves-rank {i} {s} (rests e k) stop j = rw e (ground (arith, k))
Moves-rank {i} {s} {s'} (goes g) stop j =
    one_nearer s.pool.workers s'.pool.workers i g.next g.workers
      (goes_down s.pool.stopped (s.pool.workers i) g.next stop g.from_to) j
Moves-rank {i} {s} {s'} (takes t) stop j =
    one_nearer s.pool.workers s'.pool.workers i (working t.first) t.workers (rw t.was (omega arith))
      j
Moves-rank {i} {s} {s'} (serves g) stop j =
    one_nearer s.pool.workers s'.pool.workers i g.next g.workers
      (rw g.was (after_call g.next g.is_next)) j

module _ (d : Distribution) (inside : InBounds d) where
  -- A run of the workers: it throws nothing, and keeps the invariant.
  pub record Runs (n : ℕ) (q : Queue) (ts : List Turn) (s : System) : Type 0 where
    pub end : System
    pub returns : turns d ts s ≡ (ok tt, end)
    pub kept : Kept n q s end
    pub flags : SameFlags s.pool end.pool
    pub nearer :
        s.pool.stopped ≡ true
        → (i : ℕ) → rank (end.pool.workers i) ≤ rank (s.pool.workers i) - count i ts
    pub busy :
        IsRunning s
        → IsRunning end
          × ((j : ℕ)
              → work kept.queue (end.pool.workers j) ≤ work q (s.pool.workers j) - count j ts)

  pub turns-Runs :
      (n : ℕ) (ts : List Turn) (q : Queue) (s : System)
      → Holds n q s
      → All (Fit s.pool.size) ts
      → Runs n q ts s
  unfolding turns Kept-trans
  turns-Runs n [] q s h fit = record {
    end = s;
    returns = refl;
    kept = record { queue = q; holds = h; line = same_line q; calm = λ e. refl; placed = λ p m. m };
    flags = record { size = refl; stopped = refl; paused = refl; draining = refl };
    nearer = λ e i. omega arith;
    busy = λ r. (r, λ j. omega arith);
  }
  turns-Runs n (t ∷ ts) q s h ((lt, (seed, random)), fit) =
      let (s1, e, f, m) =
        turn-Moves d t.worker t.thread t.env s q h.here n seed inside random h.inv in
      let k = Moves-Kept h lt f.size m in
      let r = turns-Runs n ts k.queue s1 k.holds (rw f.size fit) in
      record {
        end = r.end;
        returns = >>=-ok (turn d t.worker t.thread t.env) (λ _. turns d ts) e ∙ r.returns;
        kept = Kept-trans k f r.kept;
        flags = SameFlags-trans f r.flags;
        busy = λ run.
            let p = Moves-Progress run h.here k.holds.here m in
            let (running, less) = r.busy (record {
              not_stopped = f.stopped ∙ run.not_stopped;
              not_paused = f.paused ∙ run.not_paused;
              not_draining = f.draining ∙ run.not_draining;
              staffed = rw f.size run.staffed;
              present = p.running;
            }) in
            (running, λ j. ground (arith, less j, p.less j));
        nearer = λ stop i. ground (arith, r.nearer (f.stopped ∙ stop) i, Moves-rank m stop i);
      }
