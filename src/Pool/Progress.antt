-- ===== src/Pool/Progress.antt =====
-- How far a running pool is from the end of its work.
use protei_cov.Prelude.{
  ℕ, ◌+◌, ◌-◌, ◌*◌, ◌≡◌, ◌≢◌, ◌≤◌, ◌<◌, sym, ap, ◌∙◌, subst, false, some, length, inl, inr, ◌==◌,
  if◌then◌else◌, Bool-cases, arith,
}
use protei_cov.World.{update}
use protei_cov.Queue.{Queue}
use protei_cov.Pool.Defs.{System, Worker, looping, waiting, working, gone}
use protei_cov.Pool.Alike.{update_cases}
use protei_cov.Pool.Moves.{Moves, Stays, Goes, Takes, Serves, rests, goes, takes, serves}

-- A pool that runs, with none of its workers gone.
pub record IsRunning (s : System) : Type 0 where
  pub not_stopped : s.pool.stopped ≡ false
  pub not_paused : s.pool.paused ≡ false
  pub not_draining : s.pool.wait_for_completion ≡ false
  pub staffed : 0 < s.pool.size
  pub present : (j : ℕ) → s.pool.workers j ≢ gone

-- How many turns of its own a worker needs at most before it rests on an empty queue.
abbrev pub stage : Worker → ℕ
stage gone = 0
stage waiting = 0
stage looping = 1
stage (working x) = 2

abbrev pub work : Queue → Worker → ℕ
work q k = 3 * length q.items + stage k

module _ (f g : ℕ → Worker) (i : ℕ) (k : Worker) (same : g ≡ update f i k) where
  less_work :
      (a b : ℕ)
      → b ≤ a
      → 3 * b + stage k ≤ 3 * a + stage (f i) - 1
      → (j : ℕ) → 3 * b + stage (g j) ≤ 3 * a + stage (f j) - (if i == j then 1 else 0)
  less_work a b le h j = elim (update_cases f i k j) [
    | inl (ij, e) ↦ rw same (ground (arith, ap stage e))
    | inr (ne, e) ↦ rw same (ground (arith, ap stage e))
  ]

  still_present : k ≢ gone → ((j : ℕ) → f j ≢ gone) → (j : ℕ) → g j ≢ gone
  still_present here h j e = elim (update_cases f i k j) [
    | inl (_, a) ↦ here (sym a ∙ sym (ap (λ u. u j) same) ∙ e)
    | inr (_, a) ↦ h j (sym a ∙ sym (ap (λ u. u j) same) ∙ e)
  ]

-- One move: the worker that moves has less work left, and no other one more.
pub record Progress (i : ℕ) (q q' : Queue) (s s' : System) : Type 0 where
  pub running : (j : ℕ) → s'.pool.workers j ≢ gone
  pub less :
      (j : ℕ) → work q' (s'.pool.workers j) ≤ work q (s.pool.workers j) - (if i == j then 1 else 0)

same_queue :
    {q q' : Queue} (s : System) → s.pool.task_queue ≡ some q → s.pool.task_queue ≡ some q' → q ≡ q'
same_queue s a b = let f = sym a ∙ b in cc

module _ {i : ℕ} {q q' : Queue} {s s' : System} (r : IsRunning s)
    (before : s.pool.task_queue ≡ some q) (here : s'.pool.task_queue ≡ some q') where
  moved :
      (k : Worker)
      → s'.pool.workers ≡ update s.pool.workers i k
      → k ≢ gone
      → length q'.items ≤ length q.items
      → work q' k ≤ work q (s.pool.workers i) - 1
      → Progress i q q' s s'
  moved k same stays le h = record {
    running = still_present s.pool.workers s'.pool.workers i k same stays r.present;
    less =
        less_work s.pool.workers s'.pool.workers i k same (length q.items) (length q'.items) le h;
  }

  rests-Progress : s' ≡ s → Stays i q s → Progress i q q' s s'
  rests-Progress e (inl g) = absurd (r.present i g)
  rests-Progress e (inr (_, w, inr p)) = absurd (let f = sym r.not_paused ∙ p in cc)
  rests-Progress e (inr (_, w, inl none_left)) =
      let eq : q ≡ q' = same_queue s before (subst (λ u. u.pool.task_queue ≡ some q') e here) in
      record {
        running = rw e r.present;
        less = λ j.
            rw (← eq, e)
              (elim (Bool-cases (i == j)) [
                | inl ij ↦
                    let same_i : i ≡ j = ground arith in
                    let at_i : stage (s.pool.workers j) ≡ 0 =
                      subst (λ u. stage (s.pool.workers u) ≡ 0) same_i (ap stage w) in
                    ground (arith, ap (λ u. length u) none_left)
                | inr ij ↦ ground arith
              ]);
      }

  Goes-Progress : Goes i q s s' → Progress i q q' s s'
  Goes-Progress g =
      let same = ap (λ u. length u.items) (same_queue s' g.queue here) in
      elim g.from_to [
        | inl (a, b) ↦
            let next : g.next ≡ waiting = b ∙ ap (λ u. if u then gone else waiting) r.not_stopped in
            moved g.next g.workers (λ e. let f = sym next ∙ e in cc) (omega (arith, same))
              (omega (arith, same, ap stage next, ap stage a))
        | inr (a, b, _) ↦ absurd (let f = sym r.not_stopped ∙ b in cc)
      ]

  Takes-Progress : Takes i q s s' → Progress i q q' s s'
  Takes-Progress t =
      let same = ap (λ u. length u.items) (same_queue s' t.queue here) in
      let one = ap (λ u. length u) t.items in
      moved (working t.first) t.workers (λ e. cc) (omega (arith, same, one))
        (omega (arith, same, one, ap stage t.was))

  Serves-Progress : Serves i q s s' → Progress i q q' s s'
  Serves-Progress v =
      let same = ap (λ u. length u.items) (same_queue s' v.queue here) in
      elim v.is_next [
        | inl a ↦
            moved v.next v.workers (λ e. let f = sym a ∙ e in cc) (omega (arith, same))
              (omega (arith, same, ap stage a, ap stage v.was))
        | inr (_, b) ↦ absurd (let f = sym r.not_draining ∙ b in cc)
      ]

  pub Moves-Progress : Moves i q s s' → Progress i q q' s s'
  Moves-Progress (rests e k) = rests-Progress e k
  Moves-Progress (goes g) = Goes-Progress g
  Moves-Progress (takes t) = Takes-Progress t
  Moves-Progress (serves v) = Serves-Progress v
