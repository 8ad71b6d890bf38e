-- ===== src/Pool/Kept.antt =====
-- Every move of a worker keeps the invariant.
use protei_cov.Prelude.{
  ℕ, ◌≡◌, ◌≢◌, ◌≤◌, ◌<◌, refl, sym, ap, ◌∙◌, subst, some, inl, inr, arith, All-map,
}
use protei_cov.World.{World, set_task, update}
use protei_cov.Task.{get_number}
use protei_cov.Queue.{Item, Queue}
use protei_cov.Queue.Valid.{promise_of, OwnPromise}
use protei_cov.Pool.Defs.{ThreadPool, System, Worker, looping, working}
use protei_cov.Pool.Rounds.{assigned}
use protei_cov.Pool.Alike.{Alike, untouched-Alike, update_cases}
use protei_cov.Pool.Invariant.{Inv, Inv-world, Inv-free, Inv-take}
use protei_cov.Pool.Moves.{Takes, Serves, Goes}

-- The invariant of a system whose pool has the queue `q`. Behind its threads there are no workers.
pub record Holds (n : ℕ) (q : Queue) (s : System) : Type 0 where
  pub here : s.pool.task_queue ≡ some q
  pub inv : Inv n q.items s.pool.workers s.world
  pub outside : (i : ℕ) → s.pool.size ≤ i → s.pool.workers i ≡ looping

-- The queues that a move can leave.
pub record SameLine (q q' : Queue) : Type 0 where
  pub size : q'.size_of_queue ≡ q.size_of_queue
  pub recorders : q'.recorders ≡ q.recorders

abbrev pub same_line : (q : Queue) → SameLine q q
same_line q = record { size = refl; recorders = refl }

pub assigned-Alike :
    (t thread : ℕ) (w : World) (x : Item) → Alike w (set_task t (assigned thread (w.tasks t)) w) x
unfolding get_number
assigned-Alike t thread w x = record {
  promise = ground arith;
  number = ground arith;
  logger = ground arith;
  r_min = ground arith;
  r_max = ground arith;
  client = refl;
}

outside_still :
    {n i : ℕ} {q : Queue} {s : System} (h : Holds n q s) (p' : ThreadPool) (k : Worker)
    → i < s.pool.size
    → p'.size ≡ s.pool.size
    → p'.workers ≡ update s.pool.workers i k
    → (j : ℕ) → p'.size ≤ j
    → p'.workers j ≡ looping
outside_still {i} {s} h p' k lt same e j le = elim (update_cases s.pool.workers i k j) [
  | inl (ij, _) ↦ absurd (omega arith)
  | inr (_, a) ↦ ap (λ f. f j) e ∙ a ∙ h.outside j (omega arith)
]

module _ {n i : ℕ} {q : Queue} {s s' : System} (h : Holds n q s) where
  pub Goes-Holds : i < s.pool.size → s'.pool.size ≡ s.pool.size → Goes i q s s' → Holds n q s'
  Goes-Holds lt same g = record {
    here = g.queue;
    inv = rw (g.workers, g.world) (Inv-free h.inv i g.next g.free);
    outside = outside_still h s'.pool g.next lt same g.workers;
  }

  pub Takes-Holds :
      i < s.pool.size
      → s'.pool.size ≡ s.pool.size
      → (t : Takes i q s s') → Holds n (record q { items = t.others }) s'
  Takes-Holds lt same t =
      let v =
        Inv-take t.first t.others (subst (λ xs. Inv n xs s.pool.workers s.world) t.items h.inv) i in
      let a = assigned-Alike t.first.0 t.thread s.world in
      record {
        here = t.queue;
        inv =
            rw (t.workers, t.world)
              (Inv-world v _ (All-map t.others (λ x o. a x) v.queued) (λ j x e. a x));
        outside = outside_still h s'.pool (working t.first) lt same t.workers;
      }

  -- A call on another promise than the one that is answered stays as it is.
  pub served-Alike :
      (g : Serves i q s s') (y : Item) → OwnPromise s.world g.call y → Alike s.world s'.world y
  served-Alike g y own =
      untouched-Alike (g.tasks y.0 (λ e. own (ap (λ t. (s.world.tasks t).promise) (sym e))))
        (g.promises (promise_of s.world y) (λ e. own (sym e)))

  -- The other workers hold the calls that they held.
  pub other_hands :
      (g : Serves i q s s') (j : ℕ) (y : Item)
      → update s.pool.workers i g.next j ≡ working y
      → (i ≢ j) × (s.pool.workers j ≡ working y)
  other_hands g j y e = elim (update_cases s.pool.workers i g.next j) [
    | inl (_, a) ↦ absurd (g.free y (sym a ∙ e))
    | inr (ne, a) ↦ (ne, sym a ∙ e)
  ]

  pub Serves-Holds : i < s.pool.size → s'.pool.size ≡ s.pool.size → Serves i q s s' → Holds n q s'
  Serves-Holds lt same g = record {
    here = g.queue;
    inv = rw g.workers (
        Inv-world (Inv-free h.inv i g.next g.free) s'.world
          (All-map q.items (λ y own. served-Alike g y own) (h.inv.held_queued i g.call g.was))
          (λ j y e.
            let (ne, k) = other_hands g j y e in
            served-Alike g y (h.inv.held_held i j g.call y ne g.was k)));
    outside = outside_still h s'.pool g.next lt same g.workers;
  }
