-- ===== src/Pool/Placed.antt =====
-- No client is lost by a move of a worker.
use protei_cov.Prelude.{
  ℕ, ◌≡◌, ◌≢◌, ◌<◌, refl, sym, ap, ◌∙◌, subst, List, ◌∷◌, ◌⊎◌, inl, inr, Any, Any-zip, Any-map,
  true, arith, Bool-cases, ◌==◌, ℤ,
}
use protei_cov.CallRecord.{CallStatus, completed, timeout, duplication, overloaded, CallResult}
use protei_cov.World.{Task, World, value, update}
use protei_cov.Task.{Readings}
use protei_cov.Task.Laws.{Verdict}
use protei_cov.Queue.{Item, Queue}
use protei_cov.Queue.Valid.{promise_of}
use protei_cov.Pool.Defs.{System, Worker, looping, waiting, working}
use protei_cov.Pool.Alike.{Alike, update_cases}
use protei_cov.Pool.Invariant.{working_injective}
use protei_cov.Pool.Moves.{Takes, Serves, Goes, Moves, rests, goes, takes, serves}
use protei_cov.Pool.Kept.{
  Holds, SameLine, same_line, Goes-Holds, Takes-Holds, Serves-Holds, assigned-Alike, served-Alike,
}

-- The states of a call that clients are told.
abbrev pub IsAnswer : CallStatus → Type 0
IsAnswer k = (k ≡ completed) ⊎ (k ≡ timeout) ⊎ (k ≡ duplication) ⊎ (k ≡ overloaded)

-- The client of the promise `p` has its result.
abbrev pub IsTold : ℕ → World → Type 0
IsTold p w = (r : CallResult) × (w.promises p ≡ value r) × IsAnswer r.status

Verdict-IsAnswer :
    (v : Task) (env : Readings) (k : CallStatus) (z : ℤ) → Verdict v env k z → IsAnswer k
Verdict-IsAnswer v env k z (inl (_, e, _, _)) = inl e
Verdict-IsAnswer v env k z (inr (_, e, _)) = inr (inl e)

-- Where the client of the promise `p` stands: its call waits, is in some hand, or is answered.
pub data Placed (p : ℕ) (items : List Item) (workers : ℕ → Worker) (w : World) : Type 0 where
  queued : Any (λ y. promise_of w y ≡ p) items → Placed p items workers w
  held : (i : ℕ) (x : Item) → workers i ≡ working x → promise_of w x ≡ p → Placed p items workers w
  answered : IsTold p w → Placed p items workers w

-- The client's call in the queue or in a hand, carried over to another world.
abbrev Mine : ℕ → World → Item → Type 0
Mine p w y = promise_of w y ≡ p

Mine-Alike : {p : ℕ} {w w' : World} {y : Item} → Alike w w' y → Mine p w y → Mine p w' y
Mine-Alike a m = a.promise ∙ m

-- What one worker does leaves every other hand as it is.
still_held :
    (workers : ℕ → Worker) (i : ℕ) (k : Worker) (j : ℕ) (x : Item)
    → i ≢ j
    → workers j ≡ working x
    → update workers i k j ≡ working x
still_held workers i k j x ne e = elim (update_cases workers i k j) [
  | inl (same, _) ↦ absurd (ne same)
  | inr (_, a) ↦ a ∙ e
]

not_in_hand :
    (workers : ℕ → Worker) (i j : ℕ) (x : Item)
    → (workers i ≡ looping) ⊎ (workers i ≡ waiting)
    → workers j ≡ working x
    → i ≢ j
not_in_hand workers i j x (inl a) e ij = let f = ap workers ij in cc
not_in_hand workers i j x (inr a) e ij = let f = ap workers ij in cc

eq_of : {a b : ℕ} → (a == b) ≡ true → a ≡ b
eq_of e = ground arith

tells :
    {i : ℕ} {q : Queue} {s s' : System}
    → (g : Serves i q s s') → IsTold (promise_of s.world g.call) s'.world
tells {s} g = (
  g.result,
  g.answered,
  Verdict-IsAnswer (s.world.tasks g.call.0) g.env g.result.status g.result.call_duration g.verdict,
)

module _ {i p : ℕ} {q : Queue} {s s' : System} where
  Goes-Placed :
      Goes i q s s'
      → Placed p q.items s.pool.workers s.world
      → Placed p q.items s'.pool.workers s'.world
  Goes-Placed g (queued m) = queued (rw g.world m)
  Goes-Placed g (held j x e m) =
      let was : (s.pool.workers i ≡ looping) ⊎ (s.pool.workers i ≡ waiting) = elim g.from_to [
        | inl a ↦ inl a.0
        | inr a ↦ inr a.0
      ] in
      held j x
        (rw g.workers
          (still_held s.pool.workers i g.next j x (not_in_hand s.pool.workers i j x was e) e))
        (rw g.world m)
  Goes-Placed g (answered t) = answered (rw g.world t)

  Takes-Placed :
      (t : Takes i q s s')
      → Placed p q.items s.pool.workers s.world
      → Placed p t.others s'.pool.workers s'.world
  Takes-Placed t (queued m) =
      let a : (y : Item) → Mine p s.world y → Mine p s'.world y =
        λ y k. rw t.world (Mine-Alike (assigned-Alike t.first.0 t.thread s.world y) k) in
      let m' : Any (Mine p s.world) (t.first ∷ t.others) = rw t.items at m in
      elim m' [
        | inl here ↦ held i t.first (rw t.workers (ground arith)) (a t.first here)
        | inr there ↦ queued (Any-map t.others a there)
      ]
  Takes-Placed t (held j x e m) =
      held j x
        (rw t.workers (
          still_held s.pool.workers i (working t.first) j x
            (not_in_hand s.pool.workers i j x (inr t.was) e) e))
        (rw t.world (Mine-Alike (assigned-Alike t.first.0 t.thread s.world x) m))
  Takes-Placed t (answered told) = answered (rw t.world told)

  Serves-Placed :
      {n : ℕ}
      → Holds n q s
      → (g : Serves i q s s') → Placed p q.items s.pool.workers s.world
      → Placed p q.items s'.pool.workers s'.world
  Serves-Placed h g (queued m) = queued (
      Any-zip q.items (λ y own k. Mine-Alike (served-Alike h g y own) k)
        (h.inv.held_queued i g.call g.was) m)
  Serves-Placed h g (held j x e m) = elim (Bool-cases (i == j)) [
    | inl ij ↦
        let same = working_injective g.call x (sym g.was ∙ ap s.pool.workers (eq_of ij) ∙ e) in
        answered (subst (λ u. IsTold u s'.world) (ap (promise_of s.world) same ∙ m) (tells g))
    | inr ij ↦
        let ne : i ≢ j = ground arith in
        held j x (rw g.workers (still_held s.pool.workers i g.next j x ne e))
          (Mine-Alike (served-Alike h g x (h.inv.held_held i j g.call x ne g.was e)) m)
  ]
  Serves-Placed h g (answered (r, e, k)) = elim (Bool-cases (p == promise_of s.world g.call)) [
    | inl same ↦ answered (subst (λ u. IsTold u s'.world) (sym (eq_of same)) (tells g))
    | inr other ↦ answered (r, g.promises p (ground arith) ∙ e, k)
  ]

-- What a move leaves: the invariant, a queue of the same bound and recorders, the same one in a paused
-- pool, and each client placed that was.
pub record Kept (n : ℕ) (q : Queue) (s s' : System) : Type 0 where
  pub queue : Queue
  pub holds : Holds n queue s'
  pub line : SameLine q queue
  pub calm : s.pool.paused ≡ true → queue ≡ q
  pub placed :
      (p : ℕ)
      → Placed p q.items s.pool.workers s.world
      → Placed p queue.items s'.pool.workers s'.world

module _ {n i : ℕ} {q : Queue} {s s' : System} (h : Holds n q s) (lt : i < s.pool.size)
    (same : s'.pool.size ≡ s.pool.size) where
  pub Moves-Kept : Moves i q s s' → Kept n q s s'
  Moves-Kept (rests e k) =
      subst (Kept n q s) (sym e)
        (record { queue = q; holds = h; line = same_line q; calm = λ e. refl; placed = λ p m. m })
  Moves-Kept (goes g) = record {
    queue = q;
    holds = Goes-Holds h lt same g;
    line = same_line q;
    calm = λ e. refl;
    placed = λ p m. Goes-Placed g m;
  }
  Moves-Kept (takes t) = record {
    queue = record q { items = t.others };
    holds = Takes-Holds h lt same t;
    line = record { size = refl; recorders = refl };
    calm = λ e. cc t.allowed;
    placed = λ p m. Takes-Placed t m;
  }
  Moves-Kept (serves g) = record {
    queue = q;
    holds = Serves-Holds h lt same g;
    line = same_line q;
    calm = λ e. refl;
    placed = λ p m. Serves-Placed h g m;
  }
