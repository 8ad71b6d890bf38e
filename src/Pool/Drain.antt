-- ===== src/Pool/Drain.antt =====
-- One operator empties the queue of a running pool.
use protei_cov.Prelude.{
  ℕ, zero, suc, ◌≡◌, ◌≢◌, refl, sym, ap, ◌∙◌, subst, List, [], ◌∷◌, some, All, All-map, All-zip,
  AllPairs, length, arith,
}
use protei_cov.Effects.{ok, Exec, pure, ◌>>◌, Outcome, >>=-ok}
use protei_cov.CallRecord.{CallResult}
use protei_cov.World.{Task, World, value}
use protei_cov.Task.{Readings, Distribution, get_number}
use protei_cov.Task.Laws.{InBounds, Verdict}
use protei_cov.Queue.{Item}
use protei_cov.Queue.Valid.{promise_of, Waits, Apart, IsValid}
use protei_cov.Pool.Defs.{System}
use protei_cov.Pool.Rounds.{Ready, Runs, Round, round, round-Round}

-- A call that another call's round leaves as it is.
abbrev Same : World → World → Item → Type 0
Same w w' y = w'.tasks y.0 ≡ w.tasks y.0

Same-Apart :
    (w w' : World) (ys : List Item)
    → All (Same w w') ys
    → AllPairs (Apart w) ys
    → AllPairs (Apart w') ys
unfolding get_number
Same-Apart w w' [] same a = tt
Same-Apart w w' (y ∷ ys) same a =
    (All-zip ys (λ z e h. ground (arith, same.0)) same.1 a.0, Same-Apart w w' ys same.1 a.1)

left-IsValid :
    (x : Item) (xs : List Item) (w w' : World)
    → IsValid (x ∷ xs) w
    → All (Same w w') xs
    → ((p : ℕ) → p ≢ promise_of w x → w'.promises p ≡ w.promises p)
    → IsValid xs w'
left-IsValid x xs w w' v same others =
    let both : All (λ y. Apart w x y × Waits w y) xs =
      All-zip xs (λ y a b. (a, b)) v.apart.0 v.waiting.1 in
    record {
      waiting =
          All-zip xs
            (λ y e h.
              ap (λ t. w'.promises t.promise) e
              ∙ others (promise_of w y) (λ q. h.0.1 (sym q))
              ∙ h.1)
            same both;
      apart = Same-Apart w w' xs same v.apart.1;
    }

module _ (d : Distribution) (i thread : ℕ) (inside : InBounds d) (env : ℕ → Readings) (seed : ℕ → ℕ)
    (random : (n : ℕ) → (env n).entropy ≡ some (seed n)) where
  abbrev pub rounds : ℕ → Exec System (Unit {0})
  rounds zero = pure tt
  rounds (suc n) = round d i thread (env n) >> rounds n

  -- A call's client has been given what doTask found in one of the rounds.
  abbrev pub Answered : World → World → Item → Type 0
  Answered w w' x =
      (n : ℕ) × (r : CallResult) × (w'.promises (promise_of w x) ≡ value r)
      × Verdict (w.tasks x.0) (env n) r.status r.call_duration

  own : {u v : Task} → u ≡ v → u.promise ≡ v.promise
  own = ap (λ t. t.promise)

  later : (w w' w'' : World) (y : Item) → Same w w' y → Answered w' w'' y → Answered w w'' y
  later w w' w'' y e (n, r, a, v) = (
    n,
    r,
    subst (λ t. w''.promises t.promise ≡ value r) e a,
    subst (λ t. Verdict t (env n) r.status r.call_duration) e v,
  )

  -- How a run ends that serves all of `xs`: it throws nothing, no call waits and the operator is
  -- free, each client of `xs` is answered and nobody else is.
  pub record Drains (xs : List Item) (s : System) (o : Outcome (Unit {0}) × System) : Type 0 where
    pub returns : o.0 ≡ ok tt
    pub runs : Runs i [] o.1
    pub answered : All (Answered s.world o.1.world) xs
    pub others :
        (p : ℕ) → All (λ x. p ≢ promise_of s.world x) xs → o.1.world.promises p ≡ s.world.promises p

  -- One round, and then a run that serves the rest.
  joined_run :
      (n : ℕ) (x : Item) (xs : List Item) (s s1 : System) (o : Outcome (Unit {0}) × System)
      → Round d i thread (env n) x xs s s1
      → All (Apart s.world x) xs
      → All (Same s.world s1.world) xs
      → Drains xs s1 o
      → Drains (x ∷ xs) s o
  joined_run n x xs s s1 o one apart same rest =
      let (found, told, verdict) = one.answered in
      record {
        returns = rest.returns;
        runs = rest.runs;
        answered = (
          (
            n,
            found,
            rest.others (promise_of s.world x) (All-zip xs (λ y a b q. b.1 (q ∙ own a)) same apart)
                ∙ told,
            verdict,
          ),
          All-zip xs (λ y a b. later s.world s1.world o.1.world y a b) same rest.answered,
        );
        others = λ p h.
            rest.others p (All-zip xs (λ y a b q. b (q ∙ own a)) same h.1) ∙ one.others p h.0;
      }

  -- A pool runs, its queue is valid, its calls can be served and the random device works, with lengths
  -- drawn within their bounds: then an operator that takes as many
  -- rounds as there are calls waiting throws nothing and leaves the queue empty and itself free, with
  -- each waiting client given the verdict of doTask on its call, and no other client answered.
  pub rounds_answer :
      (xs : List Item) (s : System)
      → Runs i xs s
      → IsValid xs s.world
      → All (Ready s.world) xs
      → Drains xs s (rounds (length xs) s)
  rounds_answer [] s r v ready = record {
    returns = refl;
    runs = r;
    answered = tt;
    others = λ p h. refl;
  }
  rounds_answer (x ∷ xs) s r v ready =
      let n = length xs in
      let (s1, e, o) =
        round-Round d i thread inside (env n) (seed n) (random n) x xs s r ready.0 v.waiting.0 in
      let same =
        All-map xs (λ y a. o.tasks y.0 (λ q. a.1 (ap (λ t. (s.world.tasks t).promise) (sym q))))
          v.apart.0 in
      let rest =
        rounds_answer xs s1 o.runs (left-IsValid x xs s.world s1.world v same o.others)
          (All-zip xs (λ y a b. rw a b) same ready.1) in
      subst (Drains (x ∷ xs) s) (sym (>>=-ok (round d i thread (env n)) (λ u. rounds n) e))
        (joined_run n x xs s s1 (rounds n s1) o v.apart.0 same rest)
