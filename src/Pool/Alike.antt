-- ===== src/Pool/Alike.antt =====
-- What the invariant reads of a call, and that it is kept where those parts of the world are.
use protei_cov.Prelude.{
  ℕ, suc, ◌≡◌, ◌≢◌, ◌<◌, sym, ap, ◌∙◌, List, [], ◌∷◌, All, All-zip, AllPairs, arith, ◌⊎◌, inl, inr,
  Bool-cases, ◌==◌,
}
use protei_cov.World.{World, update}
use protei_cov.Task.{get_number}
use protei_cov.Queue.{Item}
use protei_cov.Queue.Valid.{promise_of, Waits, Apart, OwnPromise}
use protei_cov.Pool.Rounds.{Ready}

-- A call that stands below the pointer `n`, can be served, and whose client waits.
pub record IsOpen (n : ℕ) (w : World) (x : Item) : Type 0 where
  pub waits : Waits w x
  pub ready : Ready w x
  pub task_below : x.0 < n
  pub promise_below : promise_of w x < n

pub record Alike (w w' : World) (x : Item) : Type 0 where
  pub promise : (w'.tasks x.0).promise ≡ (w.tasks x.0).promise
  pub number : get_number x.0 w' ≡ get_number x.0 w
  pub logger : (w'.tasks x.0).has_logger ≡ (w.tasks x.0).has_logger
  pub r_min : (w'.tasks x.0).r_min ≡ (w.tasks x.0).r_min
  pub r_max : (w'.tasks x.0).r_max ≡ (w.tasks x.0).r_max
  pub client : w'.promises (promise_of w x) ≡ w.promises (promise_of w x)

module _ {w w' : World} where
  pub Alike-IsOpen : {n : ℕ} {x : Item} → Alike w w' x → IsOpen n w x → IsOpen n w' x
  Alike-IsOpen {x} a o = record {
    waits = ap w'.promises a.promise ∙ a.client ∙ o.waits;
    ready = (a.logger ∙ o.ready.0, rw (a.r_min, a.r_max) o.ready.1);
    task_below = o.task_below;
    promise_below = rw a.promise o.promise_below;
  }

  pub Alike-OwnPromise :
      {x y : Item} → Alike w w' x → Alike w w' y → OwnPromise w x y → OwnPromise w' x y
  Alike-OwnPromise a b h q = h (sym a.promise ∙ q ∙ b.promise)

  pub Alike-Apart : {x y : Item} → Alike w w' x → Alike w w' y → Apart w x y → Apart w' x y
  Alike-Apart a b h = (λ q. h.0 (sym a.number ∙ q ∙ b.number), Alike-OwnPromise a b h.1)

pub Alike-AllPairs :
    (w w' : World) (xs : List Item)
    → All (Alike w w') xs
    → AllPairs (Apart w) xs
    → AllPairs (Apart w') xs
Alike-AllPairs w w' [] a h = tt
Alike-AllPairs w w' (x ∷ xs) a h =
    (All-zip xs (λ y b k. Alike-Apart a.0 b k) a.1 h.0, Alike-AllPairs w w' xs a.1 h.1)

pub IsOpen-suc : {n : ℕ} {w : World} {x : Item} → IsOpen n w x → IsOpen (suc n) w x
IsOpen-suc o = record {
  waits = o.waits;
  ready = o.ready;
  task_below = omega (arith, o.task_below);
  promise_below = omega (arith, o.promise_below);
}

-- A call of which nothing has changed.
pub untouched-Alike :
    {w w' : World} {x : Item}
    → w'.tasks x.0 ≡ w.tasks x.0
    → w'.promises (promise_of w x) ≡ w.promises (promise_of w x)
    → Alike w w' x
unfolding get_number
untouched-Alike e c = record {
  promise = ap (λ v. v.promise) e;
  number = ap (λ v. v.number) e;
  logger = ap (λ v. v.has_logger) e;
  r_min = ap (λ v. v.r_min) e;
  r_max = ap (λ v. v.r_max) e;
  client = c;
}

pub update_cases :
    {A : Type 0} (f : ℕ → A) (i : ℕ) (v : A) (j : ℕ)
    → ((i ≡ j) × (update f i v j ≡ v)) ⊎ ((i ≢ j) × (update f i v j ≡ f j))
update_cases f i v j = elim (Bool-cases (i == j)) [
  | inl e ↦ inl (ground arith, ground arith)
  | inr e ↦ inr (ground arith, ground arith)
]
