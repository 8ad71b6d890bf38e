-- ===== src/Pool/Dismissed.antt =====
-- Calls that join the queue and clients that are dismissed: who is touched by it, and who is not.
use protei_cov.Prelude.{
  ℕ, ◌≡◌, refl, sym, ◌∙◌, Bool, true, false, List, [], ◌∷◌, ◌++◌, ◌⊎◌, inl, inr, arith, All,
  All-map, All-zip, All-append, AllPairs-snoc, Any-zip, Any-left, Any-remove, Bool-cases, ◌==◌,
}
use protei_cov.World.{World}
use protei_cov.Queue.{Item, unserved}
use protei_cov.Queue.Valid.{promise_of, Apart, OwnPromise}
use protei_cov.Queue.Dismiss.{
  dismiss, reason, dismiss-number, dismiss-promise, dismiss-promises, dismiss-options,
}
use protei_cov.Pool.Defs.{Worker, working}
use protei_cov.Pool.Alike.{IsOpen, Alike, Alike-IsOpen, Alike-OwnPromise}
use protei_cov.Pool.Invariant.{Inv, Inv-world, Inv-items}
use protei_cov.Pool.Placed.{IsAnswer, IsTold, Placed, queued, held, answered}

-- A call that nobody has, and that is open.
pub record IsNew (n : ℕ) (x : Item) (items : List Item) (workers : ℕ → Worker) (w : World)
    : Type 0 where
  pub is_open : IsOpen n w x
  pub own : All (λ y. OwnPromise w y x) items
  pub own_held : (i : ℕ) (y : Item) → workers i ≡ working y → OwnPromise w y x

pub dismiss-Alike :
    (now : ℕ) (b : Bool) (x : Item) (rs : List ℕ) (w : World) (y : Item)
    → OwnPromise w x y
    → Alike w (dismiss now b x rs w) y
dismiss-Alike now b x rs w y own = record {
  promise = dismiss-promise now b x rs w y.0;
  number = dismiss-number now b x rs w y.0;
  logger = (dismiss-options now b x rs w y.0).0;
  r_min = (dismiss-options now b x rs w y.0).1;
  r_max = (dismiss-options now b x rs w y.0).2;
  client = ground (arith, dismiss-promises now b x rs w (promise_of w y));
}

module _ {n : ℕ} {items : List Item} {workers : ℕ → Worker} {w : World}
    (v : Inv n items workers w) where
  -- A call that is new goes to the end of the queue.
  pub Inv-append :
      (x : Item)
      → IsNew n x items workers w
      → All (λ y. Apart w y x) items
      → Inv n (items ++ (x ∷ [])) workers w
  Inv-append x new apart =
      Inv-items v (items ++ (x ∷ []))
        (All-append (IsOpen n w) items (x ∷ []) v.queued (new.is_open, tt))
        (AllPairs-snoc (Apart w) items x v.apart apart)
        (λ i y e.
          All-append (OwnPromise w y) items (x ∷ []) (v.held_queued i y e) (new.own_held i y e, tt))

  -- A client is told that its call is not served: all others stay as they are.
  pub Inv-dismiss :
      (now : ℕ) (b : Bool) (x : Item) (rs : List ℕ)
      → IsNew n x items workers w
      → Inv n items workers (dismiss now b x rs w)
  Inv-dismiss now b x rs new =
      Inv-world v (dismiss now b x rs w)
        (All-map items (λ y o. dismiss-Alike now b x rs w y (λ q. o (sym q))) new.own)
        (λ i y e. dismiss-Alike now b x rs w y (λ q. new.own_held i y e (sym q)))

pub Alike-IsNew :
    {n : ℕ} {x : Item} {items : List Item} {workers : ℕ → Worker} {w w' : World}
    → Alike w w' x
    → All (Alike w w') items
    → ((i : ℕ) (y : Item) → workers i ≡ working y → Alike w w' y)
    → IsNew n x items workers w
    → IsNew n x items workers w'
Alike-IsNew {items} a b c new = record {
  is_open = Alike-IsOpen a new.is_open;
  own = All-zip items (λ y k o. Alike-OwnPromise k a o) b new.own;
  own_held = λ i y e. Alike-OwnPromise (c i y e) a (new.own_held i y e);
}

-- Clients keep their places where no call of the queue or of a hand changes.
pub Placed-world :
    {p : ℕ} {items : List Item} {workers : ℕ → Worker} {w w' : World}
    → All (Alike w w') items
    → ((i : ℕ) (y : Item) → workers i ≡ working y → Alike w w' y)
    → (IsTold p w → IsTold p w')
    → Placed p items workers w
    → Placed p items workers w'
Placed-world {p} {items} a b c (queued m) = queued (Any-zip items (λ y k e. k.promise ∙ e) a m)
Placed-world a b c (held i x e m) = held i x e ((b i x e).promise ∙ m)
Placed-world a b c (answered t) = answered (c t)

reason-IsAnswer : (b : Bool) → IsAnswer (reason b)
reason-IsAnswer true = inr (inr (inl refl))
reason-IsAnswer false = inr (inr (inr refl))

pub dismiss_answers :
    (now : ℕ) (b : Bool) (x : Item) (rs : List ℕ) (w : World) (p : ℕ)
    → IsTold p w
    → IsTold p (dismiss now b x rs w)
dismiss_answers now b x rs w p (r, e, k) = elim (Bool-cases ((w.tasks x.0).promise == p)) [
  | inl h ↦
      (unserved (reason b) x.1, dismiss-promises now b x rs w p ∙ rw h refl, reason-IsAnswer b)
  | inr h ↦ (r, dismiss-promises now b x rs w p ∙ rw h e, k)
]

eq_self : (p : ℕ) → (p == p) ≡ true
eq_self p = ground arith

pub dismiss-IsTold :
    (now : ℕ) (b : Bool) (x : Item) (rs : List ℕ) (w : World)
    → IsTold (promise_of w x) (dismiss now b x rs w)
dismiss-IsTold now b x rs w = (
  unserved (reason b) x.1,
  dismiss-promises now b x rs w (promise_of w x) ∙ rw (eq_self (promise_of w x)) refl,
  reason-IsAnswer b,
)

pub Placed-left :
    {p : ℕ} {workers : ℕ → Worker} {w : World} (xs ys : List Item)
    → Placed p xs workers w
    → Placed p (xs ++ ys) workers w
Placed-left {p} {w} xs ys (queued m) = queued (Any-left (λ y. promise_of w y ≡ p) xs ys m)
Placed-left xs ys (held i y e m) = held i y e m
Placed-left xs ys (answered t) = answered t

pub Placed-remove :
    {p : ℕ} {workers : ℕ → Worker} {w : World} (xs : List Item) (x : Item) (ys : List Item)
    → Placed p (xs ++ x ∷ ys) workers w
    → (promise_of w x ≡ p) ⊎ Placed p (xs ++ ys) workers w
Placed-remove {p} {w} xs x ys (queued m) = elim (Any-remove (λ y. promise_of w y ≡ p) xs x ys m) [
  | inl a ↦ inl a
  | inr b ↦ inr (queued b)
]
Placed-remove xs x ys (held i y e m) = inr (held i y e m)
Placed-remove xs x ys (answered t) = inr (answered t)
