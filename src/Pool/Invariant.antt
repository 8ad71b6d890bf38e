-- ===== src/Pool/Invariant.antt =====
-- What holds of a pool at any time: every call in the queue or in an operator's hand is open, on a
-- promise of its own, and the queue's numbers differ.
use protei_cov.Prelude.{
  ℕ, suc, ◌≡◌, ◌≢◌, sym, ap, ◌∙◌, List, ◌∷◌, All, All-map, All-zip, AllPairs, inl, inr, ◌⊎◌,
}
use protei_cov.World.{World, update}
use protei_cov.Queue.{Item}
use protei_cov.Queue.Valid.{Apart, OwnPromise, IsValid}
use protei_cov.Pool.Defs.{Worker, working}
use protei_cov.Pool.Alike.{
  IsOpen, Alike, Alike-IsOpen, Alike-OwnPromise, Alike-AllPairs, IsOpen-suc, update_cases,
}

pub record Inv (n : ℕ) (items : List Item) (workers : ℕ → Worker) (w : World) : Type 0 where
  pub queued : All (IsOpen n w) items
  pub apart : AllPairs (Apart w) items
  pub held : (i : ℕ) (x : Item) → workers i ≡ working x → IsOpen n w x
  pub held_queued : (i : ℕ) (x : Item) → workers i ≡ working x → All (OwnPromise w x) items
  pub held_held :
      (i j : ℕ) (x y : Item)
      → i ≢ j
      → workers i ≡ working x
      → workers j ≡ working y
      → OwnPromise w x y

-- A worker with no call in hand.
abbrev pub IsFree : Worker → Type 0
IsFree k = (x : Item) → k ≢ working x

pub Inv-IsValid :
    {n : ℕ} {items : List Item} {workers : ℕ → Worker} {w : World}
    → Inv n items workers w
    → IsValid items w
Inv-IsValid {items} v = record {
  waiting = All-map items (λ x o. o.waits) v.queued;
  apart = v.apart;
}

module _ {n : ℕ} {items : List Item} {workers : ℕ → Worker} {w : World}
    (v : Inv n items workers w) where
  pub Inv-world :
      (w' : World)
      → All (Alike w w') items
      → ((i : ℕ) (x : Item) → workers i ≡ working x → Alike w w' x)
      → Inv n items workers w'
  Inv-world w' a b = record {
    queued = All-zip items (λ x k o. Alike-IsOpen k o) a v.queued;
    apart = Alike-AllPairs w w' items a v.apart;
    held = λ i x e. Alike-IsOpen (b i x e) (v.held i x e);
    held_queued =
        λ i x e. All-zip items (λ y k o. Alike-OwnPromise (b i x e) k o) a (v.held_queued i x e);
    held_held = λ i j x y ne e f. Alike-OwnPromise (b i x e) (b j y f) (v.held_held i j x y ne e f);
  }

  pub Inv-suc : Inv (suc n) items workers w
  Inv-suc = record {
    queued = All-map items (λ x o. IsOpen-suc o) v.queued;
    apart = v.apart;
    held = λ i x e. IsOpen-suc (v.held i x e);
    held_queued = v.held_queued;
    held_held = v.held_held;
  }

  -- The queue may be another one of open calls that nobody holds.
  pub Inv-items :
      (items' : List Item)
      → All (IsOpen n w) items'
      → AllPairs (Apart w) items'
      → ((i : ℕ) (x : Item) → workers i ≡ working x → All (OwnPromise w x) items')
      → Inv n items' workers w
  Inv-items items' a b c = record {
    queued = a;
    apart = b;
    held = v.held;
    held_queued = c;
    held_held = v.held_held;
  }

  held_before :
      (i : ℕ) (k : Worker)
      → IsFree k
      → (j : ℕ) (x : Item) → update workers i k j ≡ working x
      → workers j ≡ working x
  held_before i k free j x e = elim (update_cases workers i k j) [
    | inl (_, a) ↦ absurd (free x (sym a ∙ e))
    | inr (_, a) ↦ sym a ∙ e
  ]

  -- A worker lays down its call, or had none.
  pub Inv-free : (i : ℕ) (k : Worker) → IsFree k → Inv n items (update workers i k) w
  Inv-free i k free = record {
    queued = v.queued;
    apart = v.apart;
    held = λ j x e. v.held j x (held_before i k free j x e);
    held_queued = λ j x e. v.held_queued j x (held_before i k free j x e);
    held_held = λ j l x y ne e f.
        v.held_held j l x y ne (held_before i k free j x e) (held_before i k free l y f);
  }

pub working_injective : (x y : Item) → working x ≡ working y → x ≡ y
working_injective x y e = cc

-- A worker takes the first call of the queue.
module _ {n : ℕ} (x : Item) (xs : List Item) {workers : ℕ → Worker} {w : World}
    (v : Inv n (x ∷ xs) workers w) (i : ℕ) where
  taker :
      (j : ℕ) (y : Item)
      → update workers i (working x) j ≡ working y
      → ((i ≡ j) × (x ≡ y)) ⊎ ((i ≢ j) × (workers j ≡ working y))
  taker j y e = elim (update_cases workers i (working x) j) [
    | inl (a, b) ↦ inl (a, working_injective x y (sym b ∙ e))
    | inr (a, b) ↦ inr (a, sym b ∙ e)
  ]

  first_held : (j : ℕ) (y : Item) → workers j ≡ working y → OwnPromise w x y
  first_held j y e q = (v.held_queued j y e).0 (sym q)

  take_held : (j : ℕ) (y : Item) → update workers i (working x) j ≡ working y → IsOpen n w y
  take_held j y e = elim (taker j y e) [
    | inl (_, b) ↦ rw b at v.queued.0
    | inr (_, b) ↦ v.held j y b
  ]

  take_queued :
      (j : ℕ) (y : Item) → update workers i (working x) j ≡ working y → All (OwnPromise w y) xs
  take_queued j y e = elim (taker j y e) [
    | inl (_, b) ↦ All-map xs (λ z a. rw b at a.1) v.apart.0
    | inr (_, b) ↦ (v.held_queued j y b).1
  ]

  take_pairs :
      (j l : ℕ) (y z : Item)
      → j ≢ l
      → update workers i (working x) j ≡ working y
      → update workers i (working x) l ≡ working z
      → OwnPromise w y z
  take_pairs j l y z ne e f = elim (taker j y e) [
    | inl (a, b) ↦ elim (taker l z f) [
      | inl (c, g) ↦ absurd (ne (sym a ∙ c))
      | inr (c, g) ↦ rw b at (first_held l z g)
    ]
    | inr (a, b) ↦ elim (taker l z f) [
      | inl (c, g) ↦ λ q. first_held j y b (ap (λ u. (w.tasks u.0).promise) g ∙ sym q)
      | inr (c, g) ↦ v.held_held j l y z ne b g
    ]
  ]

  pub Inv-take : Inv n xs (update workers i (working x)) w
  Inv-take = record {
    queued = v.queued.1;
    apart = v.apart.1;
    held = take_held;
    held_queued = take_queued;
    held_held = take_pairs;
  }
