-- ===== src/Pool/Arrival.antt =====
-- `push` keeps the invariant, and places the new client.
use protei_cov.Prelude.{
  ℕ, ◌≡◌, refl, sym, subst, Bool, true, false, List, [], ◌∷◌, ◌++◌, inl, inr, All, All-map, All-zip,
  All-remove, AllPairs, Any-right,
}
use protei_cov.Effects.{ok}
use protei_cov.World.{World}
use protei_cov.Queue.{Item, Queue, Found, push, same_number}
use protei_cov.Queue.Valid.{promise_of, Apart, OwnPromise, same_number_once}
use protei_cov.Queue.Dismiss.{dismiss}
use protei_cov.Queue.Laws.{number_ne}
use protei_cov.Queue.Push.{push_cases}
use protei_cov.Pool.Defs.{Worker, working}
use protei_cov.Pool.Alike.{IsOpen, Alike, Alike-Apart}
use protei_cov.Pool.Kept.{SameLine, same_line}
use protei_cov.Pool.Invariant.{Inv, Inv-items, Inv-IsValid}
use protei_cov.Pool.Placed.{IsTold, Placed, queued, answered}
use protei_cov.Pool.Dismissed.{
  IsNew, dismiss-Alike, Inv-append, Inv-dismiss, Alike-IsNew, Placed-world, dismiss_answers,
  dismiss-IsTold, Placed-left, Placed-remove,
}

-- What `push` of a new call leaves.
pub record Pushed (n now : ℕ) (x : Item) (q : Queue) (workers : ℕ → Worker) (w : World)
    : Type 0 where
  pub accepted : Bool
  pub queue : Queue
  pub after : World
  pub returns : push now x (q, w) ≡ (ok accepted, (queue, after))
  pub line : SameLine q queue
  pub inv : Inv n queue.items workers after
  pub placed : (p : ℕ) → Placed p q.items workers w → Placed p queue.items workers after
  pub mine : Placed (promise_of w x) queue.items workers after

module _ {n : ℕ} (now : ℕ) (x : Item) (q : Queue) {workers : ℕ → Worker} {w : World}
    (v : Inv n q.items workers w) (new : IsNew n x q.items workers w) where
  refused :
      push now x (q, w) ≡ (ok false, (q, dismiss now false x q.recorders w))
      → Pushed n now x q workers w
  refused e = record {
    accepted = false;
    queue = q;
    after = dismiss now false x q.recorders w;
    returns = e;
    line = same_line q;
    inv = Inv-dismiss v now false x q.recorders new;
    placed = λ p m.
        Placed-world
          (All-map q.items (λ y o. dismiss-Alike now false x q.recorders w y (λ k. o (sym k)))
            new.own)
          (λ i y h. dismiss-Alike now false x q.recorders w y (λ k. new.own_held i y h (sym k)))
          (dismiss_answers now false x q.recorders w p) m;
    mine = answered (dismiss-IsTold now false x q.recorders w);
  }

  joined :
      push now x (q, w) ≡ (ok true, (record q { items = q.items ++ (x ∷ []) }, w))
      → All (λ y. same_number w x.0 y ≡ false) q.items
      → Pushed n now x q workers w
  joined e miss = record {
    accepted = true;
    queue = record q { items = q.items ++ (x ∷ []) };
    after = w;
    returns = e;
    line = record { size = refl; recorders = refl };
    inv = Inv-append v x new (All-zip q.items (λ y a b. (number_ne w x y b, a)) new.own miss);
    placed = λ p m. Placed-left q.items (x ∷ []) m;
    mine = queued (Any-right (λ y. promise_of w y ≡ promise_of w x) q.items (x ∷ []) (inl refl));
  }

  module _ (d : Found) (split : q.items ≡ d.before ++ (d.it ∷ d.behind))
      (hit : same_number w x.0 d.it ≡ true) (apart : All (Apart w d.it) (d.before ++ d.behind))
      (pairs : AllPairs (Apart w) (d.before ++ d.behind)) where
    abbrev rest : List Item
    rest = d.before ++ d.behind

    abbrev w' : World
    w' = dismiss now true d.it q.recorders w

    taken_out : IsOpen n w d.it × All (IsOpen n w) rest
    taken_out = All-remove (IsOpen n w) d.before d.it d.behind (rw split at v.queued)

    new_out : OwnPromise w d.it x × All (λ y. OwnPromise w y x) rest
    new_out = All-remove (λ y. OwnPromise w y x) d.before d.it d.behind (rw split at new.own)

    hands_out :
        (i : ℕ) (y : Item) → workers i ≡ working y → OwnPromise w y d.it × All (OwnPromise w y) rest
    hands_out i y e =
        All-remove (OwnPromise w y) d.before d.it d.behind (rw split at v.held_queued i y e)

    without : Inv n rest workers w
    without = Inv-items v rest taken_out.1 pairs (λ i y e. (hands_out i y e).1)

    displaced : IsNew n d.it rest workers w
    displaced = record {
      is_open = taken_out.0;
      own = All-map rest (λ y a q. a.1 (sym q)) apart;
      own_held = λ i y e. (hands_out i y e).0;
    }

    alike : (y : Item) → OwnPromise w d.it y → Alike w w' y
    alike y o = dismiss-Alike now true d.it q.recorders w y o

    rest-Alike : All (Alike w w') rest
    rest-Alike = All-map rest (λ y a. alike y a.1) apart

    hands-Alike : (i : ℕ) (y : Item) → workers i ≡ working y → Alike w w' y
    hands-Alike i y e = alike y (λ k. (hands_out i y e).0 (sym k))

    still-IsNew : IsNew n x rest workers w'
    still-IsNew =
        Alike-IsNew (alike x new_out.0) rest-Alike hands-Alike
          (record { is_open = new.is_open; own = new_out.1; own_held = new.own_held })

    other_number : (y : Item) → Apart w d.it y → OwnPromise w y x → Apart w' y x
    other_number y a o =
        Alike-Apart (alike y a.1) (alike x new_out.0)
          (number_ne w x y (same_number_once w x.0 d.it y a hit), o)

    told : (p : ℕ) → Placed p q.items workers w → Placed p rest workers w'
    told p m =
        elim (Placed-remove d.before d.it d.behind (subst (λ xs. Placed p xs workers w) split m)) [
          | inl mine ↦
              answered (subst (λ u. IsTold u w') mine (dismiss-IsTold now true d.it q.recorders w))
          | inr other ↦
              Placed-world rest-Alike hands-Alike (dismiss_answers now true d.it q.recorders w p)
                other
        ]

    replaced :
        push now x (q, w) ≡ (ok true, (record q { items = rest ++ (x ∷ []) }, w'))
        → Pushed n now x q workers w
    replaced e = record {
      accepted = true;
      queue = record q { items = rest ++ (x ∷ []) };
      after = w';
      returns = e;
      line = record { size = refl; recorders = refl };
      inv =
          Inv-append (Inv-dismiss without now true d.it q.recorders displaced) x still-IsNew
            (All-zip rest other_number apart new_out.1);
      placed = λ p m. Placed-left rest (x ∷ []) (told p m);
      mine = queued (
          Any-right (λ y. promise_of w' y ≡ promise_of w x) rest (x ∷ [])
            (inl (alike x new_out.0).promise));
    }

  -- `push` of a new call keeps the invariant and every client's place, and gives the new one a place.
  pub push-Pushed : Pushed n now x q workers w
  push-Pushed =
      elim (push_cases now x q w (Inv-IsValid v)
        (record { waits = new.is_open.waits; own = new.own })) [
          | inl (f, e) ↦ refused e
          | inr (inl (f, miss, o, e)) ↦ joined e miss
          | inr (inr (d, f, s, hit, o, wait, apart, pairs, e)) ↦ replaced d s hit apart pairs e
        ]
