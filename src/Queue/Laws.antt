-- ===== src/Queue/Laws.antt =====
-- What the queue guarantees to the pool and to the clients.
use protei_cov.Prelude.{
  ℕ, ◌≡◌, ◌≢◌, refl, sym, Bool, true, false, not, ◌&&◌, List, [], ◌∷◌, ◌++◌, if◌then◌else◌, arith,
  All, All-map, All-append, All-remove, All-insert, All-zip, AllPairs, AllPairs-map, AllPairs-snoc,
  inl, inr, text_eq_iff,
}
use protei_cov.Effects.{Outcome, ok}
use protei_cov.CallRecord.{duplication, overloaded}
use protei_cov.World.{World, pending, value}
use protei_cov.Task.{get_number}
use protei_cov.Queue.Defs.{Item, Queue, State, Found, same_number, push, unserved}
use protei_cov.Queue.Dismiss.{dismiss, dismiss-promises}
use protei_cov.Queue.Find.{others}
use protei_cov.Queue.Valid.{
  promise_of, Waits, Apart, OwnPromise, IsValid, IsFresh, same_number_once, dismiss-Waits,
  dismiss-Apart,
}
use protei_cov.Queue.Push.{full, push_cases}

pub number_ne :
    (w : World) (x y : Item) → same_number w x.0 y ≡ false → get_number y.0 w ≢ get_number x.0 w
unfolding same_number
number_ne w x y e = ground (arith, text_eq_iff (get_number y.0 w) (get_number x.0 w))

dismiss-IsValid :
    (now : ℕ) (is_duplication : Bool) (x : Item) (rs : List ℕ) (xs : List Item) (w : World)
    → All (OwnPromise w x) xs
    → IsValid xs w
    → IsValid xs (dismiss now is_duplication x rs w)
dismiss-IsValid now b x rs xs w own v = record {
  waiting = All-zip xs (dismiss-Waits now b x rs w) own v.waiting;
  apart = AllPairs-map xs (dismiss-Apart now b x rs w) v.apart;
}

append-IsValid :
    (xs : List Item) (x : Item) (w : World)
    → IsValid xs w
    → Waits w x
    → All (λ y. OwnPromise w y x) xs
    → All (λ y. same_number w x.0 y ≡ false) xs
    → IsValid (xs ++ (x ∷ [])) w
append-IsValid xs x w v h own new = record {
  waiting = All-append (Waits w) xs (x ∷ []) v.waiting (h, tt);
  apart =
      AllPairs-snoc (Apart w) xs x v.apart (All-zip xs (λ y a b. (number_ne w x y b, a)) own new);
}

module _ (now : ℕ) (x : Item) (q : Queue) (w : World) (v : IsValid q.items w)
    (new : IsFresh x q.items w) where
  abbrev result : Outcome Bool × State
  result = push now x (q, w)

  again_IsValid :
      (d : Found)
      → q.items ≡ d.before ++ (d.it ∷ d.behind)
      → same_number w x.0 d.it ≡ true
      → All (Waits w) (d.it ∷ d.before ++ d.behind)
      → All (Apart w d.it) (d.before ++ d.behind)
      → AllPairs (Apart w) (d.before ++ d.behind)
      → IsValid ((d.before ++ d.behind) ++ (x ∷ [])) (dismiss now true d.it q.recorders w)
  again_IsValid d e hit wait apart pairs =
      let own = All-remove (λ y. OwnPromise w y x) d.before d.it d.behind (rw e at new.own) in
      let rest = d.before ++ d.behind in
      dismiss-IsValid now true d.it q.recorders (rest ++ (x ∷ [])) w
        (All-append (OwnPromise w d.it) rest (x ∷ []) (All-map rest (λ y a. a.1) apart) (own.0, tt))
        (append-IsValid rest x w (record { waiting = wait.1; apart = pairs }) new.waits own.1
          (All-map rest (λ y a. same_number_once w x.0 d.it y a hit) apart))

  -- Pushing a fresh call to a valid queue always returns, and leaves a valid queue: the numbers in
  -- it differ, and each of its clients waits on a promise of its own.
  pub push-IsValid :
      (accepted : Bool) × (result.0 ≡ ok accepted) × IsValid result.1.0.items result.1.1
  push-IsValid = elim (push_cases now x q w v new) [
    | inl (f, e) ↦ rw e (
      false,
      refl,
      dismiss-IsValid now false x q.recorders q.items w
          (All-map q.items (λ y a. λ b. a (sym b)) new.own) v,
    )
    | inr (inl (f, miss, o, e)) ↦
        rw e (true, refl, append-IsValid q.items x w v new.waits new.own miss)
    | inr (inr (d, f, s, hit, o, wait, apart, pairs, e)) ↦
        rw e (true, refl, again_IsValid d s hit wait apart pairs)
  ]

  -- A full queue refuses the call and keeps its items. Otherwise the call is accepted: it stands
  -- last, behind all the items with other numbers in their old order, and an item with the same
  -- number is gone. The bound and the recorders stay.
  pub push_items :
      (result.0 ≡ ok (not (full q)))
      × (result.1.0.items
          ≡ (if full q then q.items else others (same_number w x.0) q.items ++ (x ∷ [])))
      × (result.1.0.size_of_queue ≡ q.size_of_queue)
      × (result.1.0.recorders ≡ q.recorders)
  push_items = elim (push_cases now x q w v new) [
    | inl (f, e) ↦ rw (e, f) (refl, refl, refl, refl)
    | inr (inl (f, miss, o, e)) ↦ rw (e, f) (refl, rw o, refl, refl)
    | inr (inr (d, f, s, hit, o, wait, apart, pairs, e)) ↦ rw (e, f) (refl, rw o, refl, refl)
  ]

  -- A client's promise once `d` has been told of the duplication.
  abbrev AnswersAgain : Item → Item → Type 0
  AnswersAgain d y =
      (dismiss now true d q.recorders w).promises (promise_of w y)
      ≡ (if same_number w x.0 y then value (unserved duplication y.1) else pending)

  again_answers :
      (d : Found)
      → q.items ≡ d.before ++ (d.it ∷ d.behind)
      → same_number w x.0 d.it ≡ true
      → All (Waits w) (d.it ∷ d.before ++ d.behind)
      → All (Apart w d.it) (d.before ++ d.behind)
      → ((dismiss now true d.it q.recorders w).promises (promise_of w x) ≡ pending)
        × All (AnswersAgain d.it) q.items
  again_answers d e hit wait apart =
      let own = All-remove (λ y. OwnPromise w y x) d.before d.it d.behind (rw e at new.own) in
      let told = dismiss-promises now true d.it q.recorders w in
      (
        ground (arith, told (promise_of w x), own.0, new.waits),
        rw e (
            All-insert (AnswersAgain d.it) d.before d.it d.behind
              (rw hit (ground (arith, told (promise_of w d.it))))
              (All-zip {P = Apart w d.it} {Q = Waits w} (d.before ++ d.behind)
                (λ y a b.
                  rw (same_number_once w x.0 d.it y a hit)
                    (ground (arith, told (promise_of w y), a, b)))
                apart wait.1)),
      )

  -- Every client gets an answer exactly when it leaves. A refused call's client is told
  -- Overloaded; the client of a queued call with the same number as an accepted one is told
  -- Duplication; every other client in the queue, and the accepted one, waits on.
  pub push_answers :
      (result.1.1.promises (promise_of w x)
        ≡ (if full q then value (unserved overloaded x.1) else pending))
      × All
          (λ y. result.1.1.promises (promise_of w y) ≡ (
            if not (full q) && same_number w x.0 y
            then value (unserved duplication y.1)
            else pending))
          q.items
  push_answers = elim (push_cases now x q w v new) [
    | inl (f, e) ↦
        rw (e, f)
          (
            ground (arith, dismiss-promises now false x q.recorders w (promise_of w x)),
            All-zip q.items
                (λ y a b.
                  ground (arith, dismiss-promises now false x q.recorders w (promise_of w y)))
                new.own v.waiting,
          )
    | inr (inl (f, miss, o, e)) ↦
        rw (e, f) (new.waits, All-zip q.items (λ y a b. rw b a) v.waiting miss)
    | inr (inr (d, f, s, hit, o, wait, apart, pairs, e)) ↦
        rw (e, f) (again_answers d s hit wait apart)
  ]
