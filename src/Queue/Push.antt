-- ===== src/Queue/Push.antt =====
-- `push`, in its three cases, and what it means for the queue and for the clients.
use protei_cov.Prelude.{
  ℕ, ◌≡◌, refl, Bool, true, false, [], ◌∷◌, ◌++◌, Option, none, some, All, All-remove, AllPairs,
  AllPairs-remove, leb, length, Bool-cases, ◌⊎◌, inl, inr,
}
use protei_cov.Effects.{ok}
use protei_cov.World.{World}
use protei_cov.Queue.Defs.{
  Item, Queue, Found, find_if, same_number, push, handle_task, handle_overloaded_task,
  drop_duplicate, process_cdr, write_cdr, record_all,
}
use protei_cov.Queue.Dismiss.{dismiss, process_cdr-answer}
use protei_cov.Queue.Find.{others, Splits}
use protei_cov.Queue.Valid.{Waits, Apart, IsValid, IsFresh, items-Splits, Apart-sym}

abbrev pub full : Queue → Bool
full q = leb q.size_of_queue (length q.items)

module _ (now : ℕ) (x : Item) (q : Queue) (w : World) where
  push_when_full :
      full q ≡ true
      → Waits w x
      → push now x (q, w) ≡ (ok false, (q, dismiss now false x q.recorders w))
  unfolding push handle_overloaded_task
  push_when_full f h = rw (f, process_cdr-answer now false x q w h)

  push_without :
      full q ≡ false
      → find_if (same_number w x.0) q.items ≡ none
      → push now x (q, w) ≡ (ok true, (record q { items = q.items ++ (x ∷ []) }, w))
  unfolding push handle_task drop_duplicate
  push_without f e = rw (f, e)

  push_again :
      (d : Found)
      → full q ≡ false
      → find_if (same_number w x.0) q.items ≡ some d
      → Waits w d.it
      → push now x (q, w) ≡ (
        ok true,
        (
          record q { items = (d.before ++ d.behind) ++ (x ∷ []) },
          dismiss now true d.it q.recorders w,
        ),
      )
  unfolding push handle_task drop_duplicate process_cdr dismiss write_cdr record_all
  push_again d f e h = rw (f, e, process_cdr-answer now true d.it q w h)

module _ (now : ℕ) (x : Item) (q : Queue) (w : World) (v : IsValid q.items w)
    (new : IsFresh x q.items w) where
  -- The three cases of `push` on a valid queue.
  abbrev pub Cases : Type 0
  Cases =
      ((full q ≡ true) × (push now x (q, w) ≡ (ok false, (q, dismiss now false x q.recorders w))))
      ⊎ ((full q ≡ false)
          × All (λ y. same_number w x.0 y ≡ false) q.items
          × (others (same_number w x.0) q.items ≡ q.items)
          × (push now x (q, w) ≡ (ok true, (record q { items = q.items ++ (x ∷ []) }, w))))
      ⊎ ((d : Found) × (full q ≡ false)
          × (q.items ≡ d.before ++ (d.it ∷ d.behind))
          × (same_number w x.0 d.it ≡ true)
          × (others (same_number w x.0) q.items ≡ d.before ++ d.behind)
          × All (Waits w) (d.it ∷ d.before ++ d.behind)
          × All (Apart w d.it) (d.before ++ d.behind)
          × AllPairs (Apart w) (d.before ++ d.behind)
          × (push now x (q, w) ≡ (
            ok true,
            (
              record q { items = (d.before ++ d.behind) ++ (x ∷ []) },
              dismiss now true d.it q.recorders w,
            ),
          )))

  cases_of_find :
      full q ≡ false
      → (r : Option Found) → find_if (same_number w x.0) q.items ≡ r
      → Splits (same_number w x.0) q.items r
      → Cases
  cases_of_find f none e s = inr (inl (f, s.0, s.1, push_without now x q w f e))
  cases_of_find f (some d) e s =
      let wait = All-remove (Waits w) d.before d.it d.behind (rw s.0 at v.waiting) in
      let rest =
        AllPairs-remove (Apart w) d.before d.it d.behind (Apart-sym w) (rw s.0 at v.apart) in
      inr (inr (d, f, s.0, s.1, s.2, wait, rest.0, rest.1, push_again now x q w d f e wait.0))

  pub push_cases : Cases
  push_cases = elim (Bool-cases (full q)) [
    | inl f ↦ inl (f, push_when_full now x q w f new.waits)
    | inr f ↦
        cases_of_find f (find_if (same_number w x.0) q.items) refl (items-Splits q.items w x.0 v)
  ]
