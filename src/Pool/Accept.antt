-- ===== src/Pool/Accept.antt =====
-- What a client's call finds at the pool.
use protei_cov.Prelude.{
  ℕ, ◌≡◌, refl, sym, ap, ◌∙◌, Bool, true, List, some, ℤ, arith, if◌then◌else◌, All-map,
  AllPairs-map,
}
use protei_cov.Effects.{Exception, Outcome, ok, throws}
use protei_cov.CallRecord.{overloaded}
use protei_cov.World.{Task, World, value, pending, set_task}
use protei_cov.Task.{set_call_id, get_number}
use protei_cov.Stdlib.Stoll.{stoll}
use protei_cov.Queue.{Item, Queue, push, unserved}
use protei_cov.Queue.Valid.{IsValid, IsFresh}
use protei_cov.Queue.Laws.{push-IsValid, push_answers}
use protei_cov.Queue.Push.{full}
use protei_cov.Pool.Defs.{System, add_task, generate_call_id}

-- The task with its call's id.
abbrev pub named : ℕ → Task → Task
named id v = record v { task_id = id; cdr = record (v.cdr) { call_id = id } }

set_call_id_logs :
    (t id : ℕ) (w : World)
    → (w.tasks t).has_logger ≡ true
    → set_call_id t id w ≡ (ok tt, set_task t (named id (w.tasks t)) w)
unfolding set_call_id
set_call_id_logs t id w h = ground arith

module _ (t id : ℕ) (w : World) where
  abbrev pub w' : World
  w' = set_task t (named id (w.tasks t)) w

  same_promise : (u : ℕ) → (w'.tasks u).promise ≡ (w.tasks u).promise
  same_promise u = ground arith

  same_number : (u : ℕ) → get_number u w' ≡ get_number u w
  unfolding get_number
  same_number u = ground arith

  named-IsValid : (xs : List Item) → IsValid xs w → IsValid xs w'
  named-IsValid xs v = record {
    waiting = All-map xs (λ y a. ap w.promises (same_promise y.0) ∙ a) v.waiting;
    apart =
        AllPairs-map xs
          (λ y z a. (
            λ q. a.0 (sym (same_number y.0) ∙ q ∙ same_number z.0),
            λ q. a.1 (sym (same_promise y.0) ∙ q ∙ same_promise z.0),
          ))
          v.apart;
  }

  named-IsFresh : (x : Item) (xs : List Item) → IsFresh x xs w → IsFresh x xs w'
  named-IsFresh x xs v = record {
    waits = ap w.promises (same_promise x.0) ∙ v.waits;
    own = All-map xs (λ y a q. a (sym (same_promise y.0) ∙ q ∙ same_promise x.0)) v.own;
  }

module _ (thread now t : ℕ) (s : System) where
  abbrev pub result : Outcome ℕ × System
  result = add_task thread now t s

  -- A number that `std::stoll` refuses: `add_task` throws its exception, and nothing has changed.
  pub add_task_throws :
      (e : Exception) → stoll (get_number t s.world) ≡ throws e → result ≡ (throws e, s)
  unfolding add_task
  add_task_throws e h = rw h refl

  module _ (q : Queue) (n : ℤ) (number : stoll (get_number t s.world) ≡ ok n)
      (here : s.pool.task_queue ≡ some q) (logging : (s.world.tasks t).has_logger ≡ true) where
    abbrev pub id : ℕ
    id = generate_call_id thread n

    -- Otherwise the call is pushed under its id.
    pub pushes :
        (accepted : Bool)
        → (push now (t, id) (q, w' t id s.world)).0 ≡ ok accepted
        → result ≡ (
          ok id,
          record {
            pool = record (s.pool) {
              task_queue = some (push now (t, id) (q, w' t id s.world)).1.0;
            };
            world = (push now (t, id) (q, w' t id s.world)).1.1;
          },
        )
    unfolding add_task
    pushes accepted e = rw (number, set_call_id_logs t id s.world logging, here, e) refl

    -- A call with a number, pushed to a valid queue by a client on a promise of its own: `add_task`
    -- returns the id made of the thread and the number, and leaves a valid queue. The client is told
    -- Overloaded where the queue was full, and else waits.
    add_task-IsValid :
        IsValid q.items s.world
        → IsFresh (t, id) q.items s.world
        → (result.0 ≡ ok id)
          × (q' : Queue) × (result.1.pool.task_queue ≡ some q')
          × IsValid q'.items result.1.world
          × (result.1.world.promises (s.world.tasks t).promise
              ≡ (if full q then value (unserved overloaded id) else pending))
    add_task-IsValid v new =
        let (accepted, e, valid) =
          push-IsValid now (t, id) q (w' t id s.world) (named-IsValid t id s.world q.items v)
            (named-IsFresh t id s.world (t, id) q.items new) in
        let told =
          push_answers now (t, id) q (w' t id s.world) (named-IsValid t id s.world q.items v)
            (named-IsFresh t id s.world (t, id) q.items new) in
        rw (pushes accepted e) (
          refl,
          _,
          refl,
          valid,
          ap (push now (t, id) (q, w' t id s.world)).1.1.promises
                (sym (same_promise t id s.world t))
              ∙ told.0,
        )
