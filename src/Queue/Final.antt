-- ===== src/Queue/Final.antt =====
-- Whatever the queue's methods come to, a promise that is satisfied stays as it is: a client whose
-- call is turned away keeps the result that it has, if it has one.
use protei_cov.Prelude.{
  ℕ, ◌≡◌, Bool, true, false, ◌++◌, leb, length, inl, inr, Bool-cases, [], ◌∷◌, arith, Option, none,
  some,
}
use protei_cov.Effects.{Exec, pure, modify, ◌>>◌}
use protei_cov.Effects.Grows.{Order, Grows, Grows-bind}
use protei_cov.CallRecord.{duplication, overloaded, Cdr, CallResult}
use protei_cov.World.{set_task}
use protei_cov.World.Final.{Final, chain_final, final_order, same_promises-Final, set_value-Final}
use protei_cov.Queue.Defs.{
  Item, State, Found, find_if, same_number, set_items, write_cdr, process_cdr, closed, answer,
  unserved, handle_overloaded_task, drop_duplicate, handle_task, push, pop,
}
use protei_cov.Queue.Dismiss.{record_all_keeps}

-- `Final` of the worlds.
abbrev pub FinalIn : State → State → Type 0
FinalIn s s' = Final s.1 s'.1

instance abbrev pub final_in_order : Order FinalIn
final_in_order = record { same = λ s. final_order.same s.1; chain = chain_final }

pub write_cdr-Final : (cdr : Cdr) → Grows FinalIn (write_cdr cdr)
unfolding write_cdr
write_cdr-Final cdr = record {
  at = λ s. same_promises-Final (record_all_keeps s.0.recorders cdr s.1).1;
}

process_cdr-Final : (now t : ℕ) (b : Bool) → Grows FinalIn (process_cdr now t b)
unfolding process_cdr write_cdr
process_cdr-Final now t b = record {
  at = λ s.
      let v = closed b now (s.1.tasks t) in
      let same : (process_cdr now t b s).1.1.promises ≡ s.1.promises =
        (record_all_keeps s.0.recorders ((set_task t v s.1).tasks t).cdr (set_task t v s.1)).1 in
      same_promises-Final same;
}

answer-Final : (t : ℕ) (r : CallResult) → Grows FinalIn (answer t r)
unfolding answer
answer-Final t r = record { at = λ s. (set_value-Final (s.1.tasks t).promise r).at s.1 }

turn_away-Final :
    (now : ℕ) (x : Item) (b : Bool) (r : CallResult)
    → Grows FinalIn (process_cdr now x.0 b >> answer x.0 r)
turn_away-Final now x b r =
    Grows-bind (process_cdr now x.0 b) (λ _. answer x.0 r) (process_cdr-Final now x.0 b)
      λ _. answer-Final x.0 r

drop_duplicate-Final : (now : ℕ) (found : Option Found) → Grows FinalIn (drop_duplicate now found)
unfolding drop_duplicate
drop_duplicate-Final now none = record { at = λ s. final_order.same s.1 }
drop_duplicate-Final now (some f) =
    Grows-bind (process_cdr now f.it.0 true) _ (process_cdr-Final now f.it.0 true) λ _.
      Grows-bind (answer f.it.0 (unserved duplication f.it.1))
        (λ _. modify (set_items (f.before ++ f.behind)))
        (answer-Final f.it.0 (unserved duplication f.it.1))
        λ _. record { at = λ s. final_order.same s.1 }

handle_task-Final : (now : ℕ) (x : Item) → Grows FinalIn (handle_task now x)
unfolding handle_task
handle_task-Final now x = record {
  at = λ s.
      let found = find_if (same_number s.1 x.0) s.0.items in
      (Grows-bind (drop_duplicate now found)
          (λ _. modify (λ s'. set_items (s'.0.items ++ (x ∷ [])) s'))
          (drop_duplicate-Final now found) λ _. record { at = λ s'. final_order.same s'.1 }).at
        s;
}

handle_overloaded_task-Final : (now : ℕ) (x : Item) → Grows FinalIn (handle_overloaded_task now x)
unfolding handle_overloaded_task
handle_overloaded_task-Final now x = record {
  at = (turn_away-Final now x false (unserved overloaded x.1)).at;
}

then_pure-Final :
    {A B : Type 0} (m : Exec State A) (b : B) → Grows FinalIn m → Grows FinalIn (m >> pure b)
then_pure-Final m b k = Grows-bind m (λ _. pure b) k λ _. record { at = λ s. final_order.same s.1 }

pub push-Final : (now : ℕ) (x : Item) → Grows FinalIn (push now x)
unfolding push
push-Final now x = record {
  at = λ s. elim (Bool-cases (leb s.0.size_of_queue (length s.0.items))) [
    | inl h ↦ rw h (
        (then_pure-Final (handle_overloaded_task now x) false
            (handle_overloaded_task-Final now x)).at
          s)
    | inr h ↦ rw h ((then_pure-Final (handle_task now x) true (handle_task-Final now x)).at s)
  ];
}

pub pop-Final : Grows FinalIn pop
unfolding pop
pop-Final = record { at = λ s. record { keeps = λ p set. ground arith } }
