-- ===== src/Queue/Defs.antt =====
-- The class Queue. An item is a task's pointer with the call's id; the clock is read once a call.
use protei_cov.Prelude.{
  ℕ, ◌-◌, ◌/◌, ◌^◌, Bool, true, false, List, [], ◌∷◌, ◌++◌, Option, none, some, if◌then◌else◌, leb,
  ltb, text_eq, ℤ, pos, negsuc, length,
}
use protei_cov.Effects.{
  Exception, Outcome, ok, throws, fault, Exec, pure, gets, modify, ◌>>=◌, ◌>>◌,
}
use protei_cov.CallRecord.{CallStatus, duplication, overloaded, Cdr, CallResult}
use protei_cov.World.{Task, World, set_task, set_value, make_record}
use protei_cov.Task.{get_number}

abbrev pub Item : Type 0
Item = ℕ × ℕ

pub record Queue : Type 0 where
  pub items : List Item
  pub size_of_queue : ℕ
  pub recorders : List ℕ
  pub has_logger : Bool

abbrev pub State : Type 0
State = Queue × World

-- `int` to `std::size_t`
abbrev pub to_size : ℤ → ℕ
to_size (pos n) = n
to_size (negsuc n) = 2 ^ 64 - 1 - n

-- `vector::max_size` for items of 24 bytes
abbrev pub max_items : ℕ
max_items = (2 ^ 63 - 1) / 24

-- The constructor. `reserve` throws for a size that no vector has.
unfoldable pub new_queue : ℤ → Outcome Queue
new_queue size =
    if ltb max_items (to_size size)
    then throws Exception.length_error
    else ok
        (record { items = []; size_of_queue = to_size size; recorders = []; has_logger = false })

-- `back` and `front` of an empty vector are undefined.
unfoldable pub front : Queue → Outcome Item
front q = elim q.items [ [] ↦ fault | x ∷ xs ↦ ok x ]

last_of : List Item → Outcome Item
last_of [] = fault
last_of (x ∷ []) = ok x
last_of (x ∷ y ∷ xs) = last_of (y ∷ xs)

unfoldable pub back : Queue → Outcome Item
unfolding last_of
back q = last_of q.items

unfoldable pub empty : Queue → Bool
empty q = elim q.items [ [] ↦ true | x ∷ xs ↦ false ]

-- `std::find_if` with the items before and behind the one it finds.
pub record Found : Type 0 where
  pub before : List Item
  pub it : Item
  pub behind : List Item

abbrev pub put_before : Item → Option Found → Option Found
put_before x none = none
put_before x (some f) = some (record f { before = x ∷ f.before })

unfoldable pub find_if : (Item → Bool) → List Item → Option Found
find_if p [] = none
find_if p (x ∷ xs) =
    let later = put_before x (find_if p xs) in
    if p x then some (record { before = []; it = x; behind = xs }) else later

-- `for(const auto& recorder: recorders_) recorder->makeRecord(cdr);`
unfoldable pub record_all : List ℕ → Cdr → World → World
record_all [] cdr w = w
record_all (r ∷ rs) cdr w = record_all rs cdr (make_record r cdr w)

unfoldable pub write_cdr : Cdr → Exec State (Unit {0})
write_cdr cdr s = (ok tt, (s.0, record_all s.0.recorders cdr s.1))

-- `processCDR`, up to the call of `writeCDR`
abbrev pub closed : Bool → ℕ → Task → Task
closed is_duplication now v = record v {
  cdr = record (v.cdr) {
    status = if is_duplication then duplication else overloaded;
    operator_id = 0;
    call_duration = pos 0;
    end_time = now;
    operator_call_time = now;
  };
}

unfoldable pub process_cdr : ℕ → ℕ → Bool → Exec State (Unit {0})
process_cdr now t is_duplication = do
  modify (λ s. (s.0, set_task t (closed is_duplication now (s.1.tasks t)) s.1))
  cdr ← gets (λ s. (s.1.tasks t).cdr)
  write_cdr cdr

-- `task->promise_->set_value(r)`
unfoldable pub answer : ℕ → CallResult → Exec State (Unit {0})
answer t r s = let (o, w) = set_value (s.1.tasks t).promise r s.1 in (o, (s.0, w))

abbrev pub unserved : CallStatus → ℕ → CallResult
unserved status id = record { status = status; call_duration = pos 0; call_id = id }

abbrev pub set_items : List Item → State → State
set_items xs s = (record (s.0) { items = xs }, s.1)

unfoldable pub handle_overloaded_task : ℕ → Item → Exec State (Unit {0})
handle_overloaded_task now (t, id) = do process_cdr now t false; answer t (unserved overloaded id)

-- The block under `if (it != queue_.end())`.
unfoldable pub drop_duplicate : ℕ → Option Found → Exec State (Unit {0})
drop_duplicate now none = pure tt
drop_duplicate now (some f) = do
  process_cdr now f.it.0 true
  answer f.it.0 (unserved duplication f.it.1)
  modify (set_items (f.before ++ f.behind))

unfoldable pub same_number : World → ℕ → Item → Bool
same_number w t x = text_eq (get_number x.0 w) (get_number t w)

unfoldable pub handle_task : ℕ → Item → Exec State (Unit {0})
handle_task now (t, id) = do
  found ← gets (λ s. find_if (same_number s.1 t) s.0.items)
  drop_duplicate now found
  modify (λ s. set_items (s.0.items ++ ((t, id) ∷ [])) s)

unfoldable pub push : ℕ → Item → Exec State Bool
push now x = do
  full ← gets (λ s. leb s.0.size_of_queue (length s.0.items))
  if full then handle_overloaded_task now x >> pure false else handle_task now x >> pure true

-- `erase` of the first item; of an empty vector it is undefined.
unfoldable pub pop : Exec State (Unit {0})
pop s = elim s.0.items [ [] ↦ (fault, s) | x ∷ xs ↦ (ok tt, set_items xs s) ]

unfoldable pub update : ℤ → State → State
update size s = (record (s.0) { size_of_queue = to_size size }, s.1)

unfoldable pub set_logger : Bool → State → State
set_logger logger s = (record (s.0) { has_logger = logger }, s.1)

unfoldable pub set_recorders : List ℕ → State → State
set_recorders rs s = (record (s.0) { recorders = rs }, s.1)
