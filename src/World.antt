-- ===== src/World.antt =====
-- The objects that the parts of the program share by pointer: tasks, the promises that clients wait
-- on, and what recorders have been given. A pointer is the number of its object.
use protei_cov.Prelude.{ℕ, Bool, List, [], ◌∷◌, ◌++◌, if◌then◌else◌, ◌==◌, Text, ℤ}
use protei_cov.Effects.{Exception, Exec, Outcome, ok, throws}
use protei_cov.CallRecord.{Cdr, CallResult}
pub mod Final

-- The members of the class Task, with those of ITask.
pub record Task : Type 0 where
  pub task_id : ℕ
  pub r_min : ℤ
  pub r_max : ℤ
  pub number : Text
  pub has_logger : Bool
  pub promise : ℕ
  pub cdr : Cdr

-- The shared state of a `std::promise<Result>` and its future.
pub data Promise : Type 0 where
  pending : Promise
  value : CallResult → Promise
  failed : Exception → Promise

pub record World : Type 0 where
  pub tasks : ℕ → Task
  pub promises : ℕ → Promise
  pub records : ℕ → List Cdr

abbrev pub update {ℓ} : {A : Type ℓ} → (ℕ → A) → ℕ → A → ℕ → A
update f i a j = if i == j then a else f j

abbrev pub set_task : ℕ → Task → World → World
set_task t v w = record w { tasks = update w.tasks t v }

abbrev pub set_promise : ℕ → Promise → World → World
set_promise p v w = record w { promises = update w.promises p v }

-- A promise is satisfied once; a second time throws `std::future_error`.
abbrev pub satisfy : Promise → Promise → ℕ → World → Outcome (Unit {0}) × World
satisfy pending v p w = (ok tt, set_promise p v w)
satisfy _ v p w = (throws Exception.promise_already_satisfied, w)

unfoldable pub set_value : ℕ → CallResult → Exec World (Unit {0})
set_value p r w = satisfy (w.promises p) (value r) p w

unfoldable pub set_exception : ℕ → Exception → Exec World (Unit {0})
set_exception p e w = satisfy (w.promises p) (failed e) p w

-- `IRecorder::makeRecord`, as the list of the records that a recorder was given.
unfoldable pub make_record : ℕ → Cdr → World → World
make_record r cdr w = record w { records = update w.records r (w.records r ++ (cdr ∷ [])) }
