-- ===== src/Task/Final.antt =====
-- Whatever a task's methods come to, a promise that is satisfied stays as it is.
use protei_cov.Prelude.{ℕ, refl, arith}
use protei_cov.Effects.Grows.{Grows}
use protei_cov.World.{set_exception}
use protei_cov.World.Final.{Final, final_order, same_promises-Final}
use protei_cov.Task.Defs.{Readings, Distribution, set_call_id, set_thread_id, do_task}

pub set_call_id-Final : (t id : ℕ) → Grows Final (set_call_id t id)
unfolding set_call_id
set_call_id-Final t id = record { at = λ w. same_promises-Final refl }

pub set_thread_id-Final : (t id : ℕ) → Grows Final (set_thread_id t id)
unfolding set_thread_id
set_thread_id-Final t id = record { at = λ w. same_promises-Final refl }

pub do_task-Final : (d : Distribution) (t : ℕ) (env : Readings) → Grows Final (do_task d t env)
unfolding do_task set_exception
do_task-Final d t env = record { at = λ w. record { keeps = λ p set. ground arith } }
