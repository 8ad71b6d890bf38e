-- ===== src/World/Final.antt =====
-- A promise that is satisfied, by a result or by an exception, and what the shared objects' own
-- operations leave of it.
use protei_cov.Prelude.{ℕ, ◌≡◌, ◌≢◌, refl, arith}
use protei_cov.Effects.{Exception}
use protei_cov.Effects.Grows.{Order, Grows}
use protei_cov.CallRecord.{CallResult}
use protei_cov.World.{
  World, Promise, pending, value, failed, set_promise, satisfy, set_value, set_exception,
}

-- Every promise that is satisfied in `w` is in `w'` what it was.
pub record Final (w w' : World) : Type 0 where
  pub keeps : (p : ℕ) → w.promises p ≢ pending → w'.promises p ≡ w.promises p

pub chain_final : {w w' w'' : World} → Final w w' → Final w' w'' → Final w w''
chain_final a b = record {
  keeps = λ p set. let e = a.keeps p set in let k = b.keeps p (λ o. set (cc (e, o))) in cc (e, k);
}

instance abbrev pub final_order : Order Final
final_order = record { same = λ w. record { keeps = λ p set. refl }; chain = chain_final }

-- A call that leaves the promises alone.
pub same_promises-Final : {w w' : World} → w'.promises ≡ w.promises → Final w w'
same_promises-Final e = record { keeps = λ p set. cc e }

set_promise-Final :
    (p : ℕ) (v : Promise) (w : World) → w.promises p ≡ pending → Final w (set_promise p v w)
set_promise-Final p v w e = record { keeps = λ j set. ground arith }

satisfy-Final : (o v : Promise) (p : ℕ) (w : World) → w.promises p ≡ o → Final w (satisfy o v p w).1
satisfy-Final pending v p w e = set_promise-Final p v w e
satisfy-Final (value r) v p w e = final_order.same w
satisfy-Final (failed x) v p w e = final_order.same w

pub set_value-Final : (p : ℕ) (r : CallResult) → Grows Final (set_value p r)
unfolding set_value
set_value-Final p r = record { at = λ w. satisfy-Final (w.promises p) (value r) p w refl }

pub set_exception-Final : (p : ℕ) (e : Exception) → Grows Final (set_exception p e)
unfolding set_exception
set_exception-Final p e = record { at = λ w. satisfy-Final (w.promises p) (failed e) p w refl }
