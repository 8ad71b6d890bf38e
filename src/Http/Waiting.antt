-- ===== src/Http/Waiting.antt =====
-- What a connection's thread finds when it looks at the promise of a client who is served.
use protei_cov.Prelude.{ℕ, ◌≡◌, refl, sym, ap, ◌∙◌, List, [], ◌∷◌, ◌⊎◌, inl, inr, All, Any}
use protei_cov.CallRecord.{CallResult}
use protei_cov.World.{World, pending}
use protei_cov.Queue.{Item}
use protei_cov.Queue.Valid.{promise_of}
use protei_cov.Pool.Alike.{IsOpen}
use protei_cov.Pool.Placed.{queued, held, answered, IsAnswer, IsTold}
use protei_cov.Manager.{Manager}
use protei_cov.Manager.Laws.{IsReady, IsServed, HasPlace-Placed}
use protei_cov.Http.Defs.{blank, call_response, finished}
use protei_cov.Http.Connections.{Connection, calling, replied, wake, settle}

queued_waits :
    (p n : ℕ) (w : World) (xs : List Item)
    → All (IsOpen n w) xs
    → Any (λ y. promise_of w y ≡ p) xs
    → w.promises p ≡ pending
queued_waits p n w [] os m = absurd m
queued_waits p n w (x ∷ xs) (o, os) (inl e) = ap w.promises (sym e) ∙ o.waits
queued_waits p n w (x ∷ xs) (o, os) (inr m) = queued_waits p n w xs os m

-- A client that is served waits, or has its result.
Served-outcome :
    (p : ℕ) (m : Manager)
    → IsReady m
    → IsServed p m
    → (m.system.world.promises p ≡ pending) ⊎ IsTold p m.system.world
Served-outcome p m r (_, place) = elim (HasPlace-Placed m.system r.holds place) [
  | queued a ↦ inl (queued_waits p m.next_task m.system.world r.queue.items r.holds.inv.queued a)
  | held i x e mine ↦ inl (ap m.system.world.promises (sym mine) ∙ (r.holds.inv.held i x e).waits)
  | answered told ↦ inr told
]

-- The reply to a call that was served.
abbrev pub HasReply : ℕ → Connection → Type 0
HasReply id c =
    (r : CallResult) × IsAnswer r.status × (c ≡ replied (finished (call_response blank id r)))

pub wake-HasReply :
    (id p : ℕ) (m : Manager)
    → IsReady m
    → IsServed p m
    → (wake m.system.world (calling id p) ≡ calling id p)
      ⊎ HasReply id (wake m.system.world (calling id p))
unfolding wake settle
wake-HasReply id p m r served = elim (Served-outcome p m r served) [
  | inl e ↦ inl (rw e refl)
  | inr (v, e, a) ↦ inr (v, a, rw e refl)
]
