-- ===== src/Http/Replies.antt =====
-- Every client of a server that runs gets its reply.
use protei_cov.Prelude.{
  ℕ, ◌+◌, ◌*◌, ◌≡◌, ◌≢◌, ◌≤◌, ◌<◌, refl, sym, ap, ◌∙◌, subst, List, ◌++◌, map, length, inl, inr,
  All, arith,
}
use protei_cov.Effects.{ok}
use protei_cov.CallRecord.{CallResult}
use protei_cov.Json.{PropertyTree}
use protei_cov.World.{World, value}
use protei_cov.Task.{Distribution}
use protei_cov.Task.Laws.{InBounds}
use protei_cov.Pool.Join.{Turn}
use protei_cov.Pool.Joining.{Fit, count}
use protei_cov.Pool.Placed.{IsAnswer, IsTold}
use protei_cov.Pool.Answered.{AllAnswered, turns-AllAnswered}
use protei_cov.Manager.Laws.{HasPlace-Placed}
use protei_cov.Http.Defs.{Response, blank, call_response, finished}
use protei_cov.Http.Connections.{
  Connection, unopened, calling, reread, notified, asking, replied, closed, wake, settle, IsOver,
}
use protei_cov.Http.Serving.{Serving, moves, serve}
use protei_cov.Http.Visits.{Visit}
use protei_cov.Http.Advance.{steps_left}
use protei_cov.Http.Alive.{IsAlive}
use native.Mathlib.Decide.{dec_lt}
use protei_cov.Http.Schedules.{waking, IsCalm, serve-append, waking-Looked, moving_lem}

-- A connection whose promise has a result.
wake_told :
    (w : World) (id p : ℕ)
    → IsTold p w
    → (r : CallResult) × (w.promises p ≡ value r)
      × IsAnswer r.status
      × (wake w (calling id p) ≡ replied (finished (call_response blank id r)))
unfolding wake settle
wake_told w id p (r, e, a) = (r, e, a, rw e refl)

wake-IsOver :
    (w : World) (c : Connection)
    → c ≢ unopened
    → steps_left c ≡ 0
    → ((id p : ℕ) → c ≡ calling id p → IsTold p w)
    → IsOver (wake w c)
unfolding wake
wake-IsOver w unopened seen calm told = absurd (seen refl)
wake-IsOver w reread seen calm told = absurd (omega (arith, calm))
wake-IsOver w notified seen calm told = absurd (omega (arith, calm))
wake-IsOver w asking seen calm told = absurd (omega (arith, calm))
wake-IsOver w (calling id p) seen calm told =
    let (r, _, _, e) = wake_told w id p (told id p refl) in
    inr (finished (call_response blank id r), e)
wake-IsOver w (replied res) seen calm told = inr (res, refl)
wake-IsOver w closed seen calm told = inl refl

module _ {P : Type 0} (boost : PropertyTree P) (d : Distribution) where
  -- The replies, after the moves `ts` of the operators and a look of each connection's thread.
  pub record AllReplied (v : Visit) (ts : List Turn) (s : Serving P) : Type 0 where
    pub end : Serving P
    pub returns : serve boost d (map moves ts ++ waking v s.accepted) s ≡ (ok tt, end)
    pub over : (k : ℕ) → k < s.accepted → IsOver (end.connections k)
    pub told :
        (k id p : ℕ)
        → s.connections k ≡ calling id p
        → (r : CallResult) × (end.state.1.system.world.promises p ≡ value r)
          × IsAnswer r.status
          × (end.connections k ≡ replied (finished (call_response blank id r)))
    pub same :
        (k : ℕ) (res : Response) → s.connections k ≡ replied res → end.connections k ≡ replied res

  module _ (inside : InBounds d) (ts : List Turn) (s : Serving P) (a : IsAlive s)
      (fit : All (Fit s.state.1.system.pool.size) ts)
      (often : (j : ℕ)
        → j < s.state.1.system.pool.size
        → 3 * length a.ready.queue.items + 2 ≤ count j ts) where
    its_end : AllAnswered d a.ready.queue ts s.state.1.system
    its_end =
        turns-AllAnswered d inside s.state.1.next_task a.ready.queue ts s.state.1.system
          a.ready.holds a.running fit often

    moved : Serving P
    moved = record s { state = (s.state.0, record (s.state.1) { system = its_end.end }) }

    waiting-IsTold : (k id p : ℕ) → s.connections k ≡ calling id p → IsTold p its_end.end.world
    waiting-IsTold k id p e =
        its_end.told p (HasPlace-Placed s.state.1.system a.ready.holds (a.served k p (id, e)).1)

    seen : (k : ℕ) → s.connections k ≢ unopened → k < s.accepted
    seen k h = elim (dec_lt k s.accepted) [
      | yes lt ↦ lt
      | no ge ↦ absurd (h (a.unseen k (omega arith)))
    ]

    -- A server in order, with no request for an update under way and a random device that works,
    -- answers everybody: on every schedule, in any order, that gives each operator three moves for
    -- each call in the queue and two more, and then lets the threads of the connections look at their
    -- futures, every accepted connection comes to its end; whoever waited gets the result of its own
    -- promise as the reply, with its id and a status that is completed, timeout, duplication or
    -- overloaded, and the replies that were given stay.
    pub serve-AllReplied : (v : Visit) → IsCalm s → AllReplied v ts s
    unfolding wake moved
    serve-AllReplied v calm =
        let l = waking-Looked boost d v s.accepted moved calm in
        record {
          end = l.end;
          returns =
              serve-append boost d (map moves ts) (waking v s.accepted) s moved
                (moving_lem boost d inside ts s its_end.end a.ready fit its_end.returns)
              ∙ l.returns;
          over = λ k lt. subst IsOver (sym (l.below k lt)) (
              wake-IsOver its_end.end.world (s.connections k) (a.opened k lt) (calm k)
                (λ id p e. waiting-IsTold k id p e));
          told = λ k id p e.
              let (r, given, answer, written) =
                wake_told its_end.end.world id p (waiting-IsTold k id p e) in
              (
                r,
                ap (λ u. u.1.system.world.promises p) l.state ∙ given,
                answer,
                l.below k (seen k (λ h. let f = sym e ∙ h in cc))
                    ∙ ap (wake its_end.end.world) e
                    ∙ written,
              );
          same = λ k res e.
              l.below k (seen k (λ h. let f = sym e ∙ h in cc)) ∙ ap (wake its_end.end.world) e;
        }
