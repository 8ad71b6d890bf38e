-- ===== src/Http/Final.antt =====
-- The answers that a server's clients have, whatever happens to it.
use protei_cov.Prelude.{
  ℕ, suc, ◌≡◌, ◌≢◌, ◌≤◌, ◌<◌, refl, sym, ap, subst, ◌∙◌, List, [], ◌∷◌, inl, inr, ◌==◌, Bool-cases,
  true, false, if◌then◌else◌, arith,
}
use protei_cov.Effects.{Exec, Outcome, ok, throws, fault, pure, continue, ◌>>=◌, ◌>>◌}
use protei_cov.Effects.Grows.{Order, Grows, Grows-bind, Grows-result, Grows-if}
use protei_cov.Json.{PropertyTree}
use protei_cov.Task.{Distribution}
use protei_cov.Config.ThreadSafe.{ThreadSafeConfig}
use protei_cov.Manager.{Manager, on_manager}
use protei_cov.Manager.Move.{worker_moves}
use protei_cov.Manager.Final.{
  FinalCalls, FinalBeside, chain_final_calls, same_final_calls, final_beside_order, on_config-Final,
  on_manager-Final,
}
use protei_cov.Http.Connections.{Connection, advance, wake, IsOver}
use protei_cov.Http.Visits.{Visit, its_manager, accept}
use protei_cov.Http.Serving.{
  Serving, Happening, requests, wakes, moves, first_look, minutes, watches, Watching, on_state,
  add_connection, set_connection, set_watching, on_watch, happens, serve, see_file, watch_on,
  keep_time,
}
mod Steps
use protei_cov.Http.Final.Steps.{
  accept-Final, advance-Final, advance-IsOver, worker_moves-Final, see_file-Final, watch_on-Final,
  over-wake,
}

-- What is settled in `s` is in `s'` what it was: the promises of its calls that are satisfied, and its
-- connections that have ended, with their replies.
pub record Settled {P : Type 0} (s s' : Serving P) : Type 0 where
  pub calls : FinalCalls s.state.1 s'.state.1
  pub later : s.accepted ≤ s'.accepted
  pub over :
      (k : ℕ) → k < s.accepted → IsOver (s.connections k) → s'.connections k ≡ s.connections k

module _ {P : Type 0} where
  chain_settled : {s s' s'' : Serving P} → Settled s s' → Settled s' s'' → Settled s s''
  chain_settled a b = record {
    calls = chain_final_calls a.calls b.calls;
    later = omega (arith, a.later, b.later);
    over = λ k lt o.
        let e = a.over k lt o in
        let e' = b.over k (omega (arith, lt, a.later)) (subst IsOver (sym e) o) in e' ∙ e;
  }

  -- A step that leaves the connections alone.
  beside :
      {s s' : Serving P}
      → FinalCalls s.state.1 s'.state.1
      → s'.accepted ≡ s.accepted
      → s'.connections ≡ s.connections
      → Settled s s'
  beside k e e' = record { calls = k; later = omega (arith, e); over = λ j lt o. cc e' }

  instance abbrev settled_order : Order (Settled {P = P})
  settled_order = record {
    same = λ s. beside (same_final_calls s.state.1) refl refl;
    chain = chain_settled;
  }

  on_state-Settled :
      {A : Type 0} {f : Exec (ThreadSafeConfig P × Manager) A}
      → Grows FinalBeside f
      → Grows Settled (on_state f)
  on_state-Settled k = record { at = λ s. beside (k.at s.state) refl refl }

  add_connection-Settled : (c : Connection) → Grows Settled (add_connection {P = P} c)
  add_connection-Settled c = record {
    at = λ s. record {
      calls = same_final_calls s.state.1;
      later = omega arith;
      over = λ k lt o. ground arith;
    };
  }

  -- Where a connection's thread makes a step.
  stepped :
      (s : Serving P) (k : ℕ) (r : Outcome Connection × (ThreadSafeConfig P × Manager))
      → FinalBeside s.state r.1
      → (IsOver (s.connections k) → r.0 ≡ ok (s.connections k))
      → Settled s (continue (set_connection k) (r.0, record s { state = r.1 })).1
  stepped s k (throws e, s') fin same = beside fin refl refl
  stepped s k (fault, s') fin same = beside fin refl refl
  stepped s k (ok c, s') fin same = record {
    calls = fin;
    later = omega arith;
    over = λ j lt o. elim (Bool-cases (k == j)) [
      | inr ne ↦ rw ne refl
      | inl e ↦
          let at_k : k ≡ j = ground arith in
          let there = subst (λ i. IsOver (s.connections i)) (sym at_k) o in
          let now : c ≡ s.connections j = cc (same there, at_k) in
          rw e (over-wake s'.1.system.world c (subst IsOver (sym now) o) ∙ now)
    ];
  }

  module _ (boost : PropertyTree P) (d : Distribution) where
    on_watch-Settled :
        (f : Watching → Exec (ThreadSafeConfig P × Manager) Watching)
        → ((w : Watching) → Grows FinalBeside (f w))
        → Grows Settled (on_watch boost d f)
    on_watch-Settled f k = record {
      at = λ s.
          (Grows-if s.state.0.monitoring
              (Grows-bind (on_state (f s.watching)) set_watching (on_state-Settled (k s.watching))
                λ w. record { at = λ s'. beside (same_final_calls s'.state.1) refl refl })
              (Grows-result _)).at
            s;
    }

    happens-Settled : (h : Happening) → Grows Settled (happens boost d h)
    happens-Settled (requests v is_get path) =
        Grows-bind (on_state (accept boost d v is_get path)) add_connection
          (on_state-Settled (accept-Final boost d v is_get path)) add_connection-Settled
    happens-Settled (wakes v k) = record {
      at = λ s.
          stepped s k (advance (its_manager boost d v) (s.connections k) s.state)
            ((advance-Final boost d v (s.connections k)).at s.state)
            λ o. ap (λ r. r.0) (advance-IsOver boost d v (s.connections k) s.state o);
    }
    happens-Settled (moves t) = on_state-Settled (on_manager-Final (worker_moves-Final boost d t))
    happens-Settled (first_look t) =
        on_watch-Settled (λ w. keep_time t >> pure w)
          λ w. Grows-bind (keep_time t) (λ _. pure w) (on_config-Final _) λ _. Grows-result _
    happens-Settled (minutes t host) =
        on_watch-Settled (see_file boost d t host) (see_file-Final boost d t host)
    happens-Settled (watches joining) =
        on_watch-Settled (watch_on boost d joining) (watch_on-Final boost d joining)

    serving : (hs : List Happening) → Grows Settled (serve boost d hs)
    unfolding serve
    serving [] = Grows-result _
    serving (h ∷ hs) =
        Grows-bind (happens boost d h) (λ _. serve boost d hs) (happens-Settled h) λ _. serving hs

    -- A client's answer is final. Whatever happens to a server in any state, in order or not: requests,
    -- steps of connections' threads, moves of operators, renewals of the pool, whether the steps return,
    -- throw or are undefined: every promise of a call so far that is satisfied keeps its result or
    -- exception, and every connection that has ended stays as it is, with the reply that it wrote.
    pub serve-Settled : (hs : List Happening) (s : Serving P) → Settled s (serve boost d hs s).1
    serve-Settled hs = (serving hs).at
