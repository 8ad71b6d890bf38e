-- ===== src/Manager/Days.antt =====
-- What holds through the events of a manager.
use protei_cov.Prelude.{
  ℕ, ◌≡◌, ◌≢◌, ◌≤◌, refl, Option, none, some, List, [], ◌∷◌, All, All-map, AllPairs, arith,
}
use protei_cov.Effects.{ok}
use protei_cov.Task.{Distribution}
use protei_cov.Task.Laws.{InBounds}
use protei_cov.Pool.Progress.{IsRunning}
use protei_cov.Manager.Defs.{IConfig, Manager}
use protei_cov.Manager.Laws.{IsLawful, IsReady, IsServed}
use protei_cov.Manager.Events.{Event, run, gained, IsAllowed, IsBusy}
use protei_cov.Manager.Step.{step-Stepped}

module _ {C : Type 0} {config : IConfig C Manager} (law : IsLawful config) (d : Distribution)
    (inside : InBounds d) where
  gained-All :
      (A : ℕ → Type 0) (o : Option ℕ) (ps : List ℕ)
      → ((p : ℕ) → o ≡ some p → A p)
      → All A ps
      → All A (gained o ps)
  gained-All A none ps a b = b
  gained-All A (some p) ps a b = (a p refl, b)

  gained-AllPairs :
      (R : ℕ → ℕ → Type 0) (o : Option ℕ) (ps : List ℕ)
      → ((p : ℕ) → o ≡ some p → All (R p) ps)
      → AllPairs R ps
      → AllPairs R (gained o ps)
  gained-AllPairs R none ps a b = b
  gained-AllPairs R (some p) ps a b = (a p refl, b)

  -- What a day leaves: a running pool runs on if nobody stops it, every client that
  -- was served is served still, and so is every one that called; no two of them got the same promise.
  pub record Day (es : List (Event C)) (s : C × Manager) : Type 0 where
    pub end : C × Manager
    pub promises : List ℕ
    pub returns : run config d es s ≡ (ok promises, end)
    pub good : law.IsGood end.0
    pub ready : IsReady end.1
    pub running : All IsBusy es → IsRunning s.1.system → IsRunning end.1.system
    pub kept : (p : ℕ) → IsServed p s.1 → IsServed p end.1
    pub served : All (λ p. IsServed p end.1) promises
    pub new : All (λ p. s.1.next_task ≤ p) promises
    pub distinct : AllPairs (λ p p'. p ≢ p') promises

  -- A manager that is ready, over any config that keeps the laws and is good, stays ready through any
  -- list of events that are allowed: the run returns, clients who had a place (in the queue, in a
  -- hand, or answered) keep one, and those who call in it get promises of their own, and a place.
  pub run-Day :
      (es : List (Event C)) (s : C × Manager)
      → All (IsAllowed law) es
      → law.IsGood s.0
      → IsReady s.1
      → Day es s
  unfolding run
  run-Day [] s a good r = record {
    end = s;
    promises = [];
    returns = refl;
    good = good;
    ready = r;
    running = λ b u. u;
    kept = λ p k. k;
    served = tt;
    new = tt;
    distinct = tt;
  }
  run-Day (e ∷ es) s (a, more) good r =
      let st = step-Stepped law d inside s good r e a in
      let rest = run-Day es st.end more st.good st.ready in
      record {
        end = rest.end;
        promises = gained st.promise rest.promises;
        returns = rw (st.returns, rest.returns) refl;
        good = rest.good;
        ready = rest.ready;
        running = λ (b, bs) u. rest.running bs (st.running b u);
        kept = λ p k. rest.kept p (st.kept p k);
        served =
            gained-All (λ p. IsServed p rest.end.1) st.promise rest.promises
              (λ p h. rest.kept p (st.new p h).1) rest.served;
        new =
            gained-All (λ p. s.1.next_task ≤ p) st.promise rest.promises
              (λ p h. omega (arith, (st.new p h).0))
              (All-map rest.promises (λ p le. omega (arith, le, st.later)) rest.new);
        distinct =
            gained-AllPairs (λ p p'. p ≢ p') st.promise rest.promises
              (λ p h.
                All-map rest.promises (λ p' le q. omega (arith, (st.new p h).1.0, le, q)) rest.new)
              rest.distinct;
      }
