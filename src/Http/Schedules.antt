-- ===== src/Http/Schedules.antt =====
-- A server's operators moving one after the other, and its connections' threads looking in turn.
use protei_cov.Prelude.{
  ℕ, zero, suc, ◌≡◌, ◌≤◌, ◌<◌, refl, ap, ◌∙◌, List, [], ◌∷◌, ◌++◌, map, inl, inr, All, arith,
}
use protei_cov.Effects.{Outcome, ok, throws, fault, continue}
use protei_cov.Json.{PropertyTree}
use protei_cov.World.{update}
use protei_cov.Task.{Distribution}
use protei_cov.Task.Laws.{InBounds}
use protei_cov.Pool.{System}
use protei_cov.Pool.Alike.{update_cases}
use protei_cov.Pool.Join.{Turn, turns}
use protei_cov.Pool.Joining.{Fit}
use protei_cov.Manager.Laws.{IsReady}
use protei_cov.Manager.Move.{worker_moves-Moved}
use protei_cov.Http.Connections.{wake}
use protei_cov.Http.Serving.{Serving, Happening, wakes, moves, set_connection, happens, serve}
use protei_cov.Http.Visits.{Visit, its_manager}
use protei_cov.Http.Advance.{steps_left, steps_left-wake, advance_rests}

-- The threads of the first `n` connections look at their futures, one after the other.
abbrev pub waking : Visit → ℕ → List Happening
waking v zero = []
waking v (suc n) = wakes v n ∷ waking v n

-- No request for an update is under way.
abbrev pub IsCalm : {P : Type 0} → Serving P → Type 0
IsCalm s = (k : ℕ) → steps_left (s.connections k) ≡ 0

module _ {P : Type 0} (boost : PropertyTree P) (d : Distribution) where
  after_first :
      (xs ys : List Happening) (s' : Serving P) (o : Outcome (Unit {0}) × Serving P)
      → ((s : Serving P)
          → serve boost d xs s ≡ (ok tt, s')
          → serve boost d (xs ++ ys) s ≡ serve boost d ys s')
      → continue (λ u. serve boost d xs) o ≡ (ok tt, s')
      → continue (λ u. serve boost d (xs ++ ys)) o ≡ serve boost d ys s'
  after_first xs ys s' (ok u, s) later e = later s e
  after_first xs ys s' (throws x, s) later e = absurd (cc)
  after_first xs ys s' (fault, s) later e = absurd (cc)

  pub serve-append :
      (xs ys : List Happening) (s s' : Serving P)
      → serve boost d xs s ≡ (ok tt, s')
      → serve boost d (xs ++ ys) s ≡ serve boost d ys s'
  unfolding serve
  serve-append [] ys s s' e = ap (λ u. serve boost d ys u.1) e
  serve-append (h ∷ xs) ys s s' e =
      after_first xs ys s' (happens boost d h s) (λ u. serve-append xs ys u s') e

  -- What is left when the threads below `n` have looked.
  pub record Looked (v : Visit) (n : ℕ) (s : Serving P) : Type 0 where
    pub end : Serving P
    pub returns : serve boost d (waking v n) s ≡ (ok tt, end)
    pub state : end.state ≡ s.state
    pub below : (k : ℕ) → k < n → end.connections k ≡ wake s.state.1.system.world (s.connections k)
    pub above : (k : ℕ) → n ≤ k → end.connections k ≡ s.connections k

  -- A look in a calm server leaves all but the connection.
  calm_look :
      (v : Visit) (n : ℕ) (s : Serving P)
      → IsCalm s
      → happens boost d (wakes v n) s ≡ (
        ok tt,
        record s {
          connections = update s.connections n (wake s.state.1.system.world (s.connections n));
        },
      )
  calm_look v n s calm =
      ap (λ o. continue (set_connection n) (o.0, record s { state = o.1 }))
        (advance_rests (its_manager boost d v) (s.connections n) s.state (calm n))

  pub waking-Looked : (v : Visit) (n : ℕ) (s : Serving P) → IsCalm s → Looked v n s
  unfolding serve
  waking-Looked v zero s calm = record {
    end = s;
    returns = refl;
    state = refl;
    below = λ k lt. absurd (omega (arith, lt));
    above = λ k le. refl;
  }
  waking-Looked v (suc n) s calm =
      let w = s.state.1.system.world in
      let c = wake w (s.connections n) in
      let calm' : (k : ℕ) → steps_left (update s.connections n c k) ≡ 0 = λ k.
        elim (update_cases s.connections n c k) [
          | inl (same, e) ↦ ap steps_left e ∙ steps_left-wake w (s.connections n) ∙ calm n
          | inr (ne, e) ↦ ap steps_left e ∙ calm k
        ] in
      let rest = waking-Looked v n (record s { connections = update s.connections n c }) calm' in
      record {
        end = rest.end;
        returns =
            ap (continue (λ u. serve boost d (waking v n))) (calm_look v n s calm) ∙ rest.returns;
        state = rest.state;
        below = λ k lt. elim (update_cases s.connections n c k) [
          | inl (same, e) ↦
              rest.above k (omega (arith, same)) ∙ e ∙ ap (λ j. wake w (s.connections j)) same
          | inr (ne, e) ↦ rest.below k (omega (arith, lt, ne)) ∙ ap (wake w) e
        ];
        above = λ k le. elim (update_cases s.connections n c k) [
          | inl (same, e) ↦ absurd (omega (arith, le, same))
          | inr (ne, e) ↦ rest.above k (omega (arith, le)) ∙ e
        ];
      }

  pub moving_lem :
      (inside : InBounds d) (ts : List Turn) (s : Serving P) (end : System)
      → IsReady s.state.1
      → All (Fit s.state.1.system.pool.size) ts
      → turns d ts s.state.1.system ≡ (ok tt, end)
      → serve boost d (map moves ts) s
        ≡ (ok tt, record s { state = (s.state.0, record (s.state.1) { system = end }) })
  unfolding serve turns
  moving_lem inside [] s end r fit e =
      ap (λ u. (ok tt, record s { state = (s.state.0, record (s.state.1) { system = u.1 }) })) e
  moving_lem inside (t ∷ ts) s end r ((lt, (seed, random)), fit) e =
      let v = worker_moves-Moved d t s.state.1 seed inside random r in
      let rest =
        moving_lem inside ts (record s { state = (s.state.0, v.after) }) end v.ready (rw v.size fit)
          (rw (v.turned lt) at e) in
      rw v.returns (
        rest
        ∙ ap (λ m. (ok tt, record s { state = (s.state.0, record m { system = end }) })) v.same)
