-- ===== src/Http/Life.antt =====
-- What holds of a server as long as it runs.
use protei_cov.Prelude.{
  sym, ℕ, suc, ◌-◌, ◌≡◌, ◌≢◌, ◌≤◌, refl, ap, ◌∙◌, List, [], ◌∷◌, All, ◌⊎◌, inl, inr, Bool,
  Bool-cases, Text, if◌then◌else◌, arith,
}
use protei_cov.Effects.{ok, Exec, pure, continue, ◌>>=◌, ◌>>◌}
use protei_cov.Json.{PropertyTree}
use protei_cov.World.{World, update}
use protei_cov.Task.{Distribution}
use protei_cov.Task.Laws.{InBounds}
use protei_cov.Config.ThreadSafe.{ThreadSafeConfig}
use protei_cov.Manager.{Manager}
use protei_cov.Manager.Replace.{IsFair}
use protei_cov.Manager.Move.{worker_moves-Moved}
use protei_cov.Pool.Rounds.{update_here}
use protei_cov.Http.Defs.{Response}
use protei_cov.Http.Connections.{Connection, unopened, calling, replied, wake}
use protei_cov.Http.Waiting.{HasReply, wake-HasReply}
use protei_cov.Http.Visits.{Visit, Opened, not_get, calls, no_number, updates, unknown}
use protei_cov.Http.Accept.{Received, accept-Received}
use protei_cov.Http.Serving.{
  Serving, Happening, requests, wakes, moves, first_look, minutes, watches, Watching, see_file,
  watch_on, keep_time, on_state, on_watch, set_watching, happens, serve, IsFine,
}
use protei_cov.Http.Alive.{
  IsAlive, Follows-trans, wake-Follows, state_changes, changed-IsAlive, grown, grown-IsAlive,
}
use protei_cov.Http.Advance.{
  steps_left, steps_left-wake, advance-Advanced, Watched, keep_time-Watched, see_file-Watched,
  watch_on-Watched,
}

Opened-ne-unopened :
    {v : Visit} {n : ℕ} {frozen is_get : Bool} {path : Text} {c : Connection}
    → Opened v n frozen is_get path c
    → c ≢ unopened
Opened-ne-unopened (not_get _ e) h = cc
Opened-ne-unopened (calls _ _ _ _ e) h = cc
Opened-ne-unopened (no_number _ _ _ _ e) h = cc
Opened-ne-unopened {frozen} (updates _ _ e) h = elim (Bool-cases frozen) [
  | inl y ↦ absurd (let f = sym e ∙ h in let g = rw y at f in cc)
  | inr n ↦ absurd (let f = sym e ∙ h in let g = rw n at f in cc)
]
Opened-ne-unopened (unknown _ _ e) h = cc

wake_replied : (w : World) (res : Response) → wake w (replied res) ≡ replied res
unfolding wake
wake_replied w res = refl

module _ {P : Type 0} (boost : PropertyTree P) (d : Distribution) (inside : InBounds d) where
  -- One happening, without a fault or an exception that nobody catches.
  record Happened (h : Happening) (s : Serving P) : Type 0 where
    end : Serving P
    returns : happens boost d h s ≡ (ok tt, end)
    alive : IsAlive end
    more : s.accepted ≤ end.accepted

  module _ (s : Serving P) (a : IsAlive s) where
    requests-Happened :
        (v : Visit) (is_get : Bool) (path : Text)
        → ((n : ℕ) → IsFair n (v.joining n))
        → Happened (requests v is_get path) s
    requests-Happened v is_get path fair =
        let r : Received boost d v is_get path s.state =
          accept-Received boost d inside v fair s.state.0 s.state.1 a.set a.ready is_get path in
        record {
          end = record s {
            state = r.end;
            connections = grown s r.connection;
            accepted = suc s.accepted;
          };
          returns = rw r.returns refl;
          alive =
              grown-IsAlive s a r.end r.connection (Opened-ne-unopened r.opened)
                (state_changes s a r.end s.watching r.set r.ready r.going r.kept) r.new;
          more = omega arith;
        }

    -- One step of a connection's thread: its own connection goes on, and no other changes.
    pub record Woken (v : Visit) (k : ℕ) : Type 0 where
      pub end : Serving P
      pub returns : happens boost d (wakes v k) s ≡ (ok tt, end)
      pub alive : IsAlive end
      pub same_number : end.accepted ≡ s.accepted
      pub fewer : steps_left (end.connections k) ≡ steps_left (s.connections k) - 1
      pub others : (j : ℕ) → k ≢ j → end.connections j ≡ s.connections j
      pub waiting :
          (id p : ℕ)
          → s.connections k ≡ calling id p
          → (end.connections k ≡ calling id p) ⊎ HasReply id (end.connections k)
      pub replies :
          (res : Response) → s.connections k ≡ replied res → end.connections k ≡ replied res

    pub wakes-Woken : (v : Visit) (k : ℕ) → ((n : ℕ) → IsFair n (v.joining n)) → Woken v k
    wakes-Woken v k fair =
        let x =
          advance-Advanced boost d inside s.state.0 s.state.1 a.set a.ready v fair
            (s.connections k) in
        let w = x.end.1.system.world in
        let c = wake w x.next in
        let e = update_here s.connections k c in
        record {
          end = record s { state = x.end; connections = update s.connections k c };
          returns = rw x.returns refl;
          alive =
              changed-IsAlive (record s { state = x.end })
                (state_changes s a x.end s.watching x.handled.set x.handled.ready x.handled.going
                  x.handled.kept)
                k c (Follows-trans x.follows (wake-Follows w x.next));
          same_number = refl;
          fewer = ap steps_left e ∙ steps_left-wake w x.next ∙ x.fewer;
          others = λ j ne. ground arith;
          waiting = λ id p here.
              let f = e ∙ ap (wake w) (x.rests (ap steps_left here) ∙ here) in
              elim (wake-HasReply id p x.end.1 x.handled.ready
                (x.handled.kept p (a.served k p (id, here)))) [
                  | inl h ↦ inl (f ∙ h)
                  | inr (r, answer, h) ↦ inr (r, answer, f ∙ h)
                ];
          replies = λ res here.
              e ∙ ap (wake w) (x.rests (ap steps_left here) ∙ here) ∙ wake_replied w res;
        }

    wakes-Happened :
        (v : Visit) (k : ℕ) → ((n : ℕ) → IsFair n (v.joining n)) → Happened (wakes v k) s
    wakes-Happened v k fair =
        let x = wakes-Woken v k fair in
        record {
          end = x.end;
          returns = x.returns;
          alive = x.alive;
          more = omega (arith, x.same_number);
        }

    -- Where the file is watched, the thread makes its step, and nothing else happens.
    watch-Happened :
        (h : Happening) (f : Watching → Exec (ThreadSafeConfig P × Manager) Watching)
        → happens boost d h s ≡ on_watch boost d f s
        → Watched boost d inside s.state.0 s.state.1 a.set a.ready f s.watching
        → Happened h s
    watch-Happened h f same x = elim (Bool-cases s.state.0.monitoring) [
      | inl on ↦ record {
        end = record s { state = x.end; watching = x.next };
        returns =
            same
            ∙ ap (λ b. (if b then (on_state (f s.watching) >>= set_watching) else pure tt) s) on
            ∙ ap (λ y. continue set_watching (y.0, record s { state = y.1 })) x.returns;
        alive =
            state_changes s a x.end x.next x.handled.set x.handled.ready x.handled.going
              x.handled.kept;
        more = omega arith;
      }
      | inr off ↦ record {
        end = s;
        returns =
            same
            ∙ ap (λ b. (if b then (on_state (f s.watching) >>= set_watching) else pure tt) s) off;
        alive = a;
        more = omega arith;
      }
    ]

    step-Happened : (h : Happening) → IsFine h → Happened h s
    step-Happened (requests v is_get path) fair = requests-Happened v is_get path fair
    step-Happened (wakes v k) fair = wakes-Happened v k fair
    step-Happened (moves t) (seed, random) =
        let v = worker_moves-Moved d t s.state.1 seed inside random a.ready in
        record {
          end = record s { state = (s.state.0, v.after) };
          returns = rw v.returns refl;
          alive = state_changes s a (s.state.0, v.after) s.watching a.set v.ready v.running v.kept;
          more = omega arith;
        }
    step-Happened (first_look t) fine =
        watch-Happened (first_look t) (λ w. keep_time t >> pure w) refl
          (keep_time-Watched boost d inside s.state.0 s.state.1 a.set a.ready t s.watching)
    step-Happened (minutes t host) fine =
        watch-Happened (minutes t host) (see_file boost d t host) refl
          (see_file-Watched boost d inside s.state.0 s.state.1 a.set a.ready t host s.watching)
    step-Happened (watches joining) fair =
        watch-Happened (watches joining) (watch_on boost d joining) refl (
          watch_on-Watched boost d inside s.state.0 s.state.1 a.set a.ready joining fair s.watching)

  -- A stretch of a server's life.
  pub record Lives (hs : List Happening) (s : Serving P) : Type 0 where
    pub end : Serving P
    pub returns : serve boost d hs s ≡ (ok tt, end)
    pub alive : IsAlive end
    pub more : s.accepted ≤ end.accepted

  -- A server in order stays in order through any happenings, in any order: requests on new
  -- connections, steps of connections' threads, moves of operators, steps of the thread that watches
  -- the config's file, where the random device works and schedules are fair.
  -- Nothing faults and nothing is thrown; its pool runs; no accepted connection is lost, every one
  -- that waits is served, and no two wait for the same promise.
  pub serve-Lives : (hs : List Happening) (s : Serving P) → All IsFine hs → IsAlive s → Lives hs s
  unfolding serve
  serve-Lives [] s fine a = record { end = s; returns = refl; alive = a; more = omega arith }
  serve-Lives (h ∷ hs) s (fine, rest) a =
      let one = step-Happened s a h fine in
      let later = serve-Lives hs one.end rest one.alive in
      record {
        end = later.end;
        returns = rw one.returns later.returns;
        alive = later.alive;
        more = omega (arith, one.more, later.more);
      }
