-- ===== src/Http/Clients.antt =====
-- The clients of a server, from its start to their replies.
use protei_cov.Prelude.{
  ℕ, ◌+◌, ◌*◌, ◌≡◌, ◌≤◌, ◌<◌, refl, subst, true, some, List, length, inl, inr, ap, All, Text, arith,
}
use protei_cov.Effects.{ok}
use protei_cov.Json.{PropertyTree}
use protei_cov.World.{World}
use protei_cov.Task.{Distribution}
use protei_cov.Task.Laws.{InBounds}
use protei_cov.Config.Range.{IsNormal}
use protei_cov.Config.ThreadSafe.{
  ThreadSafeConfig, construct as construct_config, run_monitoring, set_manager,
}
use protei_cov.Pool.{start, set_pool}
use protei_cov.Pool.Join.{Turn}
use protei_cov.Pool.Joining.{Fit, count}
use protei_cov.Manager.{Manager, start_thread_pool}
use protei_cov.Manager.Laws.{flags-IsReady}
use protei_cov.Manager.Reread.{IsEquipped}
use protei_cov.Builder.{ManagerBuilder, Site, new_builder, build_logger}
use protei_cov.Builder.Laws.{its_config, construct-Constructed}
use protei_cov.Http.Server.{new_server}
use protei_cov.Http.Connections.{calling, IsOver}
use protei_cov.Http.Waiting.{HasReply}
use protei_cov.Http.Visits.{Visit}
use protei_cov.Http.Serving.{Serving, Happening, IsFine, fresh}
use protei_cov.Http.Advance.{steps_left}
use protei_cov.Http.Finishing.{Finished, finishing-Finished}
use protei_cov.Manager.Replace.{IsFair}
use native.Mathlib.Decide.{dec_lt}
use protei_cov.Http.Alive.{IsAlive}
use protei_cov.Http.Life.{Lives, serve-Lives}
use protei_cov.Http.Schedules.{IsCalm}
use protei_cov.Http.Replies.{AllReplied, serve-AllReplied}

-- How a server comes to the end of what its clients asked of it: first the requests for an update,
-- then the calls.
pub record Settles {P : Type 0} (boost : PropertyTree P) (d : Distribution) (inside : InBounds d)
    (v : Visit) (fair : (n : ℕ) → IsFair n (v.joining n)) (s : Serving P) : Type 0 where
  pub first : Finished boost d inside v fair s.accepted s
  pub replies :
      (ts : List Turn)
      → All (Fit first.end.state.1.system.pool.size) ts
      → ((j : ℕ)
          → j < first.end.state.1.system.pool.size
          → 3 * length first.alive.ready.queue.items + 2 ≤ count j ts)
      → AllReplied boost d v ts first.end
  pub over :
      (ts : List Turn) (fit : All (Fit first.end.state.1.system.pool.size) ts)
      (often : (j : ℕ)
        → j < first.end.state.1.system.pool.size
        → 3 * length first.alive.ready.queue.items + 2 ≤ count j ts)
      (k : ℕ)
      → k < s.accepted
      → IsOver ((replies ts fit often).end.connections k)
  pub told :
      (ts : List Turn) (fit : All (Fit first.end.state.1.system.pool.size) ts)
      (often : (j : ℕ)
        → j < first.end.state.1.system.pool.size
        → 3 * length first.alive.ready.queue.items + 2 ≤ count j ts)
      (k id p : ℕ)
      → s.connections k ≡ calling id p
      → HasReply id ((replies ts fit often).end.connections k)

module _ {P : Type 0} (boost : PropertyTree P) (d : Distribution) (inside : InBounds d) (v : Visit)
    (fair : (n : ℕ) → IsFair n (v.joining n)) (s : Serving P) (a : IsAlive s) where
  pub Finished-IsCalm : (f : Finished boost d inside v fair s.accepted s) → IsCalm f.end
  Finished-IsCalm f k = elim (dec_lt k s.accepted) [
    | yes lt ↦ f.finished k lt
    | no ge ↦ ap steps_left (f.alive.unseen k (omega (arith, f.same_number)))
  ]

  -- A server in order settles with all its clients: three steps of each connection's thread end the
  -- requests for an update; after that, whatever the order in which the operators move, once each has
  -- made three moves for each call in the queue and two more, a look of each connection's thread ends
  -- every connection, and whoever waited for a call has a reply with a status that is completed,
  -- timeout, duplication or overloaded.
  pub server-Settles : Settles boost d inside v fair s
  server-Settles =
      let f = finishing-Finished boost d inside v fair s.accepted s a in
      let replies : (ts : List Turn)
          → All (Fit f.end.state.1.system.pool.size) ts
          → ((j : ℕ)
              → j < f.end.state.1.system.pool.size
              → 3 * length f.alive.ready.queue.items + 2 ≤ count j ts)
          → AllReplied boost d v ts f.end =
        λ ts fit often.
          serve-AllReplied boost d inside ts f.end f.alive fit often v (Finished-IsCalm f) in
      record {
        first = f;
        replies = replies;
        over =
            λ ts fit often k lt. (replies ts fit often).over k (omega (arith, lt, f.same_number));
        told = λ ts fit often k id p e. elim ((f.onward k).waiting id p e) [
          | inl h ↦
              let (r, _, answer, written) = (replies ts fit often).told k id p h in
              (r, answer, written)
          | inr (r, answer, h) ↦ (r, answer, (replies ts fit often).same k _ h)
        ];
      }

-- A server that starts, the life `hs` after it, and what then comes back to its clients.
pub record ServesAll {P : Type 0} (boost : PropertyTree P) (site : Site) (world : World)
    (text : Text) (d : Distribution) (inside : InBounds d) (hs : List Happening) : Type 0 where
  pub manager : Manager
  pub builder : ManagerBuilder P
  pub config : ThreadSafeConfig P
  pub starts : new_server boost true site world (new_builder text) ≡ (ok manager, builder)
  pub here : builder.config ≡ some config
  pub life : Lives boost d inside hs (fresh config manager)
  pub settles :
      (v : Visit) (fair : (n : ℕ) → IsFair n (v.joining n)) → Settles boost d inside v fair life.end

module _ {P : Type 0} (boost : PropertyTree P) (site : Site) (world : World) (text : Text) where
  abbrev read_config : ThreadSafeConfig P
  read_config = its_config boost site world text

  logs : read_config.has_logger ≡ true
  unfolding construct_config
  logs = ground arith

  watched-IsEquipped :
      (c : ThreadSafeConfig P)
      → IsNormal c.settings
      → c.has_logger ≡ true
      → IsEquipped (set_manager boost (run_monitoring boost c))
  unfolding set_manager run_monitoring
  watched-IsEquipped c n l = record {
    normal = subst IsNormal (ground arith) n;
    logs = ground arith;
    managed = refl;
  }

  -- A server whose port and log file open, over a file of normal settings, starts, and from there
  -- lives through any list of happenings, in any order: requests of any method and path, steps of
  -- connections' threads, moves of operators, steps of the thread that watches the file (the random
  -- device working, schedules fair). Nothing faults or is thrown; and then it settles with all its
  -- clients: steps of the connections' threads and moves of the operators, enough of each, in any
  -- order of the operators, end all connections, and whoever waited for a call has a reply with a
  -- status that is completed, timeout, duplication or overloaded.
  pub new_server-ServesAll :
      (d : Distribution) (inside : InBounds d) (hs : List Happening)
      → site.log_opens ≡ true
      → IsNormal read_config.settings
      → All IsFine hs
      → ServesAll boost site world text d inside hs
  unfolding new_server build_logger start_thread_pool start
  new_server-ServesAll d inside hs opens n fine =
      let c = construct-Constructed boost site world text opens n in
      let config = set_manager boost (run_monitoring boost read_config) in
      let m : Manager = record (c.manager) { system = set_pool start c.manager.system } in
      let alive : IsAlive (fresh config m) = record {
        set = watched-IsEquipped read_config n logs;
        ready =
            flags-IsReady c.manager (start c.manager.system.pool) c.ready (ground arith)
              (ground arith) (ground arith);
        running = c.running_once;
        opened = λ k lt. absurd (omega (arith, lt));
        unseen = λ k le. refl;
        served = λ k p h. absurd (cc h.1);
        distinct = λ k l p h h'. absurd (cc h.1);
      } in
      let life = serve-Lives boost d inside hs (fresh config m) fine alive in
      record {
        manager = m;
        builder = record (c.builder) { logger = true };
        config = config;
        starts = rw (c.returns, opens) refl;
        here = c.config;
        life = life;
        settles = λ v fair. server-Settles boost d inside v fair life.end life.alive;
      }
