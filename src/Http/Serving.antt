-- ===== src/Http/Serving.antt =====
-- The server as it runs: its accepting loop, the threads of its connections, the operators of its
-- pool, and the thread that watches the config's file. Each happening is one step of one of them.
use protei_cov.Prelude.{ℕ, suc, ◌≡◌, Bool, some, List, [], ◌∷◌, if◌then◌else◌, ltb, Text}
use protei_cov.Effects.{Exec, ok, pure, gets, modify, ◌>>=◌, ◌>>◌}
use protei_cov.Json.{PropertyTree, Host}
use protei_cov.World.{update}
use protei_cov.Task.{Distribution}
use protei_cov.Config.ThreadSafe.{ThreadSafeConfig, update_config}
use protei_cov.Config.Monitor.{notify}
use protei_cov.Pool.Join.{Turn}
use protei_cov.Manager.{Manager, on_manager, on_config, itself}
use protei_cov.Manager.Configs.{thread_safe}
use protei_cov.Manager.Move.{worker_moves}
use protei_cov.Manager.Replace.{IsFair}
use protei_cov.Http.Connections.{Connection, unopened, wake, advance}
use protei_cov.Http.Visits.{Visit, accept, its_manager}

-- How far the thread that watches the config's file has come in a minute: it sleeps, has read a file
-- of this time, or has notified the manager of it.
pub data Watching : Type 0 where
  asleep : Watching
  read_at told_at : ℕ → Watching

-- The config and the manager that it notifies; the connections, of which as many as were accepted
-- have a thread; and the thread that watches.
pub record Serving (P : Type 0) : Type 0 where
  pub state : ThreadSafeConfig P × Manager
  pub connections : ℕ → Connection
  pub accepted : ℕ
  pub watching : Watching

-- The server at the beginning of `run`.
abbrev pub fresh : {P : Type 0} → ThreadSafeConfig P → Manager → Serving P
fresh c m = record { state = (c, m); connections = λ k. unopened; accepted = 0; watching = asleep }

-- A request on a new connection; the next step of a connection's thread; a move of an operator; and,
-- of the thread that watches: the time of the file that it begins with, the end of its sleep with the
-- file's time and host, and its next step. A step that has the manager replace its pool comes with
-- how the threads of a pool of each size move while its destructor waits for them.
pub data Happening : Type 0 where
  requests : Visit → Bool → Text → Happening
  wakes : Visit → ℕ → Happening
  moves : Turn → Happening
  first_look : ℕ → Happening
  minutes : ℕ → Host → Happening
  watches : (joining : ℕ → List Turn) → Happening

module _ {P : Type 0} where
  abbrev pub on_state : {A : Type 0} → Exec (ThreadSafeConfig P × Manager) A → Exec (Serving P) A
  on_state f s = let (r, s') = f s.state in (r, record s { state = s' })

  abbrev pub add_connection : Connection → Exec (Serving P) (Unit {0})
  add_connection c s = (
    ok tt,
    record s { connections = update s.connections s.accepted c; accepted = suc s.accepted },
  )

  abbrev pub set_connection : ℕ → Connection → Exec (Serving P) (Unit {0})
  set_connection k c s =
      (ok tt, record s { connections = update s.connections k (wake s.state.1.system.world c) })

  abbrev pub set_watching : Watching → Exec (Serving P) (Unit {0})
  set_watching w s = (ok tt, record s { watching = w })

  abbrev pub keep_time : ℕ → Exec (ThreadSafeConfig P × Manager) (Unit {0})
  keep_time t = on_config (modify (λ c. record c { last_write_time = t }))

  module _ (boost : PropertyTree P) (d : Distribution) where
    -- The end of the sleep, up to the end of `updateConfig`.
    abbrev pub see_file : ℕ → Host → Watching → Exec (ThreadSafeConfig P × Manager) Watching
    see_file t host asleep = do
      last ← gets (λ s. s.0.last_write_time)
      if ltb last t then (on_config (update_config boost host) >> pure (read_at t)) else pure asleep
    see_file t host (read_at u) = pure (read_at u)
    see_file t host (told_at u) = pure (told_at u)

    abbrev pub watch_on : (ℕ → List Turn) → Watching → Exec (ThreadSafeConfig P × Manager) Watching
    watch_on joining asleep = pure asleep
    watch_on joining (read_at t) =
        (λ s. notify boost (itself (thread_safe boost) d (joining s.1.system.pool.size)) s)
        >> pure (told_at t)
    watch_on joining (told_at t) = keep_time t >> pure asleep

    -- The thread runs where monitoring does.
    abbrev pub on_watch :
        (Watching → Exec (ThreadSafeConfig P × Manager) Watching) → Exec (Serving P) (Unit {0})
    on_watch f s =
        (if s.state.0.monitoring then (on_state (f s.watching) >>= set_watching) else pure tt) s

    abbrev pub happens : Happening → Exec (Serving P) (Unit {0})
    happens (requests v is_get path) s =
        (on_state (accept boost d v is_get path) >>= add_connection) s
    happens (wakes v k) s =
        (on_state (advance (its_manager boost d v) (s.connections k)) >>= set_connection k) s
    happens (moves t) s = on_state (on_manager (worker_moves d t)) s
    happens (first_look t) s = on_watch (λ w. keep_time t >> pure w) s
    happens (minutes t host) s = on_watch (see_file t host) s
    happens (watches joining) s = on_watch (watch_on joining) s

    unfoldable pub serve : List Happening → Exec (Serving P) (Unit {0})
    serve [] = pure tt
    serve (h ∷ hs) = happens h >> serve hs

-- The random device works, and schedules are fair.
abbrev pub IsFine : Happening → Type 0
IsFine (requests v is_get path) = (n : ℕ) → IsFair n (v.joining n)
IsFine (wakes v k) = (n : ℕ) → IsFair n (v.joining n)
IsFine (moves t) = (seed : ℕ) × (t.env.entropy ≡ some seed)
IsFine (first_look t) = Unit {0}
IsFine (minutes t host) = Unit {0}
IsFine (watches joining) = (n : ℕ) → IsFair n (joining n)
