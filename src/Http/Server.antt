-- ===== src/Http/Server.antt =====
-- The class HttpServer from its constructor to its loop. Opening the port and accepting connections
-- are Boost's: what they come to is an argument.
use protei_cov.Prelude.{ℕ, Bool, true, false, Option, none, some, List, [], ◌∷◌, if◌then◌else◌}
use protei_cov.Effects.{Exception, Exec, pure, raise, ◌>>=◌, ◌>>◌}
use protei_cov.Json.{PropertyTree}
use protei_cov.World.{World}
use protei_cov.Manager.{Manager, start_thread_pool, lift}
use protei_cov.Builder.{ManagerBuilder, Site, build_logger, construct}

module _ {P : Type 0} (boost : PropertyTree P) where
  -- The constructor, with a builder of its own.
  unfoldable pub new_server : Bool → Site → World → Exec (ManagerBuilder P) Manager
  new_server port_opens site world = do
    if port_opens then pure tt else raise Exception.system_failure
    m ← construct boost site world
    build_logger site.log_opens
    let started = start_thread_pool m
    lift started.0
    pure started.1

-- `run` on what `accept` comes to, time after time: the connections that get a thread each, and
-- whether the loop has ended, as it does at the first error.
unfoldable pub run : List (Option ℕ) → List ℕ × Bool
run [] = ([], false)
run (none ∷ later) = ([], true)
run (some socket ∷ later) = let (handled, ended) = run later in (socket ∷ handled, ended)
