-- ===== src/Http/Visits.antt =====
-- A request over the server's own manager, and the steps of a request for an update.
use protei_cov.Prelude.{
  if◌then◌else◌, ℕ, Bool, ◌≡◌, true, false, none, some, List, not, Text, ℤ, codes,
}
use protei_cov.Effects.{Exception, ok, throws, Exec, modify}
use protei_cov.Stdlib.Stoll.{stoll}
use protei_cov.Json.{PropertyTree, Host}
use protei_cov.Task.{Distribution}
use protei_cov.Config.ThreadSafe.{ThreadSafeConfig, update_config, is_updated}
use protei_cov.Config.Monitor.{notify}
use protei_cov.Pool.{generate_call_id}
use protei_cov.Pool.Join.{Turn}
use protei_cov.Manager.{Manager, Arrival, add_task, on_manager, on_config, itself}
use protei_cov.Manager.Configs.{thread_safe}
use protei_cov.Http.Defs.{Response, not_found, strip_prefix}
use protei_cov.Http.Connections.{
  Promising, Connection, calling, reread, asking, replied, closed, receive,
}

-- What comes with a request besides its path: the client's thread and clock, and, for an update, the
-- host's files and how the threads of a pool of each size move while its destructor waits for them.
pub record Visit : Type 0 where
  pub arrival : Arrival
  pub host : Host
  pub joining : ℕ → List Turn

-- The reply to a path that is not served.
abbrev pub page_not_found : Response
page_not_found = record {
  status = not_found;
  body = codes "Not Found";
  version = 11;
  server = codes "Boost.Beast HTTP Server";
  prepared = true;
}

-- What the connection is by the request's method and path, where a call's promise is `n`, and the
-- config is `frozen` or may be updated.
pub data Opened (v : Visit) (n : ℕ) (frozen is_get : Bool) (path : Text) (c : Connection)
    : Type 0 where
  not_get : is_get ≡ false → c ≡ closed → Opened v n frozen is_get path c
  calls :
      (number : Text) (z : ℤ)
      → strip_prefix (codes "/phone=") path ≡ some number
      → stoll number ≡ ok z
      → c ≡ calling (generate_call_id v.arrival.thread z) n
      → Opened v n frozen is_get path c
  no_number :
      (number : Text) (e : Exception)
      → strip_prefix (codes "/phone=") path ≡ some number
      → stoll number ≡ throws e
      → c ≡ closed
      → Opened v n frozen is_get path c
  updates :
      (rest : Text)
      → strip_prefix (codes "/update") path ≡ some rest
      → c ≡ (if frozen then asking else reread)
      → Opened v n frozen is_get path c
  unknown :
      strip_prefix (codes "/phone=") path ≡ none
      → strip_prefix (codes "/update") path ≡ none
      → c ≡ replied page_not_found
      → Opened v n frozen is_get path c

module _ {P : Type 0} (boost : PropertyTree P) (d : Distribution) where
  -- The manager of the server, with its config.
  abbrev pub its_manager : Visit → Promising (ThreadSafeConfig P × Manager)
  its_manager v = record {
    add_task = λ number. on_manager (add_task v.arrival number);
    may_update = λ s. not s.0.not_to_update;
    update_config = on_config (update_config boost v.host);
    notify = λ s. notify boost (itself (thread_safe boost) d (v.joining s.1.system.pool.size)) s;
    note_time = on_config (modify (λ c. record c { last_write_time = v.arrival.now }));
    is_updated = on_config (is_updated boost);
  }

  abbrev pub accept : Visit → Bool → Text → Exec (ThreadSafeConfig P × Manager) Connection
  accept v is_get path = receive true (its_manager v) is_get path
