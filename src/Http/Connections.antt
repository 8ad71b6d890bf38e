-- ===== src/Http/Connections.antt =====
-- The thread of a connection, cut where it waits or lets go of a mutex: the handlers of HttpServer
-- up to `future.get()` and from there on, and the steps of a request for an update.
use protei_cov.Prelude.{ℕ, ◌≡◌, ◌⊎◌, Bool, Option, none, some, if◌then◌else◌, Text, codes}
use protei_cov.Effects.{Exec, pure, raise, gets, deref, try_catch, is_future_error, ◌>>=◌, ◌>>◌}
use protei_cov.World.{World, Promise, pending, value, failed}
use protei_cov.Http.Defs.{
  Response, blank, strip_prefix, Future, result, exception, call_response, update_response,
  not_found_response, finished,
}

-- The manager as a connection's thread calls it: a call's id with the promise of its future; and the
-- steps of `processRequestForUpdate`, between which other threads run.
pub record Promising (S : Type 0) : Type 0 where
  pub add_task : Text → Exec S (ℕ × ℕ)
  pub may_update : S → Bool
  pub update_config : Exec S (Unit {0})
  pub notify : Exec S (Unit {0})
  pub note_time : Exec S (Unit {0})
  pub is_updated : Exec S Bool

-- How far a connection has come: not accepted yet; in `future.get()`, with the call's id and its
-- promise; in a request for an update, with the config's file read, with the manager notified, with
-- the time of that kept or no update allowed; at its end, with what was written, or with nothing.
pub data Connection : Type 0 where
  unopened : Connection
  calling : (id promise : ℕ) → Connection
  reread notified asking : Connection
  replied : Response → Connection
  closed : Connection

-- A connection's thread has come to its end.
abbrev pub IsOver : Connection → Type 0
IsOver c = (c ≡ closed) ⊎ ((res : Response) × (c ≡ replied res))

abbrev pub reply_update : Bool → Connection
reply_update updated = replied (finished (update_response updated blank))

module _ {S : Type 0} (has_logger : Bool) (manager : Promising S) where
  -- `processPhoneCall` up to its wait.
  abbrev pub begin_call : Text → Exec S Connection
  begin_call phone =
      try_catch
        (deref has_logger >> manager.add_task phone >>= λ call. pure (calling call.0 call.1))
        (λ e. if is_future_error e then pure (replied (finished blank)) else raise e)

  -- `processUpdate` up to the end of `updateConfig`.
  abbrev pub begin_update : Exec S Connection
  begin_update = do
    go ← gets manager.may_update
    if go then (manager.update_config >> pure reread) else pure asking

  abbrev pub begin : Option Text → Option Text → Exec S Connection
  begin (some phone) update = begin_call phone
  begin none (some rest) = begin_update
  begin none none = pure (replied (finished (not_found_response blank)))

  -- `handleHttpRequest` with a request that was read, up to its first wait or its end.
  unfoldable pub receive : Bool → Text → Exec S Connection
  receive is_get path =
      if is_get
      then try_catch
          (begin (strip_prefix (codes "/phone=") path) (strip_prefix (codes "/update") path))
          (λ e. pure closed)
      else pure closed

-- `future.get()` with what the future has come to, and the rest of the handlers.
unfoldable pub settle : ℕ → Future → Connection
settle id (result r) = replied (finished (call_response blank id r))
settle id (exception e) = if is_future_error e then replied (finished blank) else closed

abbrev look : ℕ → ℕ → Promise → Connection
look id p pending = calling id p
look id p (value r) = settle id (result r)
look id p (failed e) = settle id (exception e)

-- A connection's thread that is run again while its promise is the world's: it waits on while the
-- promise is not satisfied.
unfoldable pub wake : World → Connection → Connection
wake w (calling id p) = look id p (w.promises p)
wake w unopened = unopened
wake w reread = reread
wake w notified = notified
wake w asking = asking
wake w (replied res) = replied res
wake w closed = closed

module _ {S : Type 0} (manager : Promising S) where
  abbrev pub step_update : Connection → Exec S Connection
  step_update reread = manager.notify >> pure notified
  step_update notified = manager.note_time >> pure asking
  step_update asking = do updated ← manager.is_updated; pure (reply_update updated)
  step_update unopened = pure unopened
  step_update (calling id p) = pure (calling id p)
  step_update (replied res) = pure (replied res)
  step_update closed = pure closed

  -- The next step of a request for an update.
  unfoldable pub advance : Connection → Exec S Connection
  advance c = try_catch (step_update c) (λ e. pure closed)
