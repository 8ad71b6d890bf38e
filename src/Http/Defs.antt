-- ===== src/Http/Defs.antt =====
-- The handlers of the class HttpServer, over what they ask of the manager.
use protei_cov.Prelude.{
  ℕ, Bool, true, false, Option, none, some, [], ◌∷◌, ◌++◌, if◌then◌else◌, ◌==◌, Text, codes,
}
use protei_cov.Effects.{
  Exception, Exec, pure, raise, deref, try_catch, is_future_error, ◌>>=◌, ◌>>◌,
}
use protei_cov.Stdlib.Decimal.{show_nat, show_int}
use protei_cov.CallRecord.{
  CallStatus, awaiting, completed, duplication, overloaded, rejected, timeout, CallResult,
}

-- The status codes that the server sets.
pub data HttpStatus : Type 0 where
  http_ok conflict too_many_requests not_acceptable request_timeout forbidden not_found : HttpStatus

pub record Response : Type 0 where
  pub status : HttpStatus
  pub body : Text
  pub version : ℕ
  pub server : Text
  pub prepared : Bool

-- A default-constructed response is 200 with an empty body.
abbrev pub blank : Response
blank = record { status = http_ok; body = []; version = 11; server = []; prepared = false }

-- `path.find(prefix) == 0`: the text begins with the prefix; `some` of what follows it.
unfoldable pub strip_prefix : Text → Text → Option Text
strip_prefix [] s = some s
strip_prefix (p ∷ ps) [] = none
strip_prefix (p ∷ ps) (c ∷ cs) = let rest = strip_prefix ps cs in if p == c then rest else none

abbrev pub reply_status : CallStatus → HttpStatus
reply_status awaiting = http_ok
reply_status completed = http_ok
reply_status duplication = conflict
reply_status overloaded = too_many_requests
reply_status rejected = not_acceptable
reply_status timeout = request_timeout

abbrev pub status_word : CallStatus → Text
status_word awaiting = codes "Awaiting"
status_word completed = codes "Completed"
status_word duplication = codes "Duplication"
status_word overloaded = codes "Overloaded"
status_word rejected = codes "rejected"
status_word timeout = codes "timeout"

unfoldable pub work_with_call_status : Response → CallStatus → Response
work_with_call_status res status = record res {
  status = reply_status status;
  body = res.body ++ (codes "\n Status: " ++ (status_word status ++ codes "\n"));
}

-- The reply to a call with its result.
abbrev pub call_response : Response → ℕ → CallResult → Response
call_response res id r =
    work_with_call_status
      (record res {
        body =
            codes "CallID: "
            ++ (show_nat id
                ++ (codes " call duration: " ++ (show_int r.call_duration ++ codes "s")));
      })
      r.status

abbrev pub update_response : Bool → Response → Response
update_response updated res =
    if updated
    then record res { status = http_ok; body = codes "Updated" }
    else record res { status = forbidden; body = codes "Could not update" }

abbrev pub not_found_response : Response → Response
not_found_response res = record res { status = not_found; body = codes "Not Found" }

-- What every reply has at last.
abbrev pub finished : Response → Response
finished res = record res {
  version = 11;
  server = codes "Boost.Beast HTTP Server";
  prepared = true;
}

-- `IManager`, as far as the server calls it: a call's id with what its future comes to, and whether
-- the config was updated.
pub data Future : Type 0 where
  result : CallResult → Future
  exception : Exception → Future

pub record IManager (S : Type 0) : Type 0 where
  pub add_task : Text → Exec S (ℕ × Future)
  pub process_request_for_update : Exec S Bool

module _ {S : Type 0} (has_logger : Bool) (manager : IManager S) where
  -- `future.get()`, and the reply from its result.
  abbrev fill : Response → ℕ → Future → Exec S Response
  fill res id (result r) = pure (call_response res id r)
  fill res id (exception e) = raise e

  unfoldable pub process_phone_call : Response → Text → Exec S Response
  process_phone_call res phone =
      try_catch (deref has_logger >> manager.add_task phone >>= λ call. fill res call.0 call.1)
        (λ e. if is_future_error e then pure res else raise e)

  unfoldable pub process_update : Response → Exec S Response
  process_update res = do
    updated ← manager.process_request_for_update
    pure (update_response updated res)

  route : Text → Response → Option Text → Option Text → Exec S Response
  route path res (some phone) update = process_phone_call res phone
  route path res none (some rest) = process_update res
  route path res none none = pure (not_found_response res)

  unfoldable pub handle_request : Text → Response → Exec S Response
  unfolding route
  handle_request path res = do
    out ← route path res (strip_prefix (codes "/phone=") path) (strip_prefix (codes "/update") path)
    pure (finished out)

  -- What goes back over the connection: nothing for other methods than GET, and nothing where a
  -- handler throws.
  unfoldable pub handle_http_request : Bool → Text → Exec S (Option Response)
  handle_http_request is_get path =
      if is_get
      then try_catch (handle_request path blank >>= λ res. pure (some res)) (λ e. pure none)
      else pure none
