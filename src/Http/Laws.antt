-- ===== src/Http/Laws.antt =====
-- What a client of the server gets back.
use protei_cov.Prelude.{
  ℕ, ◌≡◌, refl, Bool, true, false, Option, none, some, [], ◌∷◌, ◌++◌, if◌then◌else◌, Text, codes,
  arith, Bool-cases, inl, inr,
}
use protei_cov.Effects.{Outcome, ok, throws, fault, is_future_error}
use protei_cov.Stdlib.Decimal.{show_nat, show_int}
use protei_cov.CallRecord.{
  CallStatus, awaiting, completed, duplication, overloaded, rejected, timeout, CallResult,
}
use protei_cov.Http.Defs.{
  HttpStatus, http_ok, conflict, too_many_requests, not_acceptable, request_timeout, forbidden,
  not_found, Response, strip_prefix, reply_status, status_word, work_with_call_status, Future,
  result, exception, IManager, handle_request, handle_http_request, process_phone_call,
  process_update,
}

-- `find(prefix) == 0` and `substr`: the text is the prefix and then the rest.
pub strip_prefix_iff : (p s rest : Text) → strip_prefix p s ≡ some rest → s ≡ p ++ rest
unfolding strip_prefix
strip_prefix_iff [] s rest e = ground arith
strip_prefix_iff (p ∷ ps) [] rest e = ground arith
strip_prefix_iff (p ∷ ps) (c ∷ cs) rest e = ground (arith, strip_prefix_iff ps cs rest)

pub strip_prefix_append : (p rest : Text) → strip_prefix p (p ++ rest) ≡ some rest
unfolding strip_prefix
strip_prefix_append [] rest = refl
strip_prefix_append (p ∷ ps) rest = ground (arith, strip_prefix_append ps rest)

abbrev pub Sent : Outcome (Option Response) → HttpStatus → Text → Type 0
Sent o status body =
    (res : Response) × (o ≡ ok (some res))
    × (res.status ≡ status)
    × (res.body ≡ body)
    × (res.version ≡ 11)
    × (res.server ≡ codes "Boost.Beast HTTP Server")
    × (res.prepared ≡ true)

-- Which HTTP status and which word in the body report the status of a call.
pub data IsReported : CallStatus → HttpStatus → Text → Type 0 where
  awaiting_reported : IsReported awaiting http_ok (codes "Awaiting")
  completed_reported : IsReported completed http_ok (codes "Completed")
  duplication_reported : IsReported duplication conflict (codes "Duplication")
  overloaded_reported : IsReported overloaded too_many_requests (codes "Overloaded")
  rejected_reported : IsReported rejected not_acceptable (codes "rejected")
  timeout_reported : IsReported timeout request_timeout (codes "timeout")

reply_status-IsReported : (s : CallStatus) → IsReported s (reply_status s) (status_word s)
reply_status-IsReported awaiting = awaiting_reported
reply_status-IsReported completed = completed_reported
reply_status-IsReported duplication = duplication_reported
reply_status-IsReported overloaded = overloaded_reported
reply_status-IsReported rejected = rejected_reported
reply_status-IsReported timeout = timeout_reported

-- The body of a reply to a call, with a word for its status.
abbrev pub call_body : ℕ → CallResult → Text → Text
call_body id r word =
    (codes "CallID: "
      ++ (show_nat id ++ (codes " call duration: " ++ (show_int r.call_duration ++ codes "s"))))
    ++ (codes "\n Status: " ++ (word ++ codes "\n"))

-- The reply `o` reports the result `r` of a call.
abbrev pub Reports : ℕ → CallResult → Outcome (Option Response) → Type 0
Reports id r o =
    (status : HttpStatus) × (word : Text) × IsReported r.status status word
    × Sent o status (call_body id r word)

module _ {S : Type 0} (manager : IManager S) (s : S) where
  abbrev phone_path : Text → Text
  phone_path number = codes "/phone=" ++ number

  abbrev reply : Text → Outcome (Option Response) × S
  reply path = handle_http_request true manager true path s

  -- What a client that called `/phone=` gets for what the manager's `addTask` comes to: the result of
  -- the call under the HTTP status of its call status, with its id and length; for a future_error a
  -- reply 200 with an empty body; for any other exception no reply at all.
  abbrev pub Answered : Outcome (ℕ × Future) → Outcome (Option Response) → Type 0
  Answered (ok (id, result r)) o = Reports id r o
  Answered (ok (id, exception e)) o = if is_future_error e then Sent o http_ok [] else o ≡ ok none
  Answered (throws e) o = if is_future_error e then Sent o http_ok [] else o ≡ ok none
  Answered fault o = o ≡ fault

  phone_reply_of :
      (number : Text) (m : Outcome (ℕ × Future) × S)
      → manager.add_task number s ≡ m
      → Answered m.0 (reply (phone_path number)).0 × ((reply (phone_path number)).1 ≡ m.1)
  unfolding handle_http_request handle_request process_phone_call strip_prefix work_with_call_status
  phone_reply_of number (ok (id, result r), s') e =
      rw e ((_, _, reply_status-IsReported r.status, (_, refl, refl, refl, refl, refl, refl)), refl)
  phone_reply_of number (ok (id, exception x), s') e = elim (Bool-cases (is_future_error x)) [
    | inl h ↦ rw (e, h) ((_, refl, refl, refl, refl, refl, refl), refl)
    | inr h ↦ rw (e, h) (refl, refl)
  ]
  phone_reply_of number (throws x, s') e = elim (Bool-cases (is_future_error x)) [
    | inl h ↦ rw (e, h) ((_, refl, refl, refl, refl, refl, refl), refl)
    | inr h ↦ rw (e, h) (refl, refl)
  ]
  phone_reply_of number (fault, s') e = rw e (refl, refl)

  -- The reply to `/phone=` for whatever the manager's `addTask` comes to. For a result it has the
  -- call's id, its length and a word for its status in the body, and the HTTP status for it: 200 for
  -- completed and awaiting, 409 for duplication, 429 for overloaded, 406 for rejected, 408 for
  -- timeout. For a future_error it is 200 with an empty body; for any other exception there is none,
  -- and where `addTask` is undefined, so is the handler. The state is the one that `addTask` left.
  pub phone_reply :
      (number : Text)
      → Answered (manager.add_task number s).0 (reply (phone_path number)).0
        × ((reply (phone_path number)).1 ≡ (manager.add_task number s).1)
  phone_reply number = phone_reply_of number (manager.add_task number s) refl

  -- A path that is neither `/phone=` nor `/update` at its beginning gets 404, and the manager is not
  -- asked.
  pub unknown_path :
      (path : Text)
      → strip_prefix (codes "/phone=") path ≡ none
      → strip_prefix (codes "/update") path ≡ none
      → Sent (reply path).0 not_found (codes "Not Found") × ((reply path).1 ≡ s)
  unfolding handle_http_request handle_request
  unknown_path path p u = rw (p, u) ((_, refl, refl, refl, refl, refl, refl), refl)

  -- What a client that asked for an update gets for what the manager's answer comes to.
  abbrev pub UpdateAnswered : Outcome Bool → Outcome (Option Response) → Type 0
  UpdateAnswered (ok true) o = Sent o http_ok (codes "Updated")
  UpdateAnswered (ok false) o = Sent o forbidden (codes "Could not update")
  UpdateAnswered (throws e) o = o ≡ ok none
  UpdateAnswered fault o = o ≡ fault

  update_reply_of :
      (rest : Text) (m : Outcome Bool × S)
      → manager.process_request_for_update s ≡ m
      → UpdateAnswered m.0 (reply (codes "/update" ++ rest)).0
        × ((reply (codes "/update" ++ rest)).1 ≡ m.1)
  unfolding handle_http_request handle_request process_update strip_prefix
  update_reply_of rest (ok true, s') e = rw e ((_, refl, refl, refl, refl, refl, refl), refl)
  update_reply_of rest (ok false, s') e = rw e ((_, refl, refl, refl, refl, refl, refl), refl)
  update_reply_of rest (throws x, s') e = rw e (refl, refl)
  update_reply_of rest (fault, s') e = rw e (refl, refl)

  -- Every path that begins with `/update` asks the manager for an update: the client gets 200 or 403
  -- as it says, and no reply where it throws.
  pub update_reply :
      (rest : Text)
      → UpdateAnswered (manager.process_request_for_update s).0 (reply (codes "/update" ++ rest)).0
        × ((reply (codes "/update" ++ rest)).1 ≡ (manager.process_request_for_update s).1)
  update_reply rest = update_reply_of rest (manager.process_request_for_update s) refl
