-- ===== src/Queue/Line.antt =====
-- The queue as its users see it: a line of callers, each with a number and an id; and the calls of
-- the queue's methods as requests to that line.
use protei_cov.Prelude.{
  ℕ, ◌≡◌, Bool, List, [], ◌∷◌, ◌++◌, map, if◌then◌else◌, leb, length, Text, text_eq, All, AllPairs,
}
use protei_cov.Effects.{Outcome, ok, throws, fault, Exec, pure, ◌>>=◌, ◌>>◌}
use protei_cov.World.{World}
use protei_cov.Task.{get_number}
use protei_cov.Queue.Defs.{Item, State, front, push, pop}
use protei_cov.Queue.Valid.{Waits, OwnPromise}

-- A caller's number with the id of the call.
abbrev pub Caller : Type 0
Caller = Text × ℕ

pub data Request : Type 0 where
  arrives : Caller → Request
  leaves : Request

-- What a request comes to: a place in the line or none; the first caller, or nobody.
pub data Reply : Type 0 where
  admitted refused nobody : Reply
  first : Caller → Reply

-- The line without the callers of a number.
abbrev pub without : Text → List Caller → List Caller
without n [] = []
without n (c ∷ cs) = let rest = without n cs in if text_eq c.0 n then rest else c ∷ rest

abbrev pub serve_line : ℕ → Request → List Caller → Reply × List Caller
serve_line bound (arrives c) cs =
    if leb bound (length cs) then (refused, cs) else (admitted, without c.0 cs ++ (c ∷ []))
serve_line bound leaves [] = (nobody, [])
serve_line bound leaves (c ∷ cs) = (first c, cs)

-- The replies to a list of requests, and the line that is left.
abbrev pub run_line : ℕ → List Request → List Caller → List Reply × List Caller
run_line bound [] cs = ([], cs)
run_line bound (r ∷ rs) cs =
    let (a, cs') = serve_line bound r cs in
    let (later, end) = run_line bound rs cs' in (a ∷ later, end)

-- The calls of a queue's methods: `push` at a time, and `front` with `pop`, as the pool makes them.
pub data Call : Type 0 where
  pushes : (now : ℕ) → Item → Call
  pops : Call

abbrev take : Exec State Item
take = do x ← (λ s. (front s.0, s)); pop; pure x

abbrev pub caller : World → Item → Caller
caller w x = (get_number x.0 w, x.1)

abbrev pub line : State → List Caller
line s = map (caller s.1) s.0.items

abbrev pop_reply : World → Outcome Item → Reply
pop_reply w (ok x) = first (caller w x)
pop_reply w (throws e) = nobody
pop_reply w fault = nobody

abbrev pub push_reply : Outcome Bool → Reply
push_reply (ok b) = if b then admitted else refused
push_reply (throws e) = nobody
push_reply fault = nobody

unfoldable pub call : Call → State → Reply × State
call (pushes now x) s = let (o, s') = push now x s in (push_reply o, s')
call pops s = let (o, s') = take s in (pop_reply s.1 o, s')

unfoldable pub run_calls : List Call → State → List Reply × State
run_calls [] s = ([], s)
run_calls (c ∷ cs) s =
    let (a, s') = call c s in let (later, end) = run_calls cs s' in (a ∷ later, end)

-- The request that a call makes.
abbrev pub request : World → Call → Request
request w (pushes now x) = arrives (caller w x)
request w pops = leaves

-- The calls that are pushed.
abbrev pub pushed : List Call → List Item
pushed [] = []
pushed (pushes now x ∷ cs) = x ∷ pushed cs
pushed (pops ∷ cs) = pushed cs

-- Clients who all wait, each on a promise of its own, which no call in the queue has.
pub record AreFresh (xs ys : List Item) (w : World) : Type 0 where
  pub waits : All (Waits w) xs
  pub own : All (λ x. All (λ y. OwnPromise w y x) ys) xs
  pub apart : AllPairs (OwnPromise w) xs

-- No task has another number or another promise.
pub record SameCalls (w w' : World) : Type 0 where
  pub number : (t : ℕ) → get_number t w' ≡ get_number t w
  pub promise : (t : ℕ) → (w'.tasks t).promise ≡ (w.tasks t).promise
