-- ===== src/Queue/Runs.antt =====
-- Runs of pushes and pops, as requests to the line of callers.
use protei_cov.Prelude.{
  ℕ, ◌≡◌, refl, sym, ◌∙◌, ap, List, [], ◌∷◌, map, All, All-map, All-zip, AllPairs-map,
}
use protei_cov.World.{World}
use protei_cov.Queue.Defs.{Item, Queue, State, front, push, pop}
use protei_cov.Queue.Valid.{Waits, OwnPromise, IsValid, IsFresh}
use protei_cov.Queue.Laws.{push-IsValid, push_items}
use protei_cov.Queue.Line.{
  Caller, arrives, Reply, serve_line, run_line, Call, pushes, pops, line, call, run_calls, request,
  pushed, AreFresh, SameCalls,
}
use protei_cov.Queue.Admit.{
  caller_same, map_same, push_line, push-SameCalls, StillOwn, push-StillOwn,
}

-- What the first of several calls leaves for the others.
record Step (c : Call) (rest : List Item) (s : State) : Type 0 where
  same : ((call c s).0, line (call c s).1) ≡ serve_line s.0.size_of_queue (request s.1 c) (line s)
  bound : (call c s).1.0.size_of_queue ≡ s.0.size_of_queue
  calls : SameCalls s.1 (call c s).1.1
  valid : IsValid (call c s).1.0.items (call c s).1.1
  fresh : AreFresh rest (call c s).1.0.items (call c s).1.1

pushes-Step :
    (now : ℕ) (x : Item) (rest : List Item) (q : Queue) (w : World)
    → IsValid q.items w
    → AreFresh (x ∷ rest) q.items w
    → Step (pushes now x) rest (q, w)
unfolding call
pushes-Step now x rest q w v fresh =
    let new : IsFresh x q.items w = record { waits = fresh.waits.0; own = fresh.own.0 } in
    let k = push-SameCalls now x q w v new in
    let (_, _, valid) = push-IsValid now x q w v new in
    let ready : All (λ z. Waits w z × All (λ y. OwnPromise w y z) q.items) rest =
      All-zip rest (λ z a b. (a, b)) fresh.waits.1 fresh.own.1 in
    let still : All (λ z. StillOwn now x q w v new z (push now x (q, w)).1) rest =
      All-zip {P = λ z. Waits w z × All (λ y. OwnPromise w y z) q.items} rest
        (λ z a b. push-StillOwn now x q w v new z a.0 a.1 b) ready fresh.apart.0 in
    record {
      same = push_line now x q w v new;
      bound = (push_items now x q w v new).2;
      calls = k;
      valid = valid;
      fresh = record {
        waits = All-map rest (λ z a. a.0) still;
        own = All-map rest (λ z a. a.1) still;
        apart =
            AllPairs-map rest (λ y z ne e. ne (sym (k.promise y.0) ∙ e ∙ k.promise z.0))
              fresh.apart.1;
      };
    }

pops-Step :
    (rest xs : List Item) (q : Queue) (w : World)
    → IsValid xs w
    → AreFresh rest xs w
    → Step pops rest (record q { items = xs }, w)
unfolding call front pop
pops-Step rest [] q w v fresh = record {
  same = refl;
  bound = refl;
  calls = record { number = λ t. refl; promise = λ t. refl };
  valid = v;
  fresh = fresh;
}
pops-Step rest (x ∷ xs) q w v fresh = record {
  same = refl;
  bound = refl;
  calls = record { number = λ t. refl; promise = λ t. refl };
  valid = record { waiting = v.waiting.1; apart = v.apart.1 };
  fresh = record {
    waits = fresh.waits;
    own = All-map rest (λ z h. h.1) fresh.own;
    apart = fresh.apart;
  };
}

call-Step :
    (c : Call) (cs : List Call) (s : State)
    → IsValid s.0.items s.1
    → AreFresh (pushed (c ∷ cs)) s.0.items s.1
    → Step c (pushed cs) s
call-Step (pushes now x) cs (q, w) v fresh = pushes-Step now x (pushed cs) q w v fresh
call-Step pops cs (q, w) v fresh = pops-Step (pushed cs) q.items q w v fresh

request_same : {w w' : World} → SameCalls w w' → (c : Call) → request w' c ≡ request w c
request_same k (pushes now x) = ap arrives (caller_same k x)
request_same k pops = refl

abbrev answered : Reply → List Reply × List Caller → List Reply × List Caller
answered a (later, end) = (a ∷ later, end)

-- Any run of pushes and pops on a valid queue, where each pushed call's client waits on a promise of
-- its own, does to the queue what it does to a line of callers with the queue's bound. A caller who
-- arrives stands last, and no caller with the same number stands in the line any more, or is
-- refused where the line is full; who leaves is the first. The replies are the line's, the callers left
-- in the queue are those left in the line, and the queue is valid still.
pub run_calls-run_line :
    (cs : List Call) (s : State)
    → IsValid s.0.items s.1
    → AreFresh (pushed cs) s.0.items s.1
    → (((run_calls cs s).0, line (run_calls cs s).1)
        ≡ run_line s.0.size_of_queue (map (request s.1) cs) (line s))
      × IsValid (run_calls cs s).1.0.items (run_calls cs s).1.1
unfolding run_calls
run_calls-run_line [] s v fresh = (refl, v)
run_calls-run_line (c ∷ cs) s v fresh =
    let k = call-Step c cs s v fresh in
    let s' = (call c s).1 in
    let later = run_calls-run_line cs s' k.valid k.fresh in
    let requests = map_same (request_same k.calls) cs in
    (
      ap (answered (call c s).0) (later.0 ∙ rw (k.bound, requests) refl)
          ∙ ap (λ r. answered r.0 (run_line s.0.size_of_queue (map (request s.1) cs) r.1)) k.same,
      later.1,
    )
