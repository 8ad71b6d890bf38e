-- ===== src/Http/Accept.antt =====
-- What a request does to the server's config and manager.
use protei_cov.Prelude.{
  ℕ, Bool, ◌≡◌, ◌≢◌, ◌≤◌, refl, sym, subst, true, false, not, ◌&&◌, Option, none, some, inl, inr,
  Bool-cases, Text, codes, Option-cases, arith,
}
use protei_cov.Effects.{ok}
use protei_cov.Stdlib.Stoll.{stoll_throws_plain}
use protei_cov.Json.{PropertyTree, Host}
use protei_cov.Task.{Distribution}
use protei_cov.Task.Laws.{InBounds}
use protei_cov.Config.ThreadSafe.{ThreadSafeConfig, update_config}
use protei_cov.Config.Laws.Reread.{taken_over, Rereads, update_config-Rereads}
use protei_cov.Pool.{generate_call_id}
use protei_cov.Pool.Progress.{IsRunning}
use protei_cov.Manager.{Manager}
use protei_cov.Manager.Laws.{IsReady, IsServed}
use protei_cov.Manager.Reread.{IsEquipped, reread as reread_config, reread_lem, reread-IsEquipped}
use protei_cov.Manager.Replace.{IsFair}
use protei_cov.Manager.Arrive.{add_task-Arrived}
use protei_cov.Manager.Watch.{Handled}
use protei_cov.Http.Defs.{strip_prefix}
use protei_cov.Http.Connections.{Connection, calling, reread, asking, replied, closed, receive}
use protei_cov.Http.Visits.{
  Visit, page_not_found, Opened, not_get, calls, no_number, updates, unknown, accept,
}

module _ {P : Type 0} (boost : PropertyTree P) (d : Distribution) where
  abbrev is_none : {A : Type 0} → Option A → Bool
  is_none none = true
  is_none (some x) = false

  -- A GET for `/phone=`.
  abbrev pub asks_call : Bool → Text → Bool
  asks_call is_get path = is_get && not (is_none (strip_prefix (codes "/phone=") path))

  -- A GET for `/update`.
  abbrev pub asks_update : Bool → Text → Bool
  asks_update is_get path =
      is_get
      && (is_none (strip_prefix (codes "/phone=") path)
          && not (is_none (strip_prefix (codes "/update") path)))

  -- The config has read its file, or is what it was.
  abbrev pub Read : Bool → Host → ThreadSafeConfig P → ThreadSafeConfig P → Type 0
  Read true host c c' =
      Rereads boost (taken_over boost c.has_logger (host.contents c.path)) c c'.settings c'.updated
  Read false host c c' = c' ≡ c

  -- What a request leaves: a connection as its path says, a config that has read its file where the
  -- request asks for it and may, and a config and a manager that are as well as before, for those who
  -- wait and for the one that calls.
  pub record Received (v : Visit) (is_get : Bool) (path : Text) (s : ThreadSafeConfig P × Manager)
      : Type 0 where
    pub connection : Connection
    pub end : ThreadSafeConfig P × Manager
    pub returns : accept boost d v is_get path s ≡ (ok connection, end)
    pub opened : Opened v s.1.next_task s.0.not_to_update is_get path connection
    pub read : Read (asks_update is_get path && not s.0.not_to_update) v.host s.0 end.0
    pub untouched : asks_call is_get path ≡ false → end.1 ≡ s.1
    pub set : IsEquipped end.0
    pub ready : IsReady end.1
    pub going : IsRunning s.1.system → IsRunning end.1.system
    pub kept : (p : ℕ) → IsServed p s.1 → IsServed p end.1
    pub later : s.1.next_task ≤ end.1.next_task
    pub new : (id p : ℕ) → connection ≡ calling id p → (p ≡ s.1.next_task) × IsServed p end.1

  untaken : (b : Bool) (host : Host) (c : ThreadSafeConfig P) → b ≡ false → Read b host c c
  untaken false host c e = refl
  untaken true host c e = absurd cc

  reading :
      (b : Bool) (host : Host) (c : ThreadSafeConfig P)
      → b ≡ true
      → Read b host c (update_config boost host c).1
  reading true host c e = update_config-Rereads boost host c
  reading false host c e = absurd cc

  module _ (inside : InBounds d) (v : Visit) (fair : (n : ℕ) → IsFair n (v.joining n))
      (c : ThreadSafeConfig P) (m : Manager) (set : IsEquipped c) (r : IsReady m) where
    -- Without a promise, where the manager has not made a task.
    settled_at_once :
        (is_get : Bool) (path : Text) (k : Connection) (c' : ThreadSafeConfig P)
        → accept boost d v is_get path (c, m) ≡ (ok k, (c', m))
        → Opened v m.next_task c.not_to_update is_get path k
        → ((id p : ℕ) → k ≢ calling id p)
        → Read (asks_update is_get path && not c.not_to_update) v.host c c'
        → Handled (c, m) (c', m)
        → Received v is_get path (c, m)
    settled_at_once is_get path k c' e opened free read h = record {
      connection = k;
      end = (c', m);
      read = read;
      untouched = λ _. refl;
      returns = e;
      opened = opened;
      set = h.set;
      ready = h.ready;
      going = h.going;
      kept = h.kept;
      later = omega (arith, h.same_tasks);
      new = λ id p f. absurd (free id p f);
    }

    with_config : (c' : ThreadSafeConfig P) → IsEquipped c' → Handled (c, m) (c', m)
    with_config c' e = record {
      set = e;
      ready = r;
      going = λ u. u;
      same_tasks = refl;
      kept = λ p k. k;
    }

    phone_asks :
        (number path : Text)
        → strip_prefix (codes "/phone=") path ≡ some number
        → asks_call true path ≢ false
    phone_asks number path h f = cc (rw h at f)

    phone-Received :
        (number path : Text)
        → strip_prefix (codes "/phone=") path ≡ some number
        → Received v true path (c, m)
    unfolding receive
    phone-Received number path h =
        let a = add_task-Arrived v.arrival number m r in
        elim a.outcome [
          | inl (e, bad, returns) ↦ record {
            connection = closed;
            end = (c, a.after);
            returns = rw (h, returns, stoll_throws_plain number e bad) refl;
            opened = no_number number e h bad refl;
            read = untaken _ v.host c (rw h refl);
            untouched = λ f. absurd (phone_asks number path h f);
            set = set;
            ready = a.ready;
            going = a.running;
            kept = a.kept;
            later = omega (arith, a.next);
            new = λ id p f. absurd (cc);
          }
          | inr (z, good, returns, mine) ↦ record {
            connection = calling (generate_call_id v.arrival.thread z) m.next_task;
            end = (c, a.after);
            returns = rw (h, returns) refl;
            opened = calls number z h good refl;
            read = untaken _ v.host c (rw h refl);
            untouched = λ f. absurd (phone_asks number path h f);
            set = set;
            ready = a.ready;
            going = a.running;
            kept = a.kept;
            later = omega (arith, a.next);
            new = λ id p f.
                let same : m.next_task ≡ p = cc in
                (sym same, subst (λ u. IsServed u a.after) same mine);
          }
        ]

    update-Received :
        (rest path : Text)
        → strip_prefix (codes "/phone=") path ≡ none
        → strip_prefix (codes "/update") path ≡ some rest
        → Received v true path (c, m)
    unfolding receive
    update-Received rest path h k = elim (Bool-cases c.not_to_update) [
      | inl frozen ↦
          settled_at_once true path asking c (simp (h, k, frozen) refl)
            (updates rest k (rw frozen refl)) (λ id p f. cc)
            (untaken _ v.host c (rw (h, k, frozen) refl)) (with_config c set)
      | inr thawed ↦
          let c' = reread_config boost v.host c set in
          settled_at_once true path reread c'
            (simp (h, k, thawed, reread_lem boost v.host c set) refl)
            (updates rest k (rw thawed refl)) (λ id p f. cc)
            (reading _ v.host c (rw (h, k, thawed) refl))
            (with_config c' (reread-IsEquipped boost v.host c set))
    ]

    pub accept-Received : (is_get : Bool) (path : Text) → Received v is_get path (c, m)
    unfolding receive
    accept-Received false path =
        settled_at_once false path closed c refl (not_get refl refl) (λ id p f. cc) refl
          (with_config c set)
    accept-Received true path = elim (Option-cases (strip_prefix (codes "/phone=") path)) [
      | inr (number, h) ↦ phone-Received number path h
      | inl h ↦ elim (Option-cases (strip_prefix (codes "/update") path)) [
        | inr (rest, k) ↦ update-Received rest path h k
        | inl k ↦
            settled_at_once true path (replied page_not_found) c (rw (h, k) refl) (unknown h k refl)
              (λ id p f. cc) (untaken _ v.host c (rw (h, k) refl)) (with_config c set)
      ]
    ]
