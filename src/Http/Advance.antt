-- ===== src/Http/Advance.antt =====
-- The steps of the server's threads that change its config or its manager.
use protei_cov.Prelude.{ℕ, ◌-◌, ◌≡◌, ◌≢◌, refl, false, List, inl, inr, ltb, Bool-cases, arith}
use protei_cov.Effects.{ok, Exec, pure, ◌>>◌}
use protei_cov.Json.{PropertyTree, Host}
use protei_cov.World.{World}
use protei_cov.Task.{Distribution}
use protei_cov.Task.Laws.{InBounds}
use protei_cov.Config.ThreadSafe.{ThreadSafeConfig, is_updated}
use protei_cov.Pool.Join.{Turn}
use protei_cov.Manager.{Manager}
use protei_cov.Manager.Laws.{IsReady}
use protei_cov.Manager.Reread.{IsEquipped, reread as reread_config, reread_lem, reread-IsEquipped}
use protei_cov.Manager.Replace.{IsFair}
use protei_cov.Manager.Watch.{Handled, notify-Handled}
use protei_cov.Http.Connections.{
  Promising, Connection, unopened, calling, reread, notified, asking, replied, closed, reply_update,
  advance, wake, settle,
}
use protei_cov.Http.Visits.{Visit, its_manager}
use protei_cov.Http.Serving.{Watching, asleep, read_at, told_at, see_file, watch_on, keep_time}
use protei_cov.Http.Alive.{Follows, stays}

-- How far a connection is from the end of its request for an update.
abbrev pub steps_left : Connection → ℕ
steps_left reread = 3
steps_left notified = 2
steps_left asking = 1
steps_left unopened = 0
steps_left (calling id p) = 0
steps_left (replied res) = 0
steps_left closed = 0

pub steps_left-wake : (w : World) (c : Connection) → steps_left (wake w c) ≡ steps_left c
unfolding wake settle
steps_left-wake w (calling id p) = ground arith
steps_left-wake w unopened = refl
steps_left-wake w reread = refl
steps_left-wake w notified = refl
steps_left-wake w asking = refl
steps_left-wake w (replied res) = refl
steps_left-wake w closed = refl

-- A connection that is in no request for an update is left as it is.
pub advance_rests :
    {S : Type 0} (manager : Promising S) (c : Connection) (s : S)
    → steps_left c ≡ 0
    → advance manager c s ≡ (ok c, s)
unfolding advance
advance_rests manager unopened s h = refl
advance_rests manager (calling id p) s h = refl
advance_rests manager (replied res) s h = refl
advance_rests manager closed s h = refl
advance_rests manager reread s h = absurd (omega (arith, h))
advance_rests manager notified s h = absurd (omega (arith, h))
advance_rests manager asking s h = absurd (omega (arith, h))

-- From one state of an update to the next.
busy-Follows :
    (c c' : Connection)
    → c ≢ unopened
    → c' ≢ unopened
    → ((id p : ℕ) → c' ≢ calling id p)
    → Follows c c'
busy-Follows c c' a b free = record {
  same = λ p (id, e). absurd (free id p e);
  open_still = λ h. b;
  unseen_still = λ e. absurd (a e);
}

module _ {P : Type 0} (boost : PropertyTree P) (d : Distribution) (inside : InBounds d)
    (c : ThreadSafeConfig P) (m : Manager) (set : IsEquipped c) (r : IsReady m) where
  same-Handled : (c' : ThreadSafeConfig P) → IsEquipped c' → Handled (c, m) (c', m)
  same-Handled c' e = record {
    set = e;
    ready = r;
    going = λ u. u;
    same_tasks = refl;
    kept = λ p k. k;
  }

  module _ (v : Visit) (fair : (n : ℕ) → IsFair n (v.joining n)) where
    -- The next step of a connection's thread in a request for an update.
    pub record Advanced (k : Connection) : Type 0 where
      pub next : Connection
      pub end : ThreadSafeConfig P × Manager
      pub returns : advance (its_manager boost d v) k (c, m) ≡ (ok next, end)
      pub handled : Handled (c, m) end
      pub follows : Follows k next
      pub fewer : steps_left next ≡ steps_left k - 1
      pub rests : steps_left k ≡ 0 → (next ≡ k)

    unmoved :
        (k : Connection)
        → advance (its_manager boost d v) k (c, m) ≡ (ok k, (c, m))
        → steps_left k ≡ 0
        → Advanced k
    unmoved k e z = record {
      next = k;
      end = (c, m);
      returns = e;
      handled = same-Handled c set;
      follows = stays k;
      fewer = omega (arith, z);
      rests = λ h. refl;
    }

    pub advance-Advanced : (k : Connection) → Advanced k
    unfolding advance is_updated
    advance-Advanced unopened = unmoved unopened refl refl
    advance-Advanced (calling id p) = unmoved (calling id p) refl refl
    advance-Advanced (replied res) = unmoved (replied res) refl refl
    advance-Advanced closed = unmoved closed refl refl
    advance-Advanced reread =
        let (after, e, h) =
          notify-Handled boost d (v.joining m.system.pool.size) inside c m set r
            (fair m.system.pool.size) in
        record {
          next = notified;
          end = (c, after);
          returns = rw e refl;
          handled = h;
          follows = busy-Follows reread notified (λ e. cc) (λ e. cc) (λ id p e. cc);
          fewer = omega arith;
          rests = λ h. absurd (omega (arith, h));
        }
    advance-Advanced notified = record {
      next = asking;
      end = (record c { last_write_time = v.arrival.now }, m);
      returns = refl;
      handled =
          same-Handled (record c { last_write_time = v.arrival.now })
            (record { normal = set.normal; logs = set.logs; managed = set.managed });
      follows = busy-Follows notified asking (λ e. cc) (λ e. cc) (λ id p e. cc);
      fewer = omega arith;
      rests = λ h. absurd (omega (arith, h));
    }
    advance-Advanced asking = record {
      next = reply_update c.updated;
      end = (record c { updated = false }, m);
      returns = refl;
      handled =
          same-Handled (record c { updated = false })
            (record { normal = set.normal; logs = set.logs; managed = set.managed });
      follows = busy-Follows asking (reply_update c.updated) (λ e. cc) (λ e. cc) (λ id p e. cc);
      fewer = omega arith;
      rests = λ h. absurd (omega (arith, h));
    }

  -- The next step of the thread that watches the file.
  pub record Watched (f : Watching → Exec (ThreadSafeConfig P × Manager) Watching) (w : Watching)
      : Type 0 where
    pub next : Watching
    pub end : ThreadSafeConfig P × Manager
    pub returns : f w (c, m) ≡ (ok next, end)
    pub handled : Handled (c, m) end

  still :
      (f : Watching → Exec (ThreadSafeConfig P × Manager) Watching) (w : Watching)
      → f w (c, m) ≡ (ok w, (c, m))
      → Watched f w
  still f w e = record { next = w; end = (c, m); returns = e; handled = same-Handled c set }

  pub see_file-Watched : (t : ℕ) (host : Host) (w : Watching) → Watched (see_file boost d t host) w
  see_file-Watched t host asleep = elim (Bool-cases (ltb c.last_write_time t)) [
    | inr older ↦ still (see_file boost d t host) asleep (simp older refl)
    | inl newer ↦ record {
      next = read_at t;
      end = (reread_config boost host c set, m);
      returns = simp (newer, reread_lem boost host c set) refl;
      handled = same-Handled (reread_config boost host c set) (reread-IsEquipped boost host c set);
    }
  ]
  see_file-Watched t host (read_at u) = still (see_file boost d t host) (read_at u) refl
  see_file-Watched t host (told_at u) = still (see_file boost d t host) (told_at u) refl

  pub keep_time-Watched : (t : ℕ) (w : Watching) → Watched (λ w. keep_time t >> pure w) w
  keep_time-Watched t w = record {
    next = w;
    end = (record c { last_write_time = t }, m);
    returns = refl;
    handled =
        same-Handled (record c { last_write_time = t })
          (record { normal = set.normal; logs = set.logs; managed = set.managed });
  }

  pub watch_on-Watched :
      (joining : ℕ → List Turn)
      → ((n : ℕ) → IsFair n (joining n))
      → (w : Watching) → Watched (watch_on boost d joining) w
  watch_on-Watched joining fair asleep = still (watch_on boost d joining) asleep refl
  watch_on-Watched joining fair (read_at t) =
      let (after, e, h) =
        notify-Handled boost d (joining m.system.pool.size) inside c m set r
          (fair m.system.pool.size) in
      record { next = told_at t; end = (c, after); returns = rw e refl; handled = h }
  watch_on-Watched joining fair (told_at t) = record {
    next = asleep;
    end = (record c { last_write_time = t }, m);
    returns = refl;
    handled =
        same-Handled (record c { last_write_time = t })
          (record { normal = set.normal; logs = set.logs; managed = set.managed });
  }
