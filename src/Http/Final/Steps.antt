-- ===== src/Http/Final/Steps.antt =====
-- What each step of a server's threads, whether it returns, throws or is undefined, leaves of the
-- promises that are satisfied.
use protei_cov.Prelude.{
  ℕ, ◌≡◌, refl, List, Option, none, some, Text, codes, Bool, inl, inr, true, if◌then◌else◌, ltb,
}
use protei_cov.Effects.{ok, pure, gets, when, deref, is_future_error, ◌>>=◌, ◌>>◌}
use protei_cov.Effects.Grows.{Grows, Grows-bind, Grows-result, Grows-if, Grows-when, Grows-try}
use protei_cov.Json.{PropertyTree, Host}
use protei_cov.World.{World}
use protei_cov.Task.{Distribution}
use protei_cov.Config.ThreadSafe.{ThreadSafeConfig, update_config}
use protei_cov.Config.Monitor.{notify}
use protei_cov.Pool.Join.{Turn}
use protei_cov.Pool.Final.{turn-Final}
use protei_cov.Manager.{Manager, on_config, itself}
use protei_cov.Manager.Configs.{thread_safe}
use protei_cov.Manager.Move.{worker_moves}
use protei_cov.Manager.Final.{
  FinalCalls, FinalBeside, final_calls_order, final_beside_order, on_system-Final,
  manager_add_task-Final, on_config-Final, on_manager-Final, update-Final,
}
use protei_cov.Http.Connections.{
  Connection, Promising, receive, begin_call, begin_update, begin, step_update, reply_update,
  IsOver, unopened, reread, notified, asking, calling, wake, advance, replied, closed,
}
use protei_cov.Http.Defs.{strip_prefix}
use protei_cov.Http.Visits.{Visit, its_manager, accept}
use protei_cov.Http.Serving.{Watching, see_file, watch_on, keep_time, asleep, read_at, told_at}

module _ {P : Type 0} (boost : PropertyTree P) (d : Distribution) where
  notify-Final :
      (joining : ℕ → List Turn)
      → Grows FinalBeside
          (λ s. notify boost (itself (thread_safe boost) d (joining s.1.system.pool.size)) s)
  unfolding notify
  notify-Final joining = record {
    at = λ s.
        (Grows-bind (gets (λ s'. s'.0.has_manager))
            (λ set. when set (itself (thread_safe boost) d (joining s.1.system.pool.size)).update)
            (Grows-result _)
            λ set.
              Grows-when set (update-Final (thread_safe boost) d (joining s.1.system.pool.size))).at
          s;
  }

  module _ (v : Visit) where
    abbrev m : Promising (ThreadSafeConfig P × Manager)
    m = its_manager boost d v

    begin_call-Final : (number : Text) → Grows FinalBeside (begin_call true m number)
    begin_call-Final number =
        Grows-try (deref true >> m.add_task number >>= λ call. pure (calling call.0 call.1)) _
          (Grows-bind (deref true >> m.add_task number) (λ call. pure (calling call.0 call.1))
            (Grows-bind (deref true) (λ _. m.add_task number) (Grows-result _)
              λ _. on_manager-Final (manager_add_task-Final v.arrival number))
            λ call. Grows-result _)
          λ e. Grows-if (is_future_error e) (Grows-result _) (Grows-result _)

    begin_update-Final : Grows FinalBeside (begin_update true m)
    begin_update-Final =
        Grows-bind (gets m.may_update)
          (λ go. if go then (m.update_config >> pure reread) else pure asking) (Grows-result _)
          λ go.
            Grows-if go
              (Grows-bind m.update_config (λ _. pure reread) (on_config-Final _)
                λ _. Grows-result _)
              (Grows-result _)

    begin-Final : (phone rest : Option Text) → Grows FinalBeside (begin true m phone rest)
    begin-Final (some number) rest = begin_call-Final number
    begin-Final none (some rest) = begin_update-Final
    begin-Final none none = Grows-result _

    pub accept-Final :
        (is_get : Bool) (path : Text) → Grows FinalBeside (accept boost d v is_get path)
    unfolding receive
    accept-Final is_get path =
        Grows-if is_get
          (Grows-try
            (begin true m (strip_prefix (codes "/phone=") path)
              (strip_prefix (codes "/update") path))
            (λ e. pure closed)
            (begin-Final (strip_prefix (codes "/phone=") path)
              (strip_prefix (codes "/update") path))
            λ e. Grows-result _)
          (Grows-result _)

    step_update-Final : (c : Connection) → Grows FinalBeside (step_update m c)
    step_update-Final unopened = Grows-result _
    step_update-Final (calling id p) = Grows-result _
    step_update-Final reread =
        Grows-bind m.notify (λ _. pure notified) (notify-Final v.joining) λ _. Grows-result _
    step_update-Final notified =
        Grows-bind m.note_time (λ _. pure asking) (on_config-Final _) λ _. Grows-result _
    step_update-Final asking =
        Grows-bind m.is_updated (λ updated. pure (reply_update updated)) (on_config-Final _)
          λ _. Grows-result _
    step_update-Final (replied res) = Grows-result _
    step_update-Final closed = Grows-result _

    pub advance-Final : (c : Connection) → Grows FinalBeside (advance m c)
    unfolding advance
    advance-Final c =
        Grows-try (step_update m c) (λ e. pure closed) (step_update-Final c) λ e. Grows-result _

    pub advance-IsOver :
        (c : Connection) (s : ThreadSafeConfig P × Manager) → IsOver c → advance m c s ≡ (ok c, s)
    unfolding advance
    advance-IsOver c s (inl e) = rw e refl
    advance-IsOver c s (inr (res, e)) = rw e refl

  pub worker_moves-Final : (t : Turn) → Grows FinalCalls (worker_moves d t)
  worker_moves-Final t = record {
    at = λ n.
        (Grows-if (ltb t.worker n.system.pool.size)
            (on_system-Final (turn-Final d t.worker t.thread t.env)) (Grows-result _)).at
          n;
  }

  pub see_file-Final :
      (t : ℕ) (host : Host) (w : Watching) → Grows FinalBeside (see_file boost d t host w)
  see_file-Final t host asleep =
      Grows-bind (gets (λ s. s.0.last_write_time))
        (λ last.
          if ltb last t
          then (on_config (update_config boost host) >> pure (read_at t))
          else pure asleep)
        (Grows-result _)
        λ last.
          Grows-if (ltb last t)
            (Grows-bind (on_config (update_config boost host)) (λ _. pure (read_at t))
              (on_config-Final _) λ _. Grows-result _)
            (Grows-result _)
  see_file-Final t host (read_at u) = Grows-result _
  see_file-Final t host (told_at u) = Grows-result _

  pub watch_on-Final :
      (joining : ℕ → List Turn) (w : Watching) → Grows FinalBeside (watch_on boost d joining w)
  watch_on-Final joining asleep = Grows-result _
  watch_on-Final joining (read_at t) =
      Grows-bind (λ s. notify boost (itself (thread_safe boost) d (joining s.1.system.pool.size)) s)
        (λ _. pure (told_at t)) (notify-Final joining) λ _. Grows-result _
  watch_on-Final joining (told_at t) =
      Grows-bind (keep_time t) (λ _. pure asleep) (on_config-Final _) λ _. Grows-result _

pub over-wake : (w : World) (c : Connection) → IsOver c → wake w c ≡ c
unfolding wake
over-wake w c (inl e) = rw e refl
over-wake w c (inr (res, e)) = rw e refl
