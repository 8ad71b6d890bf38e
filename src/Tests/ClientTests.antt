-- ===== src/Tests/ClientTests.antt =====
-- The server's clients, from a request to the reply.
use protei_cov.Prelude.{
  ℕ, zero, suc, ◌+◌, ◌*◌, ◌≡◌, ◌≤◌, ◌<◌, refl, subst, inl, inr, ◌==◌, Bool-cases, true, false, List,
  [], ◌∷◌, length, All, arith,
}
use protei_cov.Effects.{ok}
use protei_cov.Pool.Join.{Turn}
use protei_cov.Pool.Joining.{Fit, count}
use protei_cov.Config.ThreadSafe.{set_manager}
use protei_cov.Http.Serving.{serve}
use protei_cov.Http.Life.{Lives, serve-Lives}
use protei_cov.Http.Final.{Settled, serve-Settled}
use protei_cov.Http.Replies.{AllReplied, serve-AllReplied}
use protei_cov.Http.Finishing.{Finished, finishing-Finished}
use protei_cov.Http.Steps.{in_turn, in_turn_differ}
use protei_cov.Manager.{Manager}
use protei_cov.Manager.Laws.{IsReady}
use protei_cov.Manager.Reread.{IsEquipped}
use protei_cov.Config.ThreadSafe.{
  ThreadSafeConfig, set_manager, construct as construct_config, update_config, reload,
}
use protei_cov.Config.Common.{make_normal_path}
use protei_cov.Json.{parse, output, output_config, collect}
use protei_cov.Http.Clients.{Finished-IsCalm, ServesAll, new_server-ServesAll}
use protei_cov.Tests.CallTests.{shortest, shortest-InBounds}
use protei_cov.Tests.ConfigFiles.{Flat, boost, upper_host}
use protei_cov.Tests.ManagerTests.{
  worker_turn, thrice-IsFair, empty_world, good_site, good_config, good_config-IsNormal,
  set_config-IsEquipped, called,
}
use protei_cov.Tests.BusyHour.{visit, busy_hour, busy_hour-IsFine}

new_server-ServesAll_example :
    ServesAll boost good_site empty_world [] shortest shortest-InBounds busy_hour
new_server-ServesAll_example =
    new_server-ServesAll boost good_site empty_world [] shortest shortest-InBounds busy_hour refl
      good_config-IsNormal busy_hour-IsFine

-- The server after that hour.
after_hour : ServesAll boost good_site empty_world [] shortest shortest-InBounds busy_hour
after_hour =
    new_server-ServesAll boost good_site empty_world [] shortest shortest-InBounds busy_hour refl
      good_config-IsNormal busy_hour-IsFine

serve-Lives_example : Lives boost shortest shortest-InBounds busy_hour after_hour.life.end
serve-Lives_example =
    serve-Lives boost shortest shortest-InBounds busy_hour after_hour.life.end busy_hour-IsFine
      after_hour.life.alive

serve-Settled_example :
    Settled after_hour.life.end (serve boost shortest busy_hour after_hour.life.end).1
serve-Settled_example = serve-Settled boost shortest busy_hour after_hour.life.end

-- So many moves of each worker below `n`.
abbrev copies : ℕ → Turn → List Turn → List Turn
copies zero t ts = ts
copies (suc k) t ts = t ∷ copies k t ts

abbrev each : ℕ → ℕ → List Turn
each k zero = []
each k (suc n) = copies k (worker_turn n) (each k n)

copies-Fit :
    (size k : ℕ) (t : Turn) (ts : List Turn)
    → Fit size t
    → All (Fit size) ts
    → All (Fit size) (copies k t ts)
copies-Fit size zero t ts f fs = fs
copies-Fit size (suc k) t ts f fs = (f, copies-Fit size k t ts f fs)

each-Fit : (size k n : ℕ) → n ≤ size → All (Fit size) (each k n)
each-Fit size k zero h = tt
each-Fit size k (suc n) h =
    copies-Fit size k (worker_turn n) (each k n) (omega (arith, h), (3, refl))
      (each-Fit size k n (omega (arith, h)))

count-copies-le : (k i : ℕ) (t : Turn) (ts : List Turn) → count i ts ≤ count i (copies k t ts)
count-copies-le zero i t ts = omega arith
count-copies-le (suc k) i t ts = omega (arith, count-copies-le k i t ts)

le-count-copies : (k : ℕ) (t : Turn) (ts : List Turn) → k ≤ count t.worker (copies k t ts)
le-count-copies zero t ts = omega arith
le-count-copies (suc k) t ts = ground (arith, le-count-copies k t ts)

count-each : (k n i : ℕ) → i < n → k ≤ count i (each k n)
count-each k zero i h = absurd (omega arith)
count-each k (suc n) i h = elim (Bool-cases (n == i)) [
  | inl last ↦
      let same : n ≡ i = ground arith in
      subst (λ j. k ≤ count j (each k (suc n))) same (le-count-copies k (worker_turn n) (each k n))
  | inr before ↦
      omega (arith, count-copies-le k i (worker_turn n) (each k n), count-each k n i (ground arith))
]

finished_hour :
    Finished boost shortest shortest-InBounds
      (visit 70)
      thrice-IsFair
      after_hour.life.end.accepted
      after_hour.life.end
finished_hour =
    finishing-Finished boost shortest shortest-InBounds (visit 70) thrice-IsFair
      after_hour.life.end.accepted after_hour.life.end after_hour.life.alive

serve-AllReplied_example :
    AllReplied boost shortest
      (visit 80)
      (each
        (3 * length finished_hour.alive.ready.queue.items + 2)
        finished_hour.end.state.1.system.pool.size)
      finished_hour.end
serve-AllReplied_example =
    serve-AllReplied boost shortest shortest-InBounds
      (each (3 * length finished_hour.alive.ready.queue.items + 2)
        finished_hour.end.state.1.system.pool.size)
      finished_hour.end finished_hour.alive
      (each-Fit finished_hour.end.state.1.system.pool.size
        (3 * length finished_hour.alive.ready.queue.items + 2)
        finished_hour.end.state.1.system.pool.size (omega arith))
      (count-each (3 * length finished_hour.alive.ready.queue.items + 2)
        finished_hour.end.state.1.system.pool.size)
      (visit 80)
      (Finished-IsCalm boost shortest shortest-InBounds (visit 70) thrice-IsFair after_hour.life.end
        after_hour.life.alive finished_hour)

upper_taken : (update_config boost upper_host (set_manager boost good_config)).1.updated ≡ true
unfolding update_config set_manager construct_config reload parse output output_config collect
    make_normal_path
upper_taken = refl

in_turn_differ_example :
    (s' : ThreadSafeConfig Flat × Manager) × (in_turn boost shortest
        (visit 20)
        (visit 21)
        (set_manager boost good_config, called.after)
      ≡ (ok (true, false), s'))
    × IsEquipped s'.0
    × IsReady s'.1
in_turn_differ_example =
    in_turn_differ boost shortest shortest-InBounds (visit 20) (visit 21) thrice-IsFair
      thrice-IsFair (set_manager boost good_config) called.after set_config-IsEquipped called.ready
      upper_taken
