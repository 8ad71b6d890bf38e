-- ===== src/Http/Alive.antt =====
-- A server in order, and what keeps it so.
use protei_cov.Prelude.{
  ℕ, suc, ◌≡◌, ◌≢◌, ◌<◌, ◌≤◌, refl, sym, ◌∙◌, subst, ◌⊎◌, inl, inr, Bool-cases, arith,
}
use protei_cov.Effects.{is_future_error}
use protei_cov.World.{World, Promise, pending, value, failed, update}
use protei_cov.Config.ThreadSafe.{ThreadSafeConfig}
use protei_cov.Pool.Alike.{update_cases}
use protei_cov.Pool.Progress.{IsRunning}
use protei_cov.Manager.{Manager}
use protei_cov.Manager.Laws.{IsReady, IsServed}
use protei_cov.Manager.Reread.{IsEquipped}
use protei_cov.Http.Defs.{Future, exception, result}
use protei_cov.Http.Connections.{
  Connection, unopened, calling, reread, notified, asking, replied, closed, wake, settle,
}
use protei_cov.Http.Serving.{Serving, Watching}

-- The connection waits on the promise `p`.
abbrev pub WaitsOn : ℕ → Connection → Type 0
WaitsOn p c = (id : ℕ) × (c ≡ calling id p)

-- A server in order: its config can work with its manager, whose pool runs; the connections that were
-- accepted are those that are open; every one that waits has a promise that is served, and no two
-- have the same one.
pub record IsAlive {P : Type 0} (s : Serving P) : Type 0 where
  pub set : IsEquipped s.state.0
  pub ready : IsReady s.state.1
  pub running : IsRunning s.state.1.system
  pub opened : (k : ℕ) → k < s.accepted → s.connections k ≢ unopened
  pub unseen : (k : ℕ) → s.accepted ≤ k → s.connections k ≡ unopened
  pub served : (k p : ℕ) → WaitsOn p (s.connections k) → IsServed p s.state.1
  pub distinct : (k l p : ℕ) → WaitsOn p (s.connections k) → WaitsOn p (s.connections l) → k ≡ l

settle_ends :
    (id : ℕ) (f : Future) → ((p : ℕ) → ¬ WaitsOn p (settle id f)) × (settle id f ≢ unopened)
unfolding settle
settle_ends id (result r) = (λ p (j, e). cc, λ e. cc)
settle_ends id (exception e) = elim (Bool-cases (is_future_error e)) [
  | inl y ↦ rw y (λ p (j, h). cc, λ h. cc)
  | inr n ↦ rw n (λ p (j, h). cc, λ h. cc)
]

-- What becomes of a connection: it waits on no promise but the one it has waited on, and one that is
-- open stays open.
pub record Follows (c c' : Connection) : Type 0 where
  pub same : (p : ℕ) → WaitsOn p c' → WaitsOn p c
  pub open_still : c ≢ unopened → c' ≢ unopened
  pub unseen_still : c ≡ unopened → c' ≡ unopened

pub stays : (c : Connection) → Follows c c
stays c = record { same = λ p h. h; open_still = λ ne. ne; unseen_still = λ h. h }

pub Follows-trans : {c c' c'' : Connection} → Follows c c' → Follows c' c'' → Follows c c''
Follows-trans f g = record {
  same = λ p h. f.same p (g.same p h);
  open_still = λ h. g.open_still (f.open_still h);
  unseen_still = λ h. g.unseen_still (f.unseen_still h);
}

settles :
    (w : World) (id p : ℕ) (f : Future)
    → wake w (calling id p) ≡ settle id f
    → Follows (calling id p) (wake w (calling id p))
settles w id p f e = record {
  same = λ p' h. absurd ((settle_ends id f).0 p' (subst (WaitsOn p') e h));
  open_still = λ ne h. (settle_ends id f).1 (sym e ∙ h);
  unseen_still = λ h. absurd (cc);
}

wake_calling :
    (w : World) (id p : ℕ) (v : Promise)
    → w.promises p ≡ v
    → Follows (calling id p) (wake w (calling id p))
unfolding wake
wake_calling w id p pending e = record {
  same = λ p' h. rw e at h;
  open_still = λ ne h. ne (rw e at h);
  unseen_still = λ h. absurd (cc);
}
wake_calling w id p (value r) e = settles w id p (result r) (rw e refl)
wake_calling w id p (failed x) e = settles w id p (exception x) (rw e refl)

pub wake-Follows : (w : World) (c : Connection) → Follows c (wake w c)
unfolding wake
wake-Follows w unopened = stays unopened
wake-Follows w (calling id p) = wake_calling w id p (w.promises p) refl
wake-Follows w reread = stays reread
wake-Follows w notified = stays notified
wake-Follows w asking = stays asking
wake-Follows w (replied res) = stays (replied res)
wake-Follows w closed = stays closed

abbrev pub grown : {P : Type 0} → Serving P → Connection → ℕ → Connection
grown s c = update s.connections s.accepted c

module _ {P : Type 0} (s : Serving P) (a : IsAlive s) where
  -- What the others do to the state.
  pub state_changes :
      (s' : ThreadSafeConfig P × Manager) (w : Watching)
      → IsEquipped s'.0
      → IsReady s'.1
      → (IsRunning s.state.1.system → IsRunning s'.1.system)
      → ((p : ℕ) → IsServed p s.state.1 → IsServed p s'.1)
      → IsAlive (record s { state = s'; watching = w })
  state_changes s' w set ready going kept = record {
    set = set;
    ready = ready;
    running = going a.running;
    opened = a.opened;
    unseen = a.unseen;
    served = λ k p h. kept p (a.served k p h);
    distinct = a.distinct;
  }

  changed-Follows :
      (k : ℕ) (c : Connection)
      → Follows (s.connections k) c
      → (j : ℕ) → Follows (s.connections j) (update s.connections k c j)
  changed-Follows k c f j = elim (update_cases s.connections k c j) [
    | inl (kj, e) ↦
        subst (Follows (s.connections j)) (sym e) (subst (λ u. Follows (s.connections u) c) kj f)
    | inr (_, e) ↦ subst (Follows (s.connections j)) (sym e) (stays (s.connections j))
  ]

  -- What a connection's thread makes of its own connection.
  pub changed-IsAlive :
      (k : ℕ) (c : Connection)
      → Follows (s.connections k) c
      → IsAlive (record s { connections = update s.connections k c })
  changed-IsAlive k c f =
      let g = changed-Follows k c f in
      record {
        set = a.set;
        ready = a.ready;
        running = a.running;
        opened = λ j lt. (g j).open_still (a.opened j lt);
        unseen = λ j le. (g j).unseen_still (a.unseen j le);
        served = λ j p h. a.served j p ((g j).same p h);
        distinct = λ j l p h h'. a.distinct j l p ((g j).same p h) ((g l).same p h');
      }

  -- A new connection, in a server whose state has come to `s'` by its request.
  module _ (s' : ThreadSafeConfig P × Manager) (c : Connection) (is_open : c ≢ unopened)
      (old : IsAlive (record s { state = s' }))
      (new : (id p : ℕ) → c ≡ calling id p → (p ≡ s.state.1.next_task) × IsServed p s'.1) where
    -- Who waits on a promise: the new connection on its own, or an old one on its old one.
    whose :
        (k p : ℕ)
        → WaitsOn p (grown s c k)
        → ((k ≡ s.accepted) × (p ≡ s.state.1.next_task) × IsServed p s'.1)
          ⊎ (WaitsOn p (s.connections k) × (p < s.state.1.next_task))
    whose k p (id, e) = elim (update_cases s.connections s.accepted c k) [
      | inl (kj, here) ↦ let (own, mine) = new id p (sym here ∙ e) in inl (sym kj, own, mine)
      | inr (_, here) ↦
          let h : WaitsOn p (s.connections k) = (id, sym here ∙ e) in inr (h, (a.served k p h).0)
    ]

    pub grown-IsAlive :
        IsAlive (record s { state = s'; connections = grown s c; accepted = suc s.accepted })
    grown-IsAlive = record {
      set = old.set;
      ready = old.ready;
      running = old.running;
      opened = λ k lt. elim (update_cases s.connections s.accepted c k) [
        | inl (_, here) ↦ λ e. is_open (sym here ∙ e)
        | inr (ne, here) ↦ λ e. a.opened k (omega (arith, lt, ne)) (sym here ∙ e)
      ];
      unseen = λ k le. elim (update_cases s.connections s.accepted c k) [
        | inl (same, _) ↦ absurd (omega (arith, le, same))
        | inr (ne, here) ↦ here ∙ a.unseen k (omega (arith, le))
      ];
      served =
          λ k p h. elim (whose k p h) [ inl (_, _, mine) ↦ mine | inr (h', _) ↦ old.served k p h' ];
      distinct = λ k l p h h'. elim (whose k p h) [
        | inl (new_k, own, _) ↦ elim (whose l p h') [
          | inl (new_l, _, _) ↦ new_k ∙ sym new_l
          | inr (_, below) ↦ absurd (omega (arith, own, below))
        ]
        | inr (old_k, below) ↦ elim (whose l p h') [
          | inl (_, own, _) ↦ absurd (omega (arith, own, below))
          | inr (old_l, _) ↦ a.distinct k l p old_k old_l
        ]
      ];
    }
