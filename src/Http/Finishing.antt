-- ===== src/Http/Finishing.antt =====
-- Requests for an update come to their end.
use protei_cov.Prelude.{
  ℕ, zero, suc, ◌≡◌, ◌≢◌, ◌≤◌, ◌<◌, refl, ap, ◌∙◌, subst, List, [], ◌∷◌, ◌⊎◌, inl, inr, ◌==◌,
  Bool-cases, arith,
}
use protei_cov.Effects.{ok}
use protei_cov.Json.{PropertyTree}
use protei_cov.Task.{Distribution}
use protei_cov.Task.Laws.{InBounds}
use protei_cov.Manager.Replace.{IsFair}
use protei_cov.Http.Defs.{Response}
use protei_cov.Http.Connections.{
  Connection, unopened, calling, reread, notified, asking, replied, closed,
}
use protei_cov.Http.Waiting.{HasReply}
use protei_cov.Http.Visits.{Visit}
use protei_cov.Http.Serving.{Serving, Happening, wakes, serve}
use protei_cov.Http.Alive.{IsAlive}
use protei_cov.Http.Advance.{steps_left}
use protei_cov.Http.Life.{Woken, wakes-Woken}

-- Three steps of each of the first `n` connections' threads.
abbrev pub finishing : Visit → ℕ → List Happening
finishing v zero = []
finishing v (suc n) = wakes v n ∷ wakes v n ∷ wakes v n ∷ finishing v n

-- What becomes of a client: it waits on or has the reply to its call, and replies stay.
pub record Onward (c c' : Connection) : Type 0 where
  pub waiting : (id p : ℕ) → c ≡ calling id p → (c' ≡ calling id p) ⊎ HasReply id c'
  pub replies : (res : Response) → c ≡ replied res → c' ≡ replied res

Onward-same : {c c' : Connection} → c' ≡ c → Onward c c'
Onward-same e = record { waiting = λ id p h. inl (e ∙ h); replies = λ res h. e ∙ h }

Onward-trans : {c c' c'' : Connection} → Onward c c' → Onward c' c'' → Onward c c''
Onward-trans f g = record {
  waiting = λ id p h. elim (f.waiting id p h) [
    | inl e ↦ g.waiting id p e
    | inr (r, answer, e) ↦ inr (r, answer, g.replies _ e)
  ];
  replies = λ res h. g.replies res (f.replies res h);
}

steps_left-le : (c : Connection) → steps_left c ≤ 3
steps_left-le reread = omega arith
steps_left-le notified = omega arith
steps_left-le asking = omega arith
steps_left-le unopened = omega arith
steps_left-le (calling id p) = omega arith
steps_left-le (replied res) = omega arith
steps_left-le closed = omega arith

module _ {P : Type 0} (boost : PropertyTree P) (d : Distribution) (inside : InBounds d) (v : Visit)
    (fair : (n : ℕ) → IsFair n (v.joining n)) where
  -- What is left when the threads of the first `n` connections have made their steps.
  pub record Finished (n : ℕ) (s : Serving P) : Type 0 where
    pub end : Serving P
    pub returns : serve boost d (finishing v n) s ≡ (ok tt, end)
    pub alive : IsAlive end
    pub same_number : end.accepted ≡ s.accepted
    pub finished : (k : ℕ) → k < n → steps_left (end.connections k) ≡ 0
    pub others : (k : ℕ) → n ≤ k → end.connections k ≡ s.connections k
    pub onward : (k : ℕ) → Onward (s.connections k) (end.connections k)

  wakes-Onward :
      (s : Serving P) (a : IsAlive s) (k : ℕ) (w : Woken boost d inside s a v k) (j : ℕ)
      → Onward (s.connections j) (w.end.connections j)
  wakes-Onward s a k w j = elim (Bool-cases (k == j)) [
    | inl e ↦
        let same : k ≡ j = ground arith in
        subst (λ u. Onward (s.connections u) (w.end.connections u)) same
          (record { waiting = w.waiting; replies = w.replies })
    | inr e ↦ Onward-same (w.others j (ground arith))
  ]

  -- In a server in order, three steps of each accepted connection's thread end all requests for an
  -- update that were under way: nothing faults or is thrown, the server stays in order, those who
  -- waited for a call wait on or have its result as their reply, and replies stay.
  pub finishing-Finished : (n : ℕ) (s : Serving P) → IsAlive s → Finished n s
  unfolding serve
  finishing-Finished zero s a = record {
    end = s;
    returns = refl;
    alive = a;
    same_number = refl;
    finished = λ k lt. absurd (omega (arith, lt));
    others = λ k le. refl;
    onward = λ k. Onward-same refl;
  }
  finishing-Finished (suc n) s a =
      let x = wakes-Woken boost d inside s a v n fair in
      let y = wakes-Woken boost d inside x.end x.alive v n fair in
      let z = wakes-Woken boost d inside y.end y.alive v n fair in
      let rest = finishing-Finished n z.end z.alive in
      let others : (k : ℕ) → n ≢ k → z.end.connections k ≡ s.connections k =
        λ k ne. z.others k ne ∙ y.others k ne ∙ x.others k ne in
      record {
        end = rest.end;
        returns = rw x.returns (rw y.returns (rw z.returns rest.returns));
        alive = rest.alive;
        same_number = rest.same_number ∙ z.same_number ∙ y.same_number ∙ x.same_number;
        finished = λ k lt. elim (Bool-cases (n == k)) [
          | inl e ↦
              let same : n ≡ k = ground arith in
              subst (λ u. steps_left (rest.end.connections u) ≡ 0) same
                (ap steps_left (rest.others n (omega arith))
                  ∙ omega (arith, z.fewer, y.fewer, x.fewer, steps_left-le (s.connections n)))
          | inr e ↦ rest.finished k (let ne : n ≢ k = ground arith in omega (arith, lt, ne))
        ];
        others = λ k le. rest.others k (omega (arith, le)) ∙ others k (omega (arith, le));
        onward = λ k. Onward-trans (wakes-Onward s a n x k) (
            Onward-trans (wakes-Onward x.end x.alive n y k)
              (Onward-trans (wakes-Onward y.end y.alive n z k) (rest.onward k)));
      }
