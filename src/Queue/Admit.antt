-- ===== src/Queue/Admit.antt =====
-- One push, as a request to the line of callers.
use protei_cov.Prelude.{
  ℕ, suc, ◌≡◌, refl, sym, subst, ◌∙◌, ap, Bool, true, false, List, [], ◌∷◌, ◌++◌, map, length,
  text_eq, All, All-map, All-append, All-remove, inl, inr, Bool-cases,
}
use mathlib.Core.List.{map-append}
use protei_cov.World.{World}
use protei_cov.Task.{get_number}
use protei_cov.Queue.Defs.{Item, Queue, State, push, same_number}
use protei_cov.Queue.Dismiss.{dismiss, dismiss-number, dismiss-promise}
use protei_cov.Queue.Find.{others}
use protei_cov.Queue.Valid.{promise_of, Waits, OwnPromise, IsValid, IsFresh, dismiss-Waits}
use protei_cov.Queue.Push.{full, push_cases}
use protei_cov.Queue.Laws.{push_items}
use protei_cov.Queue.Line.{
  arrives, admitted, refused, without, serve_line, caller, line, push_reply, SameCalls,
}

pub caller_same : {w w' : World} → SameCalls w w' → (x : Item) → caller w' x ≡ caller w x
caller_same k x = rw (k.number x.0) refl

pub map_same :
    {A B : Type 0} {f g : A → B} → ((a : A) → f a ≡ g a) → (xs : List A) → map f xs ≡ map g xs
map_same e [] = refl
map_same e (x ∷ xs) = rw (e x, map_same e xs) refl

length-map : {A B : Type 0} (f : A → B) (xs : List A) → length (map f xs) ≡ length xs
length-map f [] = refl
length-map f (x ∷ xs) = ap suc (length-map f xs)

map-others :
    (w : World) (t : ℕ) (xs : List Item)
    → map (caller w) (others (same_number w t) xs) ≡ without (get_number t w) (map (caller w) xs)
unfolding others same_number
map-others w t [] = refl
map-others w t (x ∷ xs) = elim (Bool-cases (text_eq (get_number x.0 w) (get_number t w))) [
  | inl h ↦ rw h (map-others w t xs)
  | inr h ↦ rw h (ap (◌∷◌ (caller w x)) (map-others w t xs))
]

module _ (now : ℕ) (x : Item) (q : Queue) (w : World) (v : IsValid q.items w)
    (new : IsFresh x q.items w) where
  abbrev pub after : State
  after = (push now x (q, w)).1

  dismiss-SameCalls : (b : Bool) (y : Item) → SameCalls w (dismiss now b y q.recorders w)
  dismiss-SameCalls b y = record {
    number = dismiss-number now b y q.recorders w;
    promise = dismiss-promise now b y q.recorders w;
  }

  pub push-SameCalls : SameCalls w after.1
  push-SameCalls = elim (push_cases now x q w v new) [
    | inl (f, e) ↦ subst (λ r. SameCalls w r.1.1) (sym e) (dismiss-SameCalls false x)
    | inr (inl (f, miss, o, e)) ↦
        subst (λ r. SameCalls w r.1.1) (sym e) (record { number = λ t. refl; promise = λ t. refl })
    | inr (inr (d, f, s, hit, o, wait, apart, pairs, e)) ↦
        subst (λ r. SameCalls w r.1.1) (sym e) (dismiss-SameCalls true d.it)
  ]

  pub push_line :
      (push_reply (push now x (q, w)).0, line after)
      ≡ serve_line q.size_of_queue (arrives (caller w x)) (line (q, w))
  push_line =
      let p = push_items now x q w v new in
      let named = map_same (caller_same push-SameCalls) after.0.items in
      let lengths : length (line (q, w)) ≡ length q.items = length-map (caller w) q.items in
      elim (Bool-cases (full q)) [
        | inl f ↦
            let items : after.0.items ≡ q.items = p.1 ∙ rw f refl in
            rw (p.0, f, lengths, f) (ap (λ l. (refused, l)) (named ∙ ap (map (caller w)) items))
        | inr f ↦
            let items : after.0.items ≡ others (same_number w x.0) q.items ++ (x ∷ []) =
              p.1 ∙ rw f refl in
            rw (p.0, f, lengths, f)
              (ap (λ l. (admitted, l))
                (named
                  ∙ ap (map (caller w)) items
                  ∙ map-append (caller w) (others (same_number w x.0) q.items) (x ∷ [])
                  ∙ ap (λ l. l ++ (caller w x ∷ [])) (map-others w x.0 q.items)))
      ]

  -- Another client that waits on a promise of its own goes on waiting, and its promise is none of the
  -- queue's.
  abbrev pub StillOwn : Item → State → Type 0
  StillOwn z s = Waits s.1 z × All (λ y. OwnPromise s.1 y z) s.0.items

  told :
      (b : Bool) (y z : Item) (ys : List Item)
      → OwnPromise w y z
      → Waits w z
      → All (λ y'. OwnPromise w y' z) ys
      → StillOwn z (record q { items = ys }, dismiss now b y q.recorders w)
  told b y z ys apart waits own = (
    dismiss-Waits now b y q.recorders w z apart waits,
    All-map ys (λ y' ne e. ne (sym (same y') ∙ e ∙ same z)) own,
  )
    where
      same : (t : Item) → promise_of (dismiss now b y q.recorders w) t ≡ promise_of w t
      same t = dismiss-promise now b y q.recorders w t.0

  pub push-StillOwn :
      (z : Item)
      → Waits w z
      → All (λ y. OwnPromise w y z) q.items
      → OwnPromise w x z
      → StillOwn z after
  push-StillOwn z waits own apart = elim (push_cases now x q w v new) [
    | inl (f, e) ↦ subst (λ r. StillOwn z r.1) (sym e) (told false x z q.items apart waits own)
    | inr (inl (f, miss, o, e)) ↦
        subst (λ r. StillOwn z r.1) (sym e)
          (waits, All-append (λ y. OwnPromise w y z) q.items (x ∷ []) own (apart, tt))
    | inr (inr (d, f, s, hit, o, wait, far, pairs, e)) ↦
        let rest = All-remove (λ y. OwnPromise w y z) d.before d.it d.behind (rw s at own) in
        subst (λ r. StillOwn z r.1) (sym e)
          (told true d.it z ((d.before ++ d.behind) ++ (x ∷ [])) rest.0 waits
            (All-append (λ y. OwnPromise w y z) (d.before ++ d.behind) (x ∷ []) rest.1 (apart, tt)))
  ]
