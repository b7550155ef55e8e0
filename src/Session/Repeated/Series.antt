-- ===== src/Session/Repeated/Series.antt =====
-- internal/platform/pg/pg.go: the commits of calls that are made one after the other, of which those of one
-- kind happen once.
use mathlib.Core.List.{append-nil, append_assoc}
use sagaflow.Base.{
  ℕ, zero, suc, ◌+◌, ◌≤◌, ◌≡◌, refl, sym, ◌∙◌, ap, Bool, true, false, List, [], ◌∷◌, ◌++◌, inl, inr,
  ◌⊎◌, keep, keep-append, length, length-append, All, arith, Bool-cases,
}
use sagaflow.Database.{Db, Write, perform, perform_all}
use sagaflow.Session.{Session}
use sagaflow.Session.Growth.{All-append}
use sagaflow.Session.Repeated.{Others}

-- Whether a commit writes anything.
abbrev pub has_writes : List Write → Bool
has_writes [] = false
has_writes (w ∷ ws) = true

-- `n` calls, one after the other.
pub again_and_again : ℕ → (Session → Session) → Session → Session
again_and_again zero call s = s
again_and_again (suc n) call s = call (again_and_again n call s)

-- Calls of some kind, one after the other.
pub data Calls (C : Session → Session → Type 0) (s : Session) : Session → Type 0 where
  start : Calls C s s
  then_call : {t u : Session} → Calls C s t → C t u → Calls C s u

pub again_and_again-Calls :
    (n : ℕ) (call : Session → Session) (s : Session)
    → Calls (λ u v. v ≡ call u) s (again_and_again n call s)
unfolding again_and_again
again_and_again-Calls zero call s = start
again_and_again-Calls (suc n) call s = then_call (again_and_again-Calls n call s) refl

module _ (P : Db → Type 0) (breaks : Write → Bool)
    (keeps : (d : Db) (w : Write) → breaks w ≡ false → P d → P (perform d w)) where
  pub kept_by :
      (d : Db) (ws : List Write) → All (λ w. breaks w ≡ false) ws → P d → P (perform_all d ws)
  unfolding perform_all
  kept_by d [] clean h = h
  kept_by d (w ∷ ws) clean h = kept_by (perform d w) ws clean.1 (keeps d w clean.0 h)

  pub kept_others : (b c : Db) → Others breaks b c → P b → P c
  kept_others b c (theirs, e, clean) h = rw e (kept_by b theirs clean h)

-- Commits of the shape `Shape`, among them those that hit: these make `P` true, and do not come after.
module _ (P : Db → Type 0) (Shape : List Write → Type 0) (hits : List Write → Bool) where
  -- What one call does, started with nothing pending.
  pub record Effect (s t : Session) : Type 0 where
    pub none_pending : t.pending ≡ []
    pub keeps : P s.committed → P t.committed
    pub commit :
        (t.log ≡ s.log)
        ⊎ ((ws : List Write) × (t.log ≡ s.log ++ ws ∷ [])
            × Shape ws
            × (hits ws ≡ true → P t.committed)
            × (P s.committed → hits ws ≡ false))

  abbrev hit_count : List (List Write) → ℕ
  hit_count new = length (keep hits new)

  hit_count-append :
      (xs ys : List (List Write)) → hit_count (xs ++ ys) ≡ hit_count xs + hit_count ys
  hit_count-append xs ys =
      ap length (keep-append hits xs ys) ∙ length-append (keep hits xs) (keep hits ys)

  -- What calls have done, one after the other.
  record Done (s t : Session) : Type 0 where
    new : List (List Write)
    log : t.log ≡ s.log ++ new
    shapes : All Shape new
    none_pending : t.pending ≡ []
    few : (hit_count new ≡ 0) ⊎ (P t.committed × (hit_count new ≤ 1))

  Done-call : (s t u : Session) → Done s t → Effect t u → Done s u
  unfolding keep
  Done-call s t u d e = elim e.commit [
    | inl same ↦ record {
      new = d.new;
      log = same ∙ d.log;
      shapes = d.shapes;
      none_pending = e.none_pending;
      few = elim d.few [ inl zero_hits ↦ inl zero_hits | inr (p, one) ↦ inr (e.keeps p, one) ];
    }
    | inr (ws, logged, shape, marks, apart) ↦ record {
      new = d.new ++ ws ∷ [];
      log = logged ∙ ap (λ l. l ++ ws ∷ []) d.log ∙ append_assoc s.log d.new (ws ∷ []);
      shapes = All-append Shape d.new (ws ∷ []) d.shapes (shape, tt);
      none_pending = e.none_pending;
      few = elim (Bool-cases (hits ws)) [
        | inl hit ↦ elim d.few [
          | inl zero_hits ↦
              let sum = hit_count-append d.new (ws ∷ []) in
              let one : hit_count (ws ∷ []) ≡ 1 = rw hit refl in
              inr (marks hit, omega (arith, sum, one, zero_hits))
          | inr (p, one) ↦ let no = apart p in cc
        ]
        | inr miss ↦
            let sum = hit_count-append d.new (ws ∷ []) in
            let nothing : hit_count (ws ∷ []) ≡ 0 = rw miss refl in
            elim d.few [
              | inl zero_hits ↦ inl (omega (arith, sum, nothing, zero_hits))
              | inr (p, one) ↦ inr (e.keeps p, omega (arith, sum, nothing, one))
            ]
      ];
    }
  ]

  -- However many calls are made, at most one commit hits.
  abbrev pub Once : Session → Session → Type 0
  Once s t =
      (new : List (List Write)) × (t.log ≡ s.log ++ new)
      × All Shape new
      × (length (keep hits new) ≤ 1)

  module _ (C : Session → Session → Type 0)
      (effect : (s t : Session) → C s t → s.pending ≡ [] → Effect s t) where
    Calls-Done : {s t : Session} → s.pending ≡ [] → Calls C s t → Done s t
    unfolding keep
    Calls-Done {s} none_in start = record {
      new = [];
      log = sym (append-nil s.log);
      shapes = tt;
      none_pending = none_in;
      few = inl refl;
    }
    Calls-Done {s} none_in (then_call {t} {u} calls c) =
        let d = Calls-Done none_in calls in Done-call s t u d (effect t u c d.none_pending)

    pub Calls-Once : {s t : Session} → s.pending ≡ [] → Calls C s t → Once s t
    Calls-Once none_in calls =
        let d = Calls-Done none_in calls in
        (
          d.new,
          d.log,
          d.shapes,
          elim d.few [ inl zero_hits ↦ omega (arith, zero_hits) | inr (p, one) ↦ one ],
        )
