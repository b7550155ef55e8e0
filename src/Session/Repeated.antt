-- ===== src/Session/Repeated.antt =====
-- internal/platform/pg/pg.go: a transaction whose first write is a mark, if it writes anything, and what it
-- leaves when it ends.
pub mod Series
pub mod Outside
use mathlib.Core.List.{append-nil, append_assoc}
use sagaflow.Base.{
  ℕ, zero, suc, ◌≤◌, ◌≡◌, refl, sym, ◌∙◌, ap, subst, Bool, true, false, List, [], ◌∷◌, ◌++◌, inl,
  inr, ◌⊎◌, any, keep, length, All, arith, Bool-cases, if◌then◌else◌,
}
use sagaflow.Errors.{Result, ok, err, wrap, message, errors_is}
use sagaflow.Database.{Db, Write, perform, perform_all}
use sagaflow.Session.{
  Session, Environment, Tx, Fault, works, fails, unanswered, view, arrive, statement, begin, commit,
  finish, commit_now, with_tx, end_tx, unless_failed, fails_at,
}
use sagaflow.Session.Quiet.{arrive-Quiet}
use sagaflow.Session.Inversion.{arrive-pending}
use sagaflow.Session.Idle.{Settles}
use sagaflow.Session.Growth.{Grows, arrive-Grows, All-append}
use sagaflow.Database.Streams.{perform_all-append}

-- From `b` to `c` others have committed writes that break nothing.
abbrev pub Others : (Write → Bool) → Db → Db → Type 0
Others breaks b c =
    (theirs : List Write) × (c ≡ perform_all b theirs) × All (λ w. breaks w ≡ false) theirs

pub Others-trans :
    (breaks : Write → Bool) (a b c : Db) → Others breaks a b → Others breaks b c → Others breaks a c
Others-trans breaks a b c (x, p, f) (y, q, g) = (
  x ++ y,
  q ∙ ap (λ e. perform_all e y) p ∙ sym (perform_all-append a x y),
  All-append (λ w. breaks w ≡ false) x y f g,
)

module _ (marks bad breaks : Write → Bool) where
  -- What is committed in one transaction: nothing, or the mark and behind it nothing of the bad kind.
  abbrev pub Covered : List Write → Type 0
  Covered [] = Unit {0}
  Covered (w ∷ ws) = (marks w ≡ true) × All (λ v. bad v ≡ false) ws

  pub Covered-Grows :
      (s t : Session) (w : Write)
      → Grows bad breaks s t
      → s.pending ≡ w ∷ []
      → marks w ≡ true
      → Covered t.pending
  Covered-Grows s t w g alone mark =
      subst Covered (sym (g.writes ∙ ap (λ l. l ++ g.new_writes) alone)) (mark, g.clean)

  -- The body's end: it has committed nothing, and where it succeeded its writes are covered.
  abbrev pub Bodied : {A : Type 0} → Session → Result A × Session → Type 0
  Bodied {A} s p =
      (p.1.log ≡ s.log)
      × Others breaks s.committed p.1.committed
      × ((a : A) → p.0 ≡ ok a → Covered p.1.pending)

  -- What a commit of this connection leaves of `s`.
  pub record Commits (s t : Session) : Type 0 where
    pub ws : List Write
    pub log : t.log ≡ s.log ++ ws ∷ []
    pub covered : Covered ws
    pub base : Db
    pub since : Others breaks s.committed base
    pub tables : t.committed ≡ perform_all base ws

  -- The state that is left: nothing is pending; and nothing was committed, or one transaction.
  abbrev pub Left : Session → Session → Type 0
  Left s t =
      (t.pending ≡ []) × (((t.log ≡ s.log) × Others breaks s.committed t.committed) ⊎ Commits s t)

  -- And where something was committed, no conflict is reported.
  abbrev pub Sealed : {A : Type 0} → Session → Result A × Session → Type 0
  Sealed s p =
      (p.1.pending ≡ [])
      × (((p.1.log ≡ s.log) × Others breaks s.committed p.1.committed)
          ⊎ (Commits s p.1 × Settles p.0))

  pub Left-Sealed : {A : Type 0} (s : Session) (p : Result A × Session) → Sealed s p → Left s p.1
  Left-Sealed s p (none_in, inl l) = (none_in, inl l)
  Left-Sealed s p (none_in, inr (c, settled)) = (none_in, inr c)

  pub Left-again :
      (s t u : Session)
      → t.log ≡ s.log
      → Others breaks s.committed t.committed
      → Left t u
      → Left s u
  Left-again s t u same o (none_in, inl (l, p)) =
      (none_in, inl (l ∙ same, Others-trans breaks s.committed t.committed u.committed o p))
  Left-again s t u same o (none_in, inr c) = (
    none_in,
    inr (record {
      ws = c.ws;
      log = c.log ∙ ap (λ l. l ++ c.ws ∷ []) same;
      covered = c.covered;
      base = c.base;
      since = Others-trans breaks s.committed t.committed c.base o c.since;
      tables = c.tables;
    }),
  )

  module _ (env : Environment) (kept : (k : ℕ) → any breaks (env.others k) ≡ false) where
    pub arrive-Others : (s : Session) → Others breaks s.committed (arrive env s).committed
    arrive-Others s = let g = arrive-Grows bad breaks env kept s in (g.theirs, g.tables, g.foreign)

    module _ {A : Type 0} where
      sealing :
          (s t : Session) (r : Result A)
          → t.log ≡ s.log
          → Others breaks s.committed t.committed
          → Covered t.pending
          → Settles r
          → Sealed s (r, commit_now t)
      sealing s t r same o c settled = (
        refl,
        inr (
          record {
            ws = t.pending;
            log = ap (λ l. l ++ t.pending ∷ []) same;
            covered = c;
            base = t.committed;
            since = o;
            tables = refl;
          },
          settled,
        ),
      )

      finish-Sealed :
          (f : Fault) (a : A) (s t : Session)
          → t.log ≡ s.log
          → Others breaks s.committed t.committed
          → Covered t.pending
          → Sealed s (finish f a t)
      unfolding errors_is
      finish-Sealed works a s t same o c = sealing s t (ok a) same o c tt
      finish-Sealed fails a s t same o c = (refl, inl (same, o))
      finish-Sealed unanswered a s t same o c =
          sealing s t (err (wrap "commit" (message "connection failed"))) same o c refl

      end_tx-Sealed : (s : Session) (p : Result A × Session) → Bodied s p → Sealed s (end_tx env p)
      unfolding commit
      end_tx-Sealed s (ok a, t) (same, o, c) =
          finish-Sealed (env.fault t.step) a s (arrive env t) ((arrive-Quiet env t).log ∙ same)
            (Others-trans breaks s.committed t.committed (arrive env t).committed o
              (arrive-Others t))
            (subst Covered (sym (arrive-pending env t)) (c a refl))
      end_tx-Sealed s (err e, t) (same, o, c) = (refl, inl (same, o))

      pub with_tx-Sealed :
          (body : Tx A) (s : Session)
          → ((u : Session) → u.pending ≡ [] → Bodied u (body u))
          → s.pending ≡ []
          → Sealed s (with_tx env body s)
      unfolding with_tx begin statement
      with_tx-Sealed body s bodied none_in = by_begin (fails_at (env.fault s.step))
        where
          same : (arrive env s).log ≡ s.log
          same = (arrive-Quiet env s).log

          cleared : Session → Session
          cleared t = record t { pending = []; locked = []; started = env.clock t.step }

          ending : Session → Result A × Session
          ending t = end_tx env (body t)

          by_begin :
              (b : Bool)
              → Sealed {A = A} s (
                  let (x, t) =
                    unless_failed {0} {A = Unit {0}} b (λ t. (ok tt, cleared t)) (arrive env s) in
                  elim x [ err e ↦ (err (wrap "begin" e), t) | ok u ↦ ending t ])
          by_begin true = (arrive-pending env s ∙ none_in, inl (same, arrive-Others s))
          by_begin false =
              let (l, o, c) = bodied (cleared (arrive env s)) refl in
              let v = (body (cleared (arrive env s))).1 in
              end_tx-Sealed s (body (cleared (arrive env s))) (
                l ∙ same,
                Others-trans breaks s.committed (arrive env s).committed v.committed
                    (arrive-Others s) o,
                c,
              )
