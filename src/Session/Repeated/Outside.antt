-- ===== src/Session/Repeated/Outside.antt =====
-- internal/platform/pg/pg.go: statements on the pool, outside a transaction, among calls that are made one
-- after the other.
use sagaflow.Base.{
  ℕ, String, ◌≡◌, refl, ◌∙◌, ap, Bool, true, false, List, [], ◌∷◌, ◌++◌, inl, inr, any,
}
use sagaflow.Errors.{Result, ok, err, message}
use sagaflow.Database.{Db, Write, perform, perform_all}
use sagaflow.Session.{
  Session, Environment, Fault, works, fails, unanswered, arrive, statement, annotate, autocommit,
  unless_failed, fails_at, write, commit_now,
}
use sagaflow.Session.Quiet.{arrive-Quiet}
use sagaflow.Session.Inversion.{arrive-pending}
use sagaflow.Session.Repeated.{arrive-Others}
use sagaflow.Session.Repeated.Series.{kept_others, Effect}

module _ (env : Environment) (P : Db → Type 0) (breaks : Write → Bool)
    (keeps : (d : Db) (w : Write) → breaks w ≡ false → P d → P (perform d w))
    (kept : (k : ℕ) → any breaks (env.others k) ≡ false) (Shape : List Write → Type 0)
    (hits : List Write → Bool) where
  arrive-keeps : (s : Session) → P s.committed → P (arrive env s).committed
  arrive-keeps s =
      kept_others P breaks keeps s.committed (arrive env s).committed
        (arrive-Others (λ w. false) (λ w. false) breaks env kept s)

  arrive-Effect : (s : Session) → s.pending ≡ [] → Effect P Shape hits s (arrive env s)
  arrive-Effect s none_in = record {
    none_pending = arrive-pending env s ∙ none_in;
    keeps = arrive-keeps s;
    commit = inl (arrive-Quiet env s).log;
  }

  -- A statement that only reads.
  pub reading-Effect :
      {A : Type 0} (text : String) (read : Session → Result A) (s : Session)
      → s.pending ≡ []
      → Effect P Shape hits s (annotate text (statement env (λ t. (read t, t))) s).1
  unfolding annotate statement
  reading-Effect {A} text read s none_in = by_failure (fails_at (env.fault s.step))
    where
      by_failure :
          (b : Bool)
          → Effect P Shape hits s (unless_failed {A = A} b (λ t. (read t, t)) (arrive env s)).1
      by_failure true = arrive-Effect s none_in
      by_failure false = arrive-Effect s none_in

  -- A statement that commits one write, which keeps `P` and does not hit.
  pub autocommit-Effect :
      (text : String) (w : Session → Write) (s : Session)
      → s.pending ≡ []
      → ((u : Session) → Shape (w u ∷ []))
      → ((u : Session) → hits (w u ∷ []) ≡ false)
      → ((u : Session) → breaks (w u) ≡ false)
      → Effect P Shape hits s
          (annotate text (autocommit env {A = Unit {0}} (λ t. (ok tt, write (w t ∷ []) t))) s).1
  unfolding annotate autocommit perform_all
  autocommit-Effect text w s none_in shaped miss harmless = by_fault (env.fault s.step)
    where
      t : Session
      t = record (arrive env s) { pending = []; locked = []; started = env.clock s.step }

      committed : Effect P Shape hits s (commit_now (write (w t ∷ []) t))
      committed = record {
        none_pending = refl;
        keeps = λ h. keeps (arrive env s).committed (w t) (harmless t) (arrive-keeps s h);
        commit = inr (
          w t ∷ [],
          ap (λ l. l ++ (w t ∷ []) ∷ []) (arrive-Quiet env s).log,
          shaped t,
          λ h. let no = miss t in cc,
          λ known. miss t,
        );
      }

      by_fault :
          (f : Fault)
          → Effect P Shape hits s
              (elim f as (λ x. Result (Unit {0}) × Session) [
                | works ↦ (ok tt, commit_now (write (w t ∷ []) t))
                | fails ↦ (err (message "connection failed"), t)
                | unanswered ↦ (err (message "connection failed"), commit_now (write (w t ∷ []) t))
              ]).1
      by_fault works = committed
      by_fault fails = record {
        none_pending = refl;
        keeps = arrive-keeps s;
        commit = inl (arrive-Quiet env s).log;
      }
      by_fault unanswered = committed
