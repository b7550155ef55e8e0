-- ===== src/Session/Resting.antt =====
-- internal/platform/pg/pg.go: transactions that write no event leave every stream's versions in order, and
-- nothing pending.
use mathlib.Core.List.{append-nil}
use sagaflow.Base.{◌≡◌, refl, sym, ◌∙◌, subst, Bool, true, false, [], ◌++◌}
use sagaflow.Errors.{Result, ok, err, wrap, message}
use sagaflow.Database.{Db}
use sagaflow.Database.Streams.{AllSequential, inserted, events-perform_all}
use sagaflow.Session.{
  Session, Environment, Tx, Fault, works, fails, unanswered, arrive, statement, begin, commit,
  finish, commit_now, rollback, with_tx, end_tx, autocommit, unless_failed, fails_at,
}
use sagaflow.Session.Quiet.{IsOrdered, IsQuiet, arrive-Quiet}
use sagaflow.Session.Inversion.{arrive-pending}

-- Between two transactions: in every stream the versions are 1, 2, 3, … in the order of insertion, and
-- nothing is pending.
pub record IsAtRest (s : Session) : Type 0 where
  pub ordered : AllSequential s.committed.events
  pub none_pending : s.pending ≡ []

pub IsAtRest-IsOrdered : (s : Session) → IsAtRest s → IsOrdered s
IsAtRest-IsOrdered s r = record {
  stored = r.ordered;
  seen =
      subst (λ ws. AllSequential (s.committed.events ++ inserted ws)) (sym r.none_pending)
        (subst AllSequential (sym (append-nil s.committed.events)) r.ordered);
}

pub rollback-IsAtRest : (s : Session) → IsOrdered s → IsAtRest (rollback s)
rollback-IsAtRest s o = record { ordered = o.stored; none_pending = refl }

pub commit_now-IsAtRest : (s : Session) → IsOrdered s → IsAtRest (commit_now s)
commit_now-IsAtRest s o = record {
  ordered = subst AllSequential (sym (events-perform_all s.committed s.pending)) o.seen;
  none_pending = refl;
}

pub finish-IsAtRest :
    {A : Type 0} (f : Fault) (a : A) (s : Session) → IsOrdered s → IsAtRest (finish f a s).1
finish-IsAtRest works a s o = commit_now-IsAtRest s o
finish-IsAtRest fails a s o = rollback-IsAtRest s o
finish-IsAtRest unanswered a s o = commit_now-IsAtRest s o

-- A transaction that has begun: the writes of the last one are gone.
pub begun-IsOrdered :
    (s t : Session) → IsOrdered s → t.committed ≡ s.committed → t.pending ≡ [] → IsOrdered t
begun-IsOrdered s t o same none_in = IsAtRest-IsOrdered t (record {
  ordered = subst (λ (b : Db). AllSequential b.events) (sym same) o.stored;
  none_pending = none_in;
})

module _ (env : Environment) where
  pub arrive-IsAtRest : (s : Session) → IsAtRest s → IsAtRest (arrive env s)
  arrive-IsAtRest s r = record {
    ordered = ((arrive-Quiet env s).ordered (IsAtRest-IsOrdered s r)).stored;
    none_pending = arrive-pending env s ∙ r.none_pending;
  }

  module _ {A : Type 0} where
    end_tx-IsAtRest : (p : Result A × Session) → IsOrdered p.1 → IsAtRest (end_tx env p).1
    unfolding commit
    end_tx-IsAtRest (ok a, t) o =
        finish-IsAtRest (env.fault t.step) a (arrive env t) ((arrive-Quiet env t).ordered o)
    end_tx-IsAtRest (err e, t) o = rollback-IsAtRest t o

    pub with_tx-IsAtRest :
        (body : Tx A) → IsQuiet body → (s : Session) → IsAtRest s → IsAtRest (with_tx env body s).1
    unfolding with_tx begin statement
    with_tx-IsAtRest body quiet s r = by_begin (fails_at (env.fault s.step))
      where
        cleared : Session → Session
        cleared t = record t { pending = []; locked = []; started = env.clock t.step }

        here : IsAtRest (arrive env s)
        here = arrive-IsAtRest s r

        by_begin :
            (b : Bool)
            → IsAtRest
                (let (x, t) =
                    unless_failed {0} {A = Unit {0}} b (λ t. (ok tt, cleared t)) (arrive env s) in
                  elim x as (λ x. Result A × Session) [
                    | err e ↦ (err (wrap "begin" e), t)
                    | ok u ↦ end_tx env (body t)
                  ]).1
        by_begin true = here
        by_begin false =
            let o =
              begun-IsOrdered (arrive env s) (cleared (arrive env s))
                (IsAtRest-IsOrdered (arrive env s) here) refl refl in
            end_tx-IsAtRest (body (cleared (arrive env s)))
              ((quiet.at (cleared (arrive env s))).ordered o)

    -- One statement on the pool.
    pub autocommit-IsAtRest :
        (body : Tx A)
        → IsQuiet body
        → (s : Session) → IsAtRest s
        → IsAtRest (autocommit env body s).1
    unfolding autocommit
    autocommit-IsAtRest body quiet s r = by_fault (env.fault s.step)
      where
        t : Session
        t = record (arrive env s) { pending = []; locked = []; started = env.clock s.step }

        here : IsAtRest t
        here = record { ordered = (arrive-IsAtRest s r).ordered; none_pending = refl }

        after : IsAtRest (commit_now (body t).1)
        after = commit_now-IsAtRest (body t).1 ((quiet.at t).ordered (IsAtRest-IsOrdered t here))

        by_fault :
            (f : Fault)
            → IsAtRest
                (elim f as (λ x. Result A × Session) [
                  | works ↦ ((body t).0, commit_now (body t).1)
                  | fails ↦ (err (message "connection failed"), t)
                  | unanswered ↦ (err (message "connection failed"), commit_now (body t).1)
                ]).1
        by_fault works = after
        by_fault fails = here
        by_fault unanswered = after

    -- A statement that only reads.
    pub reading-IsAtRest :
        (read : Session → Result A) (s : Session)
        → IsAtRest s
        → IsAtRest (statement env (λ t. (read t, t)) s).1
    unfolding statement
    reading-IsAtRest read s r = by_failure (fails_at (env.fault s.step))
      where
        by_failure :
            (b : Bool) → IsAtRest (unless_failed {A = A} b (λ t. (read t, t)) (arrive env s)).1
        by_failure true = arrive-IsAtRest s r
        by_failure false = arrive-IsAtRest s r
