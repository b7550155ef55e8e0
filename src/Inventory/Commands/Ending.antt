-- ===== src/Inventory/Commands/Ending.antt =====
-- internal/inventory and internal/platform/pg/pg.go: how a transaction that holds a decision
-- ends.
use sagaflow.Base.{
  String, ◌≡◌, refl, sym, ◌∙◌, ap, subst, Bool, true, false, List, [], ◌∷◌, ◌++◌, inl, inr, ◌⊎◌,
}
use sagaflow.Errors.{Error, Result, ok, err, wrap, errors_is}
use sagaflow.Codec.{Meta}
use sagaflow.Seat.{SeatState, Outcome}
use sagaflow.Database.{Db, Write, perform_all}
use sagaflow.Database.Streams.{inserted, AllSequential, events-perform_all}
use sagaflow.Session.{
  Session, Tx, with_tx, begin, statement, unless_failed, fails_at, view, arrive, commit, rollback,
  commit_now, finish, Fault, works, fails, unanswered, end_tx,
}
use sagaflow.Session.Inversion.{arrive-pending}
use sagaflow.Session.Quiet.{IsOrdered, Quiet, arrive-Quiet}
use mathlib.Core.List.{append-nil}
use sagaflow.Inventory.Commands.{Deps, is_conflict}
use sagaflow.Inventory.Commands.Decided.{IsDecision, Decided, Decided-Quiet}
use sagaflow.Inventory.Commands.Running.{Run}

module _ (d : Deps) (choose : SeatState → Result Outcome) (meta_of : Meta → Meta)
    (seat : String) where
  open d use {json, timestamps, header_json, env}

  -- A commit of this connection: the writes `ws`, on what was committed when it took place.
  pub record Committed (s t : Session) : Type 0 where
    pub base : Db
    pub ws : List Write
    pub log : t.log ≡ s.log ++ ws ∷ []
    pub tables : t.committed ≡ perform_all base ws
    pub decided : (inserted ws ≡ []) ⊎ IsDecision d choose meta_of seat base.events (inserted ws)

  -- How one try ends: with nothing pending and the streams in order, and either an error and nothing
  -- committed, or one commit.
  pub record Ended {A : Type 0} (s : Session) (p : Result A × Session) : Type 0 where
    pub ordered : IsOrdered p.1
    pub none_pending : p.1.pending ≡ []
    pub effect :
        ((e : Error) × (p.0 ≡ err e) × (p.1.log ≡ s.log))
        ⊎ (Committed s p.1 × (is_conflict p.0 ≡ false))

  pub rolled_back :
      {A : Type 0} (s t : Session) (e : Error)
      → t.log ≡ s.log
      → IsOrdered t
      → Ended {A = A} s (err e, rollback t)
  rolled_back s t e same o = record {
    ordered = record {
      stored = o.stored;
      seen = subst AllSequential (sym (append-nil t.committed.events)) o.stored;
    };
    none_pending = refl;
    effect = inl (e, refl, same);
  }

  committing :
      (s t : Session)
      → t.log ≡ s.log
      → IsOrdered t
      → Decided d choose meta_of seat t
      → IsOrdered (commit_now t) × Committed s (commit_now t)
  committing s t same o x = (
    record {
      stored = subst AllSequential (sym (events-perform_all t.committed t.pending)) o.seen;
      seen =
          subst AllSequential
            (sym (append-nil (view t).events ∙ events-perform_all t.committed t.pending)) o.seen;
    },
    record {
      base = t.committed;
      ws = t.pending;
      log = ap (λ l. l ++ t.pending ∷ []) same;
      tables = refl;
      decided = x;
    },
  )

  finish-Ended :
      {A : Type 0} (f : Fault) (a : A) (s t : Session)
      → t.log ≡ s.log
      → IsOrdered t
      → Decided d choose meta_of seat t
      → Ended s (finish f a t)
  unfolding errors_is
  finish-Ended works a s t same o x =
      let (o', c) = committing s t same o x in
      record { ordered = o'; none_pending = refl; effect = inr (c, refl) }
  finish-Ended fails a s t same o x = rolled_back s t _ same o
  finish-Ended unanswered a s t same o x =
      let (o', c) = committing s t same o x in
      record { ordered = o'; none_pending = refl; effect = inr (c, refl) }

  pub end_tx-Ended :
      {A : Type 0} (s : Session) (p : Result A × Session)
      → Run d choose meta_of seat s p
      → Ended s (end_tx env p)
  unfolding commit
  end_tx-Ended s (ok a, t) r =
      let q = arrive-Quiet env t in
      finish-Ended (env.fault t.step) a s (arrive env t) (q.log ∙ r.log) (q.ordered r.ordered)
        (Decided-Quiet d choose meta_of seat q r.ordered (r.decided a refl))
  end_tx-Ended s (err e, t) r = rolled_back s t e r.log r.ordered

  -- Where a transaction starts: nothing is pending.
  pub opened : Session → Session
  opened s = record (arrive env s) {
    pending = [];
    locked = [];
    started = env.clock (arrive env s).step;
  }

  opened-IsOrdered : (s : Session) → IsOrdered s → IsOrdered (opened s)
  unfolding opened
  opened-IsOrdered s o =
      let stored = ((arrive-Quiet env s).ordered o).stored in
      record {
        stored = stored;
        seen = subst AllSequential (sym (append-nil (arrive env s).committed.events)) stored;
      }

  -- A transaction whose body runs as `Run` says, wherever it starts with nothing pending.
  pub with_tx-Ended :
      {A : Type 0} (body : Tx A) (s : Session)
      → ((u : Session)
          → IsOrdered u
          → inserted u.pending ≡ []
          → Run d choose meta_of seat u (body u))
      → IsOrdered s
      → s.pending ≡ []
      → Ended s (with_tx env body s)
  unfolding with_tx begin statement opened
  with_tx-Ended {A} body s runs o none_in = by_begin (fails_at (env.fault s.step))
    where
      q : Quiet s (arrive env s)
      q = arrive-Quiet env s

      r : Run d choose meta_of seat (opened s) (body (opened s))
      r = runs (opened s) (opened-IsOrdered s o) refl

      ending : Session → Result A × Session
      ending t = end_tx env (body t)

      by_begin :
          (b : Bool)
          → Ended {A = A} s (
              let (x, t) =
                unless_failed {0} b
                  (λ t. (ok tt, record t { pending = []; locked = []; started = env.clock t.step }))
                  (arrive env s) in
              elim x [ err e ↦ (err (wrap "begin" e), t) | ok u ↦ ending t ])
      by_begin true = record {
        ordered = q.ordered o;
        none_pending = arrive-pending env s ∙ none_in;
        effect = inl (_, refl, q.log);
      }
      by_begin false =
          end_tx-Ended s (body (opened s))
            (record { log = r.log ∙ q.log; ordered = r.ordered; decided = r.decided })
