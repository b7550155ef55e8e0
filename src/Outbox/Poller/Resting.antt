-- ===== src/Outbox/Poller/Resting.antt =====
-- internal/platform/outbox/poller.go: the poller writes no event, and leaves nothing pending.
use sagaflow.Base.{
  ℕ, zero, suc, ◌≡◌, refl, Bool, true, false, Option, none, some, List, [], ◌∷◌, ◌++◌, ltb, length,
  take,
}
use sagaflow.Errors.{Result, ok, err, message}
use sagaflow.Contracts.{Time}
use sagaflow.Database.{mark_published}
use sagaflow.Envelope.{Message}
use sagaflow.Session.{
  Session, Environment, Tx, arrive, statement, begin, commit, rollback, annotate, continue,
  unless_failed, fails_at, in_context, ◌>>=◌,
}
use sagaflow.Session.Quiet.{
  IsOrdered, Quiet, Quiet-trans, Quiet-write, IsQuiet, arrive-Quiet, same_tables, bind-IsQuiet,
  lift-IsQuiet, annotate-IsQuiet, statement-IsQuiet,
}
use sagaflow.Session.Resting.{
  IsAtRest, IsAtRest-IsOrdered, rollback-IsAtRest, finish-IsAtRest, begun-IsOrdered,
  autocommit-IsAtRest,
}
use sagaflow.Outbox.{HeaderJson}
use sagaflow.Outbox.Poller.{
  Claimed, batch_size, ids, messages, select_claimable, read_claimed, claim, publish, mark_rows,
  publish_claimed, undo_unless_ok, drain, drain_all, prune, retention, Wake, stop, woken, polled,
  prune_due, lead,
}

module _ (hj : HeaderJson) (env : Environment) where
  claim-IsQuiet : IsQuiet (claim hj env)
  unfolding claim
  claim-IsQuiet =
      bind-IsQuiet _ _
        (annotate-IsQuiet "outbox: claim" (statement env (select_claimable hj env)) (
          statement-IsQuiet env (select_claimable hj env)
            (record { at = λ s. same_tables refl refl refl })))
        (λ rows. lift-IsQuiet (read_claimed hj rows))

  publish-IsQuiet : (msgs : List Message) → IsQuiet (publish hj env msgs)
  unfolding publish
  publish-IsQuiet msgs = record { at = λ s. by_broker (env.broker s.step) s }
    where
      by_broker :
          (b : Option ℕ) (s : Session)
          → let s' = arrive env s in
            Quiet s
              (elim b as (λ x. Result (Unit {0}) × Session) [
                | none ↦ (ok tt, record s' { sent = s'.sent ++ msgs })
                | some n ↦
                    (err (message "produce failed"), record s' { sent = s'.sent ++ take n msgs })
              ]).1
      by_broker none s = Quiet-trans (arrive-Quiet env s) (same_tables refl refl refl)
      by_broker (some n) s = Quiet-trans (arrive-Quiet env s) (same_tables refl refl refl)

  -- The end of a round: what succeeded is committed or rolled back already.
  abbrev Ending : Result ℕ × Session → Type 0
  Ending p = IsOrdered p.1 × ((n : ℕ) → p.0 ≡ ok n → IsAtRest p.1)

  at_rest-Ending : (r : Result ℕ) (t : Session) → IsAtRest t → Ending (r, t)
  at_rest-Ending r t rest = (IsAtRest-IsOrdered t rest, λ n h. rest)

  bind-Ending :
      {A : Type 0} (m : Tx A) (f : A → Tx ℕ) (s : Session)
      → IsQuiet m
      → ((a : A) (t : Session) → IsOrdered t → Ending (f a t))
      → IsOrdered s
      → Ending ((m >>= f) s)
  bind-Ending {A} m f s quiet more o = by_result (m s).0 (m s).1 ((quiet.at s).ordered o)
    where
      by_result : (r : Result A) (t : Session) → IsOrdered t → Ending (continue r f t)
      by_result (ok a) t ot = more a t ot
      by_result (err e) t ot = (ot, λ n h. cc)

  commit-Ending :
      (n : ℕ) (s : Session) → IsOrdered s → Ending (annotate "outbox: commit mark" (commit env n) s)
  unfolding commit annotate
  commit-Ending n s o =
      at_rest-Ending _ _
        (finish-IsAtRest (env.fault s.step) n (arrive env s) ((arrive-Quiet env s).ordered o))

  marking-IsQuiet : (published : List ℕ) → IsQuiet (statement env (mark_rows hj env published))
  marking-IsQuiet published =
      statement-IsQuiet env (mark_rows hj env published)
        (record { at = λ s. Quiet-write (mark_published published s.started ∷ []) s refl })

  publish_claimed-Ending :
      (claimed : List Claimed) (s : Session)
      → IsOrdered s
      → Ending (publish_claimed hj env claimed s)
  unfolding publish_claimed
  publish_claimed-Ending [] s o = at_rest-Ending (ok 0) (rollback s) (rollback-IsAtRest s o)
  publish_claimed-Ending (c ∷ cs) s o =
      bind-Ending (annotate "outbox: publish" (publish hj env (messages (c ∷ cs)))) _ s
        (annotate-IsQuiet "outbox: publish" _ (publish-IsQuiet (messages (c ∷ cs))))
        (λ u t ot.
          bind-Ending
            (annotate "outbox: mark published" (statement env (mark_rows hj env (ids (c ∷ cs))))) _
            t (annotate-IsQuiet "outbox: mark published" _ (marking-IsQuiet (ids (c ∷ cs))))
            (λ u v ov. commit-Ending (length (c ∷ cs)) v ov) ot)
        o

  undone : (p : Result ℕ × Session) → Ending p → IsAtRest (undo_unless_ok p).1
  undone (ok n, s) e = e.1 n refl
  undone (err x, s) e = rollback-IsAtRest s e.0

  drain-IsAtRest : (s : Session) → IsAtRest s → IsAtRest (drain hj env s).1
  unfolding drain begin statement annotate
  drain-IsAtRest s r = by_begin (fails_at (env.fault s.step))
    where
      here : IsOrdered (arrive env s)
      here = (arrive-Quiet env s).ordered (IsAtRest-IsOrdered s r)

      cleared : Session → Session
      cleared t = record t { pending = []; locked = []; started = env.clock t.step }

      claimed_then : Unit {0} → Tx ℕ
      claimed_then u = claim hj env >>= publish_claimed hj env

      by_begin :
          (b : Bool)
          → IsAtRest
              (undo_unless_ok (
                let (x, t) =
                  unless_failed {0} {A = Unit {0}} b (λ t. (ok tt, cleared t)) (arrive env s) in
                continue (in_context "outbox: begin" x) claimed_then t)).1
      by_begin true = rollback-IsAtRest (arrive env s) here
      by_begin false = undone ((claim hj env >>= publish_claimed hj env) (cleared (arrive env s))) (
          bind-Ending (claim hj env) (publish_claimed hj env) (cleared (arrive env s)) claim-IsQuiet
            publish_claimed-Ending
            (begun-IsOrdered (arrive env s) (cleared (arrive env s)) here refl refl))

  drain_all-IsAtRest : (fuel : ℕ) (s : Session) → IsAtRest s → IsAtRest (drain_all hj env fuel s).1
  unfolding drain_all
  drain_all-IsAtRest zero s r = r
  drain_all-IsAtRest (suc fuel) s r =
      by_result (drain hj env s).0 (drain hj env s).1 (drain-IsAtRest s r)
        (drain_all-IsAtRest fuel (drain hj env s).1)
    where
      by_full :
          (b : Bool) (t : Session)
          → IsAtRest t
          → (IsAtRest t → IsAtRest (drain_all hj env fuel t).1)
          → IsAtRest
              (elim b as (λ x. Bool × Session) [
                | true ↦ (true, t)
                | false ↦ drain_all hj env fuel t
              ]).1
      by_full true t i again = i
      by_full false t i again = again i

      by_result :
          (x : Result ℕ) (t : Session)
          → IsAtRest t
          → (IsAtRest t → IsAtRest (drain_all hj env fuel t).1)
          → IsAtRest
              (elim x as (λ x. Bool × Session) [
                | err e ↦ (true, t)
                | ok n ↦ elim (ltb n batch_size) [
                  | true ↦ (true, t)
                  | false ↦ drain_all hj env fuel t
                ]
              ]).1
      by_result (err e) t i again = i
      by_result (ok n) t i again = by_full (ltb n batch_size) t i again

  prune-IsAtRest : (age : Time) (s : Session) → IsAtRest s → IsAtRest (prune hj env age s).1
  unfolding prune annotate
  prune-IsAtRest age s r =
      autocommit-IsAtRest env _ (record { at = λ t. Quiet-write (_ ∷ []) t refl }) s r

  pub lead-IsAtRest :
      (fuel : ℕ) (wakes : List Wake) (s : Session)
      → IsAtRest s
      → IsAtRest (lead hj env fuel wakes s)
  unfolding lead
  lead-IsAtRest fuel [] s r = r
  lead-IsAtRest fuel (stop ∷ wakes) s r = drain_all-IsAtRest fuel s r
  lead-IsAtRest fuel (woken ∷ wakes) s r = lead-IsAtRest fuel wakes _ (drain_all-IsAtRest fuel s r)
  lead-IsAtRest fuel (polled ∷ wakes) s r = lead-IsAtRest fuel wakes _ (drain_all-IsAtRest fuel s r)
  lead-IsAtRest fuel (prune_due ∷ wakes) s r =
      lead-IsAtRest fuel wakes _ (prune-IsAtRest retention _ (drain_all-IsAtRest fuel s r))
