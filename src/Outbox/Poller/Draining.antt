-- ===== src/Outbox/Poller/Draining.antt =====
-- internal/platform/outbox/poller.go: which rows one drain publishes and marks.
use sagaflow.Base.{
  ℕ, ◌≡◌, refl, sym, ◌∙◌, ap, subst, Bool, true, false, List, [], ◌∷◌, ◌++◌, length, inl, inr, ◌⊎◌,
}
use sagaflow.Errors.{Result, ok, err, ok-injective}
use sagaflow.Contracts.{Time}
use sagaflow.Envelope.{Message}
use sagaflow.Database.{OutboxRow, mark_published, perform_all}
use sagaflow.Session.{
  Session, Environment, Tx, continue, ◌>>=◌, arrive, statement, begin, annotate, in_context,
  unless_failed, fails_at, lift,
}
use sagaflow.Session.Inversion.{tx-ok, lift-ok, statement-ok, annotate-ok, arrive-pending}
use sagaflow.Outbox.{HeaderJson}
use sagaflow.Outbox.Poller.{
  Claimed, ids, messages, claim, claimable, publish_claimed, drain, read_claimed, select_claimable,
  undo_unless_ok,
}
use sagaflow.Outbox.Poller.Delivery.{
  Calm, Drained, reported, arrive-Calm, claim-Calm, publish_claimed-Drained, Drained-Calm,
}
use sagaflow.Outbox.Poller.Pending.{row_ids, Reads, read_claimed-Reads, same_length}
use sagaflow.Outbox.Poller.Queue.{Carries, read_claimed-Carries}

module _ (hj : HeaderJson) (env : Environment) where
  abbrev opened : Session → Session
  opened s = record (arrive env s) {
    pending = [];
    locked = [];
    started = env.clock (arrive env s).step;
  }

  -- The session when the rows are claimed, with what others have committed by then.
  abbrev pub at_claim : Session → Session
  at_claim s = arrive env (opened s)

  abbrev pub claimed_rows : Session → List OutboxRow
  claimed_rows s = claimable (env.locked_elsewhere (at_claim s).step) (at_claim s).committed.outbox

  -- The commit of a drain.
  pub record Published (s : Session) (p : Result ℕ × Session) : Type 0 where
    pub now : Time
    pub log : p.1.log ≡ s.log ++ (mark_published (row_ids (claimed_rows s)) now ∷ []) ∷ []
    pub new : List Message
    pub sent : p.1.sent ≡ s.sent ++ new
    pub carries : Carries hj (claimed_rows s) new
    pub reports : (n : ℕ) → p.0 ≡ ok n → n ≡ length (claimed_rows s)

  abbrev Ending : Session → Result ℕ × Session → Type 0
  Ending s p = ((p.1.log ≡ s.log) × (reported p.0 ≡ 0)) ⊎ Published s p

  undo-Ending : (s : Session) (p : Result ℕ × Session) → Ending s p → Ending s (undo_unless_ok p)
  undo-Ending s (ok n, t) e = e
  undo-Ending s (err x, t) (inl (same, r)) = inl (same, r)
  undo-Ending s (err x, t) (inr m) = inr (record {
    now = m.now;
    log = m.log;
    new = m.new;
    sent = m.sent;
    carries = m.carries;
    reports = λ n h. cc;
  })

  -- What is claimed are the rows that can be claimed.
  claim-rows :
      (s t : Session) (claimed : List Claimed)
      → claim hj env (opened s) ≡ (ok claimed, t)
      → (ids claimed ≡ row_ids (claimed_rows s)) × Carries hj (claimed_rows s) (messages claimed)
  unfolding claim perform_all
  claim-rows s t claimed h =
      let (rows, u, h₁, k₁) =
        tx-ok (annotate "outbox: claim" (statement env (select_claimable hj env)))
          (λ rows. lift (read_claimed hj rows)) (opened s) t claimed h in
      let selects =
        (lift-ok (ok _) _ u rows (
          statement-ok env (select_claimable hj env) (opened s) u rows (
            annotate-ok "outbox: claim" (statement env (select_claimable hj env)) (opened s) u rows
              h₁))).0 in
      let seen : rows ≡ claimed_rows s =
        sym (ok-injective selects)
        ∙ ap
            (λ ws.
              claimable (env.locked_elsewhere (at_claim s).step)
                (perform_all (at_claim s).committed ws).outbox)
            (arrive-pending env (opened s)) in
      let reads = (lift-ok (read_claimed hj rows) u t claimed k₁).0 in
      (
        subst (Reads rows) reads (read_claimed-Reads hj rows) ∙ ap row_ids seen,
        subst (λ l. Carries hj l (messages claimed)) seen
            (read_claimed-Carries hj rows claimed reads),
      )

  of_claimed :
      (s : Session) (claimed : List Claimed) (p : Result ℕ × Session)
      → ids claimed ≡ row_ids (claimed_rows s)
      → Carries hj (claimed_rows s) (messages claimed)
      → Drained hj env claimed s p
      → Ending s p
  of_claimed s claimed p same carries (inl n) = inl n
  of_claimed s claimed p same carries (inr m) = inr (record {
    now = m.now;
    log = m.log ∙ ap (λ l. s.log ++ (mark_published l m.now ∷ []) ∷ []) same;
    new = messages claimed;
    sent = m.sent;
    carries = carries;
    reports = λ n h. m.reports n h ∙ same_length claimed (claimed_rows s) same;
  })

  -- A drain either commits nothing and reports no row; or it commits once, and that commit does nothing
  -- but mark as published the rows of the claim: the first 100 by their ids of those that are pending,
  -- and not locked by others, in what is committed when the claim is made. The broker has acknowledged
  -- one message for each of these rows before, in their order and with the row's topic, key, payload and
  -- headers, and no other message was sent; and a drain that then ends without an error reports how many
  -- these are.
  pub drain-Published :
      (s : Session)
      → let p = drain hj env s in ((p.1.log ≡ s.log) × (reported p.0 ≡ 0)) ⊎ Published s p
  unfolding drain begin annotate statement
  drain-Published s = undo-Ending s _ (by_failure (fails_at (env.fault s.step)))
    where
      c : Calm s (arrive env s)
      c = arrive-Calm hj env s

      k : Calm (opened s) (claim hj env (opened s)).1
      k = claim-Calm hj env (opened s)

      cleared : Tx (Unit {0})
      cleared t = (ok tt, record t { pending = []; locked = []; started = env.clock t.step })

      by_claim :
          (r : Result (List Claimed)) (t : Session)
          → claim hj env (opened s) ≡ (r, t)
          → Calm (opened s) t
          → Ending s (continue r (publish_claimed hj env) t)
      by_claim (err e) t h q = inl (q.log ∙ c.log, refl)
      by_claim (ok claimed) t h q =
          let (same, carries) = claim-rows s t claimed h in
          of_claimed s claimed (publish_claimed hj env claimed t) same carries (
            Drained-Calm hj env claimed s t (publish_claimed hj env claimed t) (q.log ∙ c.log)
              (q.sent ∙ c.sent) (publish_claimed-Drained hj env claimed t q.pending))

      by_failure :
          (b : Bool)
          → Ending s (
              let p = unless_failed {0} b cleared (arrive env s) in
              continue
                (in_context "outbox: begin" p.0)
                (λ x. claim hj env >>= publish_claimed hj env)
                p.1)
      by_failure true = inl (c.log, refl)
      by_failure false = by_claim (claim hj env (opened s)).0 (claim hj env (opened s)).1 refl k
