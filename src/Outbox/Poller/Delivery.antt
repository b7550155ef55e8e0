-- ===== src/Outbox/Poller/Delivery.antt =====
-- internal/platform/outbox/poller.go: `Drain` marks rows as published only behind the broker's
-- acknowledgement.
use sagaflow.Base.{
  ℕ, ◌≡◌, refl, ◌∙◌, ap, Bool, true, false, Option, none, some, List, [], ◌∷◌, ◌++◌, length, take,
  inl, inr, ◌⊎◌, Bool-cases,
}
use sagaflow.Errors.{Error, Result, ok, err, message}
use sagaflow.Contracts.{Time}
use sagaflow.Database.{OutboxRow, Write, mark_published}
use sagaflow.Session.{
  Session, Environment, Fault, works, fails, unanswered, Tx, continue, ◌>>◌, lift, admit, admit_all,
  admissible, arrive, statement, commit, finish, commit_now, annotate, in_context, unless_failed,
  fails_at,
}
use sagaflow.Outbox.{HeaderJson}
use sagaflow.Outbox.Poller.{
  Claimed, ids, messages, claim, publish, publish_claimed, read_claimed, select_claimable,
  mark_rows,
}

-- Nothing of this connection has been sent, written or committed.
pub record Calm (s t : Session) : Type 0 where
  pub log : t.log ≡ s.log
  pub sent : t.sent ≡ s.sent
  pub pending : t.pending ≡ s.pending

Calm-trans : {s t u : Session} → Calm s t → Calm t u → Calm s u
Calm-trans c c' = record {
  log = c'.log ∙ c.log;
  sent = c'.sent ∙ c.sent;
  pending = c'.pending ∙ c.pending;
}

Calm-refl : (s : Session) → Calm s s
Calm-refl s = record { log = refl; sent = refl; pending = refl }

admit_all-Calm : (s : Session) (ws : List Write) → Calm s (admit_all s ws)
unfolding admit_all
admit_all-Calm s [] = Calm-refl s
admit_all-Calm s (w ∷ ws) = Calm-trans one (admit_all-Calm (admit s w) ws)
  where
    one : Calm s (admit s w)
    one = elim (Bool-cases (admissible s w)) [
      | inl y ↦ rw y (record { log = refl; sent = refl; pending = refl })
      | inr n ↦ rw n (Calm-refl s)
    ]

pub by_result {ℓ} :
    {A B : Type ℓ} (P : Result B × Session → Type 0) (r : Result A) (f : A → Tx B) (u : Session)
    → ((a : A) → P (f a u))
    → ((e : Error) → P (err e, u))
    → P (continue r f u)
by_result P (ok a) f u good bad = good a
by_result P (err e) f u good bad = bad e

-- The number of rows that are reported as published.
abbrev pub reported : Result ℕ → ℕ
reported (ok n) = n
reported (err e) = 0

module _ (hj : HeaderJson) (env : Environment) where
  -- The commit of a batch: it marks the rows of the claimed messages, and all of these were sent.
  pub record Marked (claimed : List Claimed) (s : Session) (p : Result ℕ × Session) : Type 0 where
    pub now : Time
    pub log : p.1.log ≡ s.log ++ (mark_published (ids claimed) now ∷ []) ∷ []
    pub sent : p.1.sent ≡ s.sent ++ messages claimed
    pub reports : (n : ℕ) → p.0 ≡ ok n → n ≡ length claimed

  abbrev pub Drained : List Claimed → Session → Result ℕ × Session → Type 0
  Drained claimed s p = ((p.1.log ≡ s.log) × (reported p.0 ≡ 0)) ⊎ Marked claimed s p

  pub arrive-Calm : (s : Session) → Calm s (arrive env s)
  unfolding arrive
  arrive-Calm s =
      let c = admit_all-Calm s (env.others s.step) in
      record { log = c.log; sent = c.sent; pending = c.pending }

  -- A statement that only reads.
  statement-Calm :
      (body : Tx (List OutboxRow))
      → ((u : Session) → Calm u (body u).1)
      → (s : Session) → Calm s (statement env body s).1
  unfolding statement
  statement-Calm body calm s = by_failure (fails_at (env.fault s.step))
    where
      by_failure : (b : Bool) → Calm s (unless_failed b body (arrive env s)).1
      by_failure true = arrive-Calm s
      by_failure false = Calm-trans (arrive-Calm s) (calm (arrive env s))

  commit-Drained :
      (claimed : List Claimed) (now : Time) (s t : Session)
      → t.log ≡ s.log
      → t.sent ≡ s.sent ++ messages claimed
      → t.pending ≡ mark_published (ids claimed) now ∷ []
      → Drained claimed s (annotate "outbox: commit mark" (commit env (length claimed)) t)
  unfolding commit annotate
  commit-Drained claimed now s t log sent pending = by_fault (env.fault t.step)
    where
      c : Calm t (arrive env t)
      c = arrive-Calm t

      logged :
          (commit_now (arrive env t)).log ≡ s.log ++ (mark_published (ids claimed) now ∷ []) ∷ []
      logged = rw (c.log, c.pending, log, pending) refl

      by_fault :
          (f : Fault)
          → Drained claimed s (
            in_context "outbox: commit mark" (finish f (length claimed) (arrive env t)).0,
            (finish f (length claimed) (arrive env t)).1,
          )
      by_fault works =
          inr (record { now = now; log = logged; sent = c.sent ∙ sent; reports = λ n h. cc })
      by_fault fails = inl (c.log ∙ log, refl)
      by_fault unanswered =
          inr (record { now = now; log = logged; sent = c.sent ∙ sent; reports = λ n h. cc })

  mark-Drained :
      (claimed : List Claimed) (s t : Session)
      → t.log ≡ s.log
      → t.sent ≡ s.sent ++ messages claimed
      → t.pending ≡ []
      → Drained claimed s (
          (annotate "outbox: mark published" (statement env (mark_rows hj env (ids claimed)))
              >> annotate "outbox: commit mark" (commit env (length claimed)))
            t)
  unfolding annotate statement
  mark-Drained claimed s t log sent pending = by_failure (fails_at (env.fault t.step))
    where
      u : Session
      u = arrive env t

      c : Calm t u
      c = arrive-Calm t

      by_failure :
          (b : Bool)
          → Drained claimed s (
              let p = unless_failed {0} b (mark_rows hj env (ids claimed)) u in
              continue
                (in_context "outbox: mark published" p.0)
                (λ x. annotate "outbox: commit mark" (commit env (length claimed)))
                p.1)
      by_failure true = inl (c.log ∙ log, refl)
      by_failure false =
          commit-Drained claimed u.started s (mark_rows hj env (ids claimed) u).1 (c.log ∙ log)
            (c.sent ∙ sent) (rw (c.pending, pending) refl)

  pub publish_claimed-Drained :
      (claimed : List Claimed) (s : Session)
      → s.pending ≡ []
      → Drained claimed s (publish_claimed hj env claimed s)
  unfolding publish_claimed publish annotate
  publish_claimed-Drained [] s none_in = inl (refl, refl)
  publish_claimed-Drained (x ∷ xs) s none_in = by_broker (env.broker s.step)
    where
      c : Calm s (arrive env s)
      c = arrive-Calm s

      all : List Claimed
      all = x ∷ xs

      published : Option ℕ → Result (Unit {0}) × Session
      published none = (ok tt, record (arrive env s) { sent = (arrive env s).sent ++ messages all })
      published (some n) = (
        err (message "produce failed"),
        record (arrive env s) { sent = (arrive env s).sent ++ take n (messages all) },
      )

      by_broker :
          (o : Option ℕ)
          → Drained all s (
              continue
                (in_context "outbox: publish" (published o).0)
                (λ u.
                  annotate "outbox: mark published" (statement env (mark_rows hj env (ids all)))
                  >> annotate "outbox: commit mark" (commit env (length all)))
                (published o).1)
      by_broker none =
          mark-Drained all s (record (arrive env s) { sent = (arrive env s).sent ++ messages all })
            c.log (ap (λ l. l ++ messages all) c.sent) (c.pending ∙ none_in)
      by_broker (some n) = inl (c.log, refl)

  pub Drained-Calm :
      (claimed : List Claimed) (s t : Session) (p : Result ℕ × Session)
      → t.log ≡ s.log
      → t.sent ≡ s.sent
      → Drained claimed t p
      → Drained claimed s p
  Drained-Calm claimed s t p log sent (inl (same, r)) = inl (same ∙ log, r)
  Drained-Calm claimed s t p log sent (inr m) = inr (record {
    now = m.now;
    log = m.log ∙ ap (λ l. l ++ (mark_published (ids claimed) m.now ∷ []) ∷ []) log;
    sent = m.sent ∙ ap (λ l. l ++ messages claimed) sent;
    reports = m.reports;
  })

  pub claim-Calm : (s : Session) → Calm s (claim hj env s).1
  unfolding claim annotate
  claim-Calm s =
      let c =
        statement-Calm (select_claimable hj env)
          (λ u. record { log = refl; sent = refl; pending = refl }) s in
      by_result (λ p. Calm s p.1)
        (in_context "outbox: claim" (statement env (select_claimable hj env) s).0)
        (λ rows. lift (read_claimed hj rows)) _ (λ rows. c) (λ e. c)
