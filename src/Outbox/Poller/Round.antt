-- ===== src/Outbox/Poller/Round.antt =====
-- internal/platform/outbox/poller.go: one drain where nothing fails.
use sagaflow.Base.{
  ℕ, ◌≡◌, refl, sym, ◌∙◌, ap, subst, All, false, none, List, [], ◌∷◌, ◌++◌, length, map, any, inl,
  inr,
}
use sagaflow.Errors.{Result, ok, err, Result-cases}
use sagaflow.Database.{OutboxRow, perform, perform_all, publish_rows, mark_published}
use sagaflow.Contracts.{Time}
use sagaflow.Envelope.{Message}
use sagaflow.Session.{
  Session, Environment, works, Tx, continue, ◌>>=◌, ◌>>◌, arrive, statement, begin, commit,
  annotate, view,
}
use sagaflow.Outbox.{HeaderJson}
use sagaflow.Outbox.Poller.Delivery.{arrive-Calm}
use sagaflow.Outbox.Poller.{
  Claimed, ids, messages, claimable, claim, publish, publish_claimed, drain, read_claimed,
  select_claimable, mark_rows, undo_unless_ok,
}
use sagaflow.Outbox.Poller.Pending.{
  writes_outbox, row_ids, Reads, same_length, read_claimed-Reads, admit_all-outbox,
}
use sagaflow.Outbox.Poller.Short.{publish_rows-none}
use mathlib.Core.List.{append-nil}
use sagaflow.Outbox.Poller.Readable.{CanRead, Readable, claimable-CanRead}
use sagaflow.Outbox.Poller.Queue.{Carries, row_content, read_claimed-Carries}

abbrev Succeeds : Result (List Claimed) → Type 0
Succeeds (ok cs) = Unit {0}
Succeeds (err e) = ⊥

module _ (hj : HeaderJson) where
  read_claimed-Succeeds :
      (rows : List OutboxRow) → All (CanRead hj) rows → Succeeds (read_claimed hj rows)
  unfolding read_claimed
  read_claimed-Succeeds [] readable = tt
  read_claimed-Succeeds (r ∷ rows) readable =
      let (h, e) = readable.0 in
      elim (Result-cases (read_claimed hj rows)) [
        | inl (cs, k) ↦ rw (e, k, read_claimed) tt
        | inr (x, k) ↦ let no : ⊥ = rw k at (read_claimed-Succeeds rows readable.1) in elim no [ ]
      ]

  module _ (env : Environment) (quiet : (k : ℕ) → any writes_outbox (env.others k) ≡ false)
      (answered : (k : ℕ) → env.fault k ≡ works) (acknowledged : (k : ℕ) → env.broker k ≡ none)
      (unlocked : (k : ℕ) → env.locked_elsewhere k ≡ []) where
    -- A drain that marks all that can be claimed of these rows.
    -- `before` was sent before it.
    pub record Delivered (before : List Message) (rows : List OutboxRow) (p : Result ℕ × Session)
        : Type 0 where
      pub reports : p.0 ≡ ok (length (claimable [] rows))
      pub now : Time
      pub marks : p.1.committed.outbox ≡ publish_rows (row_ids (claimable [] rows)) now rows
      pub new : List Message
      pub sent : p.1.sent ≡ before ++ new
      pub carries : Carries hj (claimable [] rows) new

    arrive-outbox : (s : Session) → (arrive env s).committed.outbox ≡ s.committed.outbox
    unfolding arrive
    arrive-outbox s = admit_all-outbox s (env.others s.step) (quiet s.step)

    commit-Delivered :
        (before : List Message) (rows : List OutboxRow) (claimed : List Claimed) (n : ℕ)
        (now : Time) (t : Session)
        → t.committed.outbox ≡ rows
        → t.pending ≡ mark_published (row_ids (claimable [] rows)) now ∷ []
        → n ≡ length (claimable [] rows)
        → t.sent ≡ before ++ messages claimed
        → Carries hj (claimable [] rows) (messages claimed)
        → Delivered before rows (annotate "outbox: commit mark" (commit env n) t)
    unfolding commit annotate perform perform_all
    commit-Delivered before rows claimed n now t stored pending same sent carries =
        rw (answered t.step) (record {
          reports = ap ok same;
          now = now;
          marks =
              ap (λ ws. (perform_all (arrive env t).committed ws).outbox)
                ((arrive-Calm hj env t).pending ∙ pending)
              ∙ ap (publish_rows (row_ids (claimable [] rows)) now) (arrive-outbox t ∙ stored);
          new = messages claimed;
          sent = (arrive-Calm hj env t).sent ∙ sent;
          carries = carries;
        })

    statement-works :
        {A : Type 0} (body : Tx A) (s : Session) → statement env body s ≡ body (arrive env s)
    unfolding statement
    statement-works body s = rw (answered s.step) refl

    publish-acknowledged :
        (msgs : List Message) (s : Session)
        → publish hj env msgs s
          ≡ (ok tt, record (arrive env s) { sent = (arrive env s).sent ++ msgs })
    unfolding publish
    publish-acknowledged msgs s = rw (acknowledged s.step, publish) refl

    mark-Delivered :
        (before : List Message) (rows : List OutboxRow) (claimed : List Claimed) (t : Session)
        → t.committed.outbox ≡ rows
        → t.pending ≡ []
        → ids claimed ≡ row_ids (claimable [] rows)
        → t.sent ≡ before ++ messages claimed
        → Carries hj (claimable [] rows) (messages claimed)
        → Delivered before rows (
            (annotate "outbox: mark published" (statement env (mark_rows hj env (ids claimed)))
                >> annotate "outbox: commit mark" (commit env (length claimed)))
              t)
    unfolding annotate
    mark-Delivered before rows claimed t stored pending same sent carries =
        rw (statement-works (mark_rows hj env (ids claimed)) t) (
          commit-Delivered before rows claimed (length claimed) (arrive env t).started
            (mark_rows hj env (ids claimed) (arrive env t)).1 (arrive-outbox t ∙ stored)
            (ap (λ ws. ws ++ mark_published (ids claimed) (arrive env t).started ∷ [])
                ((arrive-Calm hj env t).pending ∙ pending)
              ∙ ap (λ l. mark_published l (arrive env t).started ∷ []) same)
            (same_length claimed (claimable [] rows) same) ((arrive-Calm hj env t).sent ∙ sent)
            carries)

    publish_claimed-Delivered :
        (before : List Message) (rows : List OutboxRow) (claimed : List Claimed) (t : Session)
        → t.committed.outbox ≡ rows
        → t.pending ≡ []
        → ids claimed ≡ row_ids (claimable [] rows)
        → t.sent ≡ before
        → Carries hj (claimable [] rows) (messages claimed)
        → Delivered before rows (publish_claimed hj env claimed t)
    unfolding publish_claimed annotate ids messages
    publish_claimed-Delivered before rows [] t stored pending same sent carries = record {
      reports = ap ok (same_length [] (claimable [] rows) same);
      now = 0;
      marks = stored ∙ sym (ap (λ l. publish_rows l 0 rows) (sym same) ∙ publish_rows-none 0 rows);
      new = [];
      sent = sent ∙ sym (append-nil before);
      carries = carries;
    }
    publish_claimed-Delivered before rows (c ∷ cs) t stored pending same sent carries =
        rw (publish-acknowledged (messages (c ∷ cs)) t) (
          mark-Delivered before rows (c ∷ cs)
            (record (arrive env t) { sent = (arrive env t).sent ++ messages (c ∷ cs) })
            (arrive-outbox t ∙ stored) ((arrive-Calm hj env t).pending ∙ pending) same
            (ap (λ l. l ++ messages (c ∷ cs)) ((arrive-Calm hj env t).sent ∙ sent)) carries)

    claim-Delivered :
        (before : List Message) (rows : List OutboxRow) (t : Session)
        → t.committed.outbox ≡ rows
        → t.pending ≡ []
        → t.sent ≡ before
        → Readable hj rows
        → Delivered before rows ((claim hj env >>= publish_claimed hj env) t)
    unfolding claim annotate perform_all
    claim-Delivered before rows t stored pending sent readable =
        rw (statement-works (select_claimable hj env) t) (
          by_rows (read_claimed hj selected)
            (read_claimed-Succeeds selected
              (subst (All (CanRead hj)) (sym all_free) (claimable-CanRead hj rows readable)))
            (read_claimed-Reads hj selected) (read_claimed-Carries hj selected))
      where
        u : Session
        u = arrive env t

        selected : List OutboxRow
        selected = claimable (env.locked_elsewhere u.step) (view u).outbox

        all_free : selected ≡ claimable [] rows
        all_free =
            ap (λ ws. claimable (env.locked_elsewhere u.step) (perform_all u.committed ws).outbox)
              ((arrive-Calm hj env t).pending ∙ pending)
            ∙ ap (claimable (env.locked_elsewhere u.step)) (arrive-outbox t ∙ stored)
            ∙ ap (λ l. claimable l rows) (unlocked u.step)

        by_rows :
            (r : Result (List Claimed))
            → Succeeds r
            → Reads selected r
            → ((cs : List Claimed) → r ≡ ok cs → Carries hj selected (messages cs))
            → Delivered before rows
                (continue r (publish_claimed hj env) (select_claimable hj env u).1)
        by_rows (ok cs) fine reads carries =
            publish_claimed-Delivered before rows cs (select_claimable hj env u).1
              (arrive-outbox t ∙ stored) ((arrive-Calm hj env t).pending ∙ pending)
              (reads ∙ ap row_ids all_free) ((arrive-Calm hj env t).sent ∙ sent)
              (carries cs refl ∙ ap (map (row_content hj)) all_free)
        by_rows (err e) fine reads carries = elim fine [ ]

    undo-Delivered :
        (before : List Message) (rows : List OutboxRow) (p : Result ℕ × Session)
        → Delivered before rows p
        → Delivered before rows (undo_unless_ok p)
    undo-Delivered before rows (ok n, t) d = d
    undo-Delivered before rows (err e, t) d = let no = d.reports in cc

    pub drain-Delivered :
        (s : Session)
        → Readable hj s.committed.outbox
        → Delivered s.sent s.committed.outbox (drain hj env s)
    unfolding drain begin annotate
    drain-Delivered s readable = undo-Delivered s.sent s.committed.outbox _ (
        rw (statement-works cleared s) (
          claim-Delivered s.sent s.committed.outbox (cleared (arrive env s)).1 (arrive-outbox s)
            refl (arrive-Calm hj env s).sent readable))
      where
        cleared : Tx (Unit {0})
        cleared t = (ok tt, record t { pending = []; locked = []; started = env.clock t.step })
