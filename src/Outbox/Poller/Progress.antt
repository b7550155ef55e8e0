-- ===== src/Outbox/Poller/Progress.antt =====
-- internal/platform/outbox/poller.go: `drainAll` comes to an end.
use sagaflow.Base.{
  ℕ, zero, suc, ◌<◌, ◌≡◌, refl, sym, ◌∙◌, ap, subst, Bool, true, false, Option, none, some, List,
  [], ◌∷◌, ◌++◌, take, length, ltb, any, arith,
}
use sagaflow.Errors.{Result, ok, err, message, ok-injective}
use sagaflow.Database.{OutboxRow, perform, perform_all, publish_rows, mark_published}
use sagaflow.Contracts.{Time}
use sagaflow.Session.{
  Session, Environment, Fault, works, fails, unanswered, Tx, continue, ◌>>=◌, ◌>>◌, lift, arrive,
  statement, begin, commit, finish, commit_now, annotate, view, in_context, unless_failed, fails_at,
}
use sagaflow.Outbox.{HeaderJson}
use sagaflow.Outbox.Poller.Delivery.{arrive-Calm}
use sagaflow.Outbox.Poller.{
  Claimed, ids, messages, claimable, batch_size, claim, publish, publish_claimed, drain,
  read_claimed, select_claimable, mark_rows, undo_unless_ok, drain_all,
}
use sagaflow.Outbox.Poller.Pending.{
  writes_outbox, pending_count, hits, row_ids, Reads, admit_all-outbox, publish_rows-fewer,
  claimable-hits, same_length, read_claimed-Reads,
}

module _ (hj : HeaderJson) (env : Environment)
    (quiet : (k : ℕ) → any writes_outbox (env.others k) ≡ false) where
  abbrev Stored : List OutboxRow → Session → Type 0
  Stored rows s = s.committed.outbox ≡ rows

  -- A batch that is full lowers the number of pending rows.
  Progress : List OutboxRow → Result ℕ × Session → Type 0
  Progress rows p =
      (n : ℕ) → p.0 ≡ ok n → 0 < n → pending_count p.1.committed.outbox < pending_count rows

  arrive-Stored : (rows : List OutboxRow) (s : Session) → Stored rows s → Stored rows (arrive env s)
  unfolding arrive
  arrive-Stored rows s h = admit_all-outbox s (env.others s.step) (quiet s.step) ∙ h

  commit-Progress :
      (rows : List OutboxRow) (claimed : List Claimed) (now : Time) (t : Session)
      → Stored rows t
      → t.pending ≡ mark_published (ids claimed) now ∷ []
      → (0 < length claimed → any (hits (ids claimed)) rows ≡ true)
      → Progress rows (annotate "outbox: commit mark" (commit env (length claimed)) t)
  unfolding commit annotate Progress perform perform_all
  commit-Progress rows claimed now t stored pending found = by_fault (env.fault t.step)
    where
      marked : (commit_now (arrive env t)).committed.outbox ≡ publish_rows (ids claimed) now rows
      marked =
          ap (λ ws. (perform_all (arrive env t).committed ws).outbox)
            ((arrive-Calm hj env t).pending ∙ pending)
          ∙ (ap (publish_rows (ids claimed) now) (arrive-Stored rows t stored))

      by_fault :
          (f : Fault)
          → Progress rows (
            in_context "outbox: commit mark" (finish f (length claimed) (arrive env t)).0,
            (finish f (length claimed) (arrive env t)).1,
          )
      by_fault works n e some_row =
          rw marked
            (publish_rows-fewer (ids claimed) now rows (found (rw (ok-injective e) some_row)))
      by_fault fails n e some_row = cc
      by_fault unanswered n e some_row = cc

  mark-Progress :
      (rows : List OutboxRow) (claimed : List Claimed) (t : Session)
      → Stored rows t
      → t.pending ≡ []
      → (0 < length claimed → any (hits (ids claimed)) rows ≡ true)
      → Progress rows (
          (annotate "outbox: mark published" (statement env (mark_rows hj env (ids claimed)))
              >> annotate "outbox: commit mark" (commit env (length claimed)))
            t)
  unfolding annotate statement Progress
  mark-Progress rows claimed t stored pending found = by_failure (fails_at (env.fault t.step))
    where
      u : Session
      u = arrive env t

      by_failure :
          (b : Bool)
          → Progress rows (
              let p = unless_failed {0} b (mark_rows hj env (ids claimed)) u in
              continue
                (in_context "outbox: mark published" p.0)
                (λ x. annotate "outbox: commit mark" (commit env (length claimed)))
                p.1)
      by_failure true = λ n e some_row. cc
      by_failure false =
          commit-Progress rows claimed u.started (mark_rows hj env (ids claimed) u).1
            (arrive-Stored rows t stored) (rw ((arrive-Calm hj env t).pending, pending) refl) found

  publish_claimed-Progress :
      (rows : List OutboxRow) (claimed : List Claimed) (t : Session)
      → Stored rows t
      → t.pending ≡ []
      → (0 < length claimed → any (hits (ids claimed)) rows ≡ true)
      → Progress rows (publish_claimed hj env claimed t)
  unfolding publish_claimed publish annotate Progress
  publish_claimed-Progress rows [] t stored pending found = λ n e some_row.
      let z = ok-injective e in let no : ⊥ = omega (arith, z, some_row) in elim no [ ]
  publish_claimed-Progress rows (x ∷ xs) t stored pending found = by_broker (env.broker t.step)
    where
      all : List Claimed
      all = x ∷ xs

      published : Option ℕ → Result (Unit {0}) × Session
      published none = (ok tt, record (arrive env t) { sent = (arrive env t).sent ++ messages all })
      published (some n) = (
        err (message "produce failed"),
        record (arrive env t) { sent = (arrive env t).sent ++ take n (messages all) },
      )

      by_broker :
          (o : Option ℕ)
          → Progress rows (
              continue
                (in_context "outbox: publish" (published o).0)
                (λ u.
                  annotate "outbox: mark published" (statement env (mark_rows hj env (ids all)))
                  >> annotate "outbox: commit mark" (commit env (length all)))
                (published o).1)
      by_broker none =
          mark-Progress rows all (published none).1 (arrive-Stored rows t stored)
            ((arrive-Calm hj env t).pending ∙ pending) found
      by_broker (some n) = λ m e some_row. cc

  -- `Drain` after its claim, which sees the committed outbox.
  claim-Progress :
      (rows : List OutboxRow) (t : Session)
      → Stored rows t
      → t.pending ≡ []
      → Progress rows ((claim hj env >>= publish_claimed hj env) t)
  unfolding claim annotate statement Progress perform_all
  claim-Progress rows t stored pending = by_failure (fails_at (env.fault t.step))
    where
      u : Session
      u = arrive env t

      selected : List OutboxRow
      selected = claimable (env.locked_elsewhere u.step) (view u).outbox

      of_committed : selected ≡ claimable (env.locked_elsewhere u.step) rows
      of_committed =
          ap (λ ws. claimable (env.locked_elsewhere u.step) (perform_all u.committed ws).outbox)
            ((arrive-Calm hj env t).pending ∙ pending)
          ∙ ap (claimable (env.locked_elsewhere u.step)) (arrive-Stored rows t stored)

      found :
          (cs : List Claimed)
          → ids cs ≡ row_ids selected
          → 0 < length cs
          → any (hits (ids cs)) rows ≡ true
      found cs e some_row =
          let same : length cs ≡ length selected = same_length cs selected e in
          subst (λ l. any (hits l) rows ≡ true) (sym (e ∙ ap row_ids of_committed))
            (claimable-hits (env.locked_elsewhere u.step) rows
              (subst (λ l. 0 < length l) of_committed (omega (arith, same, some_row))))

      by_rows :
          (r : Result (List Claimed))
          → Reads selected r
          → Progress rows (continue r (publish_claimed hj env) (select_claimable hj env u).1)
      by_rows (ok cs) reads =
          publish_claimed-Progress rows cs (select_claimable hj env u).1
            (arrive-Stored rows t stored) ((arrive-Calm hj env t).pending ∙ pending)
            (found cs reads)
      by_rows (err e) reads = λ n k some_row. cc

      by_failure :
          (b : Bool)
          → Progress rows (
              let p = unless_failed {0} b (select_claimable hj env) u in
              let q =
                continue (in_context "outbox: claim" p.0) (λ rs. lift (read_claimed hj rs)) p.1 in
              continue q.0 (publish_claimed hj env) q.1)
      by_failure true = λ n e some_row. cc
      by_failure false = by_rows (read_claimed hj selected) (read_claimed-Reads hj selected)

  undo-Progress :
      (rows : List OutboxRow) (p : Result ℕ × Session)
      → Progress rows p
      → Progress rows (undo_unless_ok p)
  unfolding Progress
  undo-Progress rows (ok n, t) h = h
  undo-Progress rows (err e, t) h = λ n k some_row. cc

  drain-Progress : (s : Session) → Progress s.committed.outbox (drain hj env s)
  unfolding drain begin annotate statement Progress
  drain-Progress s = undo-Progress s.committed.outbox _ (by_failure (fails_at (env.fault s.step)))
    where
      cleared : Tx (Unit {0})
      cleared t = (ok tt, record t { pending = []; locked = []; started = env.clock t.step })

      by_failure :
          (b : Bool)
          → Progress s.committed.outbox (
              let p = unless_failed {0} b cleared (arrive env s) in
              continue
                (in_context "outbox: begin" p.0)
                (λ u. claim hj env >>= publish_claimed hj env)
                p.1)
      by_failure true = λ n k some_row. cc
      by_failure false =
          claim-Progress s.committed.outbox (cleared (arrive env s)).1
            (arrive-Stored s.committed.outbox s refl) refl

  -- While no other transaction writes to the outbox, `drainAll` comes to an end, whatever fails: fuel for
  -- one round more than there are pending rows is enough.
  pub drain_all_ends :
      (fuel : ℕ) (s : Session)
      → pending_count s.committed.outbox < fuel
      → (drain_all hj env fuel s).0 ≡ true
  unfolding drain_all Progress
  drain_all_ends zero s h = let no : ⊥ = omega (arith, h) in elim no [ ]
  drain_all_ends (suc fuel) s h =
      by_round (drain hj env s).0 (drain hj env s).1 (drain-Progress s) (drain_all_ends fuel)
    where
      next : Bool → Session → Bool × Session
      next b t = elim b [ true ↦ (true, t) | false ↦ drain_all hj env fuel t ]

      after : Result ℕ → Session → Bool × Session
      after r t = elim r [ err e ↦ (true, t) | ok n ↦ next (ltb n batch_size) t ]

      by_size :
          (b : Bool) (t : Session)
          → (pending_count t.committed.outbox < fuel → (drain_all hj env fuel t).0 ≡ true)
          → (b ≡ false → pending_count t.committed.outbox < fuel)
          → (next b t).0 ≡ true
      by_size true t again smaller = refl
      by_size false t again smaller = again (smaller refl)

      by_round :
          (r : Result ℕ) (t : Session)
          → Progress s.committed.outbox (r, t)
          → ((u : Session)
              → pending_count u.committed.outbox < fuel
              → (drain_all hj env fuel u).0 ≡ true)
          → (after r t).0 ≡ true
      by_round (err e) t p again = refl
      by_round (ok n) t p again = by_size (ltb n batch_size) t (again t) (λ full.
          let some_row : 0 < n = ground (arith, full) in
          let fewer = p n refl some_row in omega (arith, fewer, h))
