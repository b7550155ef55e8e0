-- ===== src/Outbox/Poller/Ordered.antt =====
-- internal/platform/outbox/poller.go: where nothing fails, `drainAll` publishes in the order of the ids.
use sagaflow.Base.{
  ℕ, zero, suc, ◌<◌, ◌≡◌, refl, sym, ◌∙◌, ap, subst, Bool, true, false, none, List, [], ◌++◌,
  length, map, ltb, any, arith, ltb→lt, take,
}
use mathlib.Core.List.{append_assoc, map-append}
use sagaflow.Errors.{Result, ok, err, ok-injective}
use sagaflow.Database.{OutboxRow, publish_rows}
use sagaflow.Database.Order.Sorted.{Distinct, take-drop}
use sagaflow.Envelope.{Message}
use sagaflow.Session.{Session, Environment, works}
use sagaflow.Outbox.{HeaderJson}
use sagaflow.Outbox.Poller.{claimable, batch_size, drain, drain_all}
use sagaflow.Outbox.Poller.Pending.{
  writes_outbox, pending_count, row_ids, publish_rows-fewer, claimable-hits,
}
use sagaflow.Outbox.Poller.Queue.{
  Carries, row_content, message_content, row_id, waiting, queue, Distinct-publish_rows,
  claimable-queue, queue-publish_rows,
}
use sagaflow.Outbox.Poller.Short.{take-short}
use sagaflow.Outbox.Poller.Readable.{Readable, publish_rows-Readable}
use sagaflow.Outbox.Poller.Round.{Delivered, drain-Delivered}

module _ (hj : HeaderJson) (env : Environment)
    (quiet : (k : ℕ) → any writes_outbox (env.others k) ≡ false)
    (answered : (k : ℕ) → env.fault k ≡ works) (acknowledged : (k : ℕ) → env.broker k ≡ none)
    (unlocked : (k : ℕ) → env.locked_elsewhere k ≡ []) where
  -- From `s` to `t`, messages were sent that say what these rows say, in this order.
  abbrev pub Sent : List OutboxRow → Session → Session → Type 0
  Sent rows s t = (new : List Message) × (t.sent ≡ s.sent ++ new) × Carries hj rows new

  Sent-trans :
      (first rest : List OutboxRow) (s t u : Session)
      → Sent first s t
      → Sent rest t u
      → Sent (first ++ rest) s u
  Sent-trans first rest s t u (m, a, c) (n, b, d) = (
    m ++ n,
    b ∙ ap (λ l. l ++ n) a ∙ append_assoc s.sent m n,
    map-append message_content m n ∙ rw (c, d) (sym (map-append (row_content hj) first rest)),
  )

  -- While no other transaction writes to the outbox or holds rows of it, no statement fails, the broker
  -- acknowledges every batch, the headers of every pending row can be read and no two pending rows have the same
  -- id, `drainAll` sends the topics, keys, payloads and headers of all rows that are pending, each once
  -- and in the order of their ids, with fuel for one round more than there are pending rows.
  pub drain_all_in_order :
      (fuel : ℕ) (s : Session)
      → Readable hj s.committed.outbox
      → Distinct row_id (waiting s.committed.outbox)
      → pending_count s.committed.outbox < fuel
      → (new : List Message) × ((drain_all hj env fuel s).1.sent ≡ s.sent ++ new)
        × Carries hj (queue s.committed.outbox) new
  unfolding drain_all
  drain_all_in_order zero s readable d h = let no : ⊥ = omega (arith, h) in elim no [ ]
  drain_all_in_order (suc fuel) s readable d h =
      by_round (drain hj env s).0 (drain hj env s).1
        (drain-Delivered hj env quiet answered acknowledged unlocked s readable)
        (drain_all_in_order fuel)
    where
      rows : List OutboxRow
      rows = s.committed.outbox

      batch : List OutboxRow
      batch = claimable [] rows

      -- What this drain does.
      Round : Result ℕ → Session → Type 0
      Round r t = Delivered hj env quiet answered acknowledged unlocked s.sent rows (r, t)

      next : Bool → Session → Bool × Session
      next b t = elim b [ true ↦ (true, t) | false ↦ drain_all hj env fuel t ]

      after : Result ℕ → Session → Bool × Session
      after r t = elim r [ err e ↦ (true, t) | ok n ↦ next (ltb n batch_size) t ]

      -- The batch and what waits after it are what waited before.
      both :
          {n : ℕ} (t : Session) (r : Round (ok n) t)
          → batch ++ queue t.committed.outbox ≡ queue rows
      both t r =
          ap (λ l. batch ++ queue l) r.marks
          ∙ ap (λ l. l ++ queue (publish_rows (row_ids l) r.now rows)) (claimable-queue rows)
          ∙ ap (λ l. take batch_size (queue rows) ++ l) (queue-publish_rows batch_size r.now rows d)
          ∙ take-drop batch_size (queue rows)

      by_size :
          (b : Bool) (n : ℕ) (t : Session)
          → ltb n batch_size ≡ b
          → Round (ok n) t
          → (Readable hj t.committed.outbox
              → Distinct row_id (waiting t.committed.outbox)
              → pending_count t.committed.outbox < fuel
              → Sent (queue t.committed.outbox) t (drain_all hj env fuel t).1)
          → Sent (queue rows) s (next b t).1
      by_size true n t last r again =
          let same : n ≡ length batch = ok-injective r.reports in
          let few : n < batch_size = ltb→lt n batch_size last in
          let short : length batch < batch_size = omega (arith, same, few) in
          let all : batch ≡ queue rows =
            claimable-queue rows
            ∙ take-short batch_size (queue rows)
                (subst (λ l. length l < batch_size) (claimable-queue rows) short) in
          (r.new, r.sent, r.carries ∙ ap (map (row_content hj)) all)
      by_size false n t full r again =
          let same : n ≡ length batch = ok-injective r.reports in
          let some_row : 0 < n = ground (arith, full) in
          let fewer =
            publish_rows-fewer (row_ids batch) r.now rows
              (claimable-hits [] rows (omega (arith, same, some_row))) in
          let rest =
            again
              (subst (Readable hj) (sym r.marks)
                (publish_rows-Readable hj (row_ids batch) r.now rows readable))
              (subst (λ l. Distinct row_id (waiting l)) (sym r.marks)
                (Distinct-publish_rows (row_ids batch) r.now rows d))
              (rw r.marks (omega (arith, fewer, h))) in
          subst (λ l. Sent l s (drain_all hj env fuel t).1) (both t r)
            (Sent-trans batch (queue t.committed.outbox) s t (drain_all hj env fuel t).1
              (r.new, r.sent, r.carries) rest)

      by_round :
          (r : Result ℕ) (t : Session)
          → Round r t
          → ((u : Session)
              → Readable hj u.committed.outbox
              → Distinct row_id (waiting u.committed.outbox)
              → pending_count u.committed.outbox < fuel
              → Sent (queue u.committed.outbox) u (drain_all hj env fuel u).1)
          → Sent (queue rows) s (after r t).1
      by_round (err e) t r again = let no = r.reports in cc
      by_round (ok n) t r again = by_size (ltb n batch_size) n t refl r (again t)
