-- ===== src/Outbox/Poller/Emptied.antt =====
-- internal/platform/outbox/poller.go: where nothing fails, `drainAll` leaves no row that is not published.
use sagaflow.Base.{
  ℕ, zero, suc, ◌<◌, ◌≡◌, refl, sym, subst, Bool, true, false, none, List, [], length, ltb, any,
  arith, ltb→lt,
}
use sagaflow.Errors.{Result, ok, err, ok-injective}
use sagaflow.Database.{OutboxRow}
use sagaflow.Session.{Session, Environment, works}
use sagaflow.Outbox.{HeaderJson}
use sagaflow.Outbox.Poller.{claimable, batch_size, drain, drain_all}
use sagaflow.Outbox.Poller.Pending.{
  writes_outbox, pending_count, row_ids, publish_rows-fewer, claimable-hits,
}
use sagaflow.Outbox.Poller.Short.{publish_rows-All, claimable-All}
use sagaflow.Outbox.Poller.Readable.{Readable, publish_rows-Readable}
use sagaflow.Outbox.Poller.Round.{Delivered, drain-Delivered}

module _ (hj : HeaderJson) where
  module _ (env : Environment) (quiet : (k : ℕ) → any writes_outbox (env.others k) ≡ false)
      (answered : (k : ℕ) → env.fault k ≡ works) (acknowledged : (k : ℕ) → env.broker k ≡ none)
      (unlocked : (k : ℕ) → env.locked_elsewhere k ≡ []) where
    -- While no other transaction writes to the outbox or holds rows of it, no statement fails, the broker
    -- acknowledges every batch and the headers of every pending row can be read, `drainAll` publishes
    -- everything: with fuel for one round more than there are pending rows, no row is pending after it.
    pub drain_all_empties :
        (fuel : ℕ) (s : Session)
        → Readable hj s.committed.outbox
        → pending_count s.committed.outbox < fuel
        → pending_count (drain_all hj env fuel s).1.committed.outbox ≡ 0
    unfolding drain_all
    drain_all_empties zero s readable h = let no : ⊥ = omega (arith, h) in elim no [ ]
    drain_all_empties (suc fuel) s readable h =
        by_round (drain hj env s).0 (drain hj env s).1
          (drain-Delivered hj env quiet answered acknowledged unlocked s readable)
          (drain_all_empties fuel)
      where
        rows : List OutboxRow
        rows = s.committed.outbox

        batch : List OutboxRow
        batch = claimable [] rows

        next : Bool → Session → Bool × Session
        next b t = elim b [ true ↦ (true, t) | false ↦ drain_all hj env fuel t ]

        after : Result ℕ → Session → Bool × Session
        after r t = elim r [ err e ↦ (true, t) | ok n ↦ next (ltb n batch_size) t ]

        by_size :
            (b : Bool) (n : ℕ) (t : Session)
            → ltb n batch_size ≡ b
            → Delivered hj env quiet answered acknowledged unlocked s.sent rows (ok n, t)
            → (Readable hj t.committed.outbox
                → pending_count t.committed.outbox < fuel
                → pending_count (drain_all hj env fuel t).1.committed.outbox ≡ 0)
            → pending_count (next b t).1.committed.outbox ≡ 0
        by_size true n t last d again =
            let all : n ≡ length batch = ok-injective d.reports in
            let few : n < batch_size = ltb→lt n batch_size last in
            rw d.marks (
              publish_rows-All (row_ids batch) d.now rows
                (claimable-All rows (omega (arith, all, few))))
        by_size false n t full d again =
            let all : n ≡ length batch = ok-injective d.reports in
            let some_row : 0 < n = ground (arith, full) in
            let fewer =
              publish_rows-fewer (row_ids batch) d.now rows
                (claimable-hits [] rows (omega (arith, all, some_row))) in
            again
              (subst (Readable hj) (sym d.marks)
                (publish_rows-Readable hj (row_ids batch) d.now rows readable))
              (rw d.marks (omega (arith, fewer, h)))

        by_round :
            (r : Result ℕ) (t : Session)
            → Delivered hj env quiet answered acknowledged unlocked s.sent rows (r, t)
            → ((u : Session)
                → Readable hj u.committed.outbox
                → pending_count u.committed.outbox < fuel
                → pending_count (drain_all hj env fuel u).1.committed.outbox ≡ 0)
            → pending_count (after r t).1.committed.outbox ≡ 0
        by_round (err e) t d again = let no = d.reports in cc
        by_round (ok n) t d again = by_size (ltb n batch_size) n t refl d (again t)
