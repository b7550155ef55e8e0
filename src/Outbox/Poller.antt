-- ===== src/Outbox/Poller.antt =====
-- internal/platform/outbox/poller.go: publishing committed rows.
pub mod Resting
pub mod Delivery
pub mod Draining
pub mod Election
pub mod Standing
pub mod Pending
pub mod Progress
pub mod Short
pub mod Round
pub mod Emptied
pub mod Queue
pub mod Readable
pub mod Ordered
use sagaflow.Base.{
  ℕ, zero, suc, ◌+◌, ◌*◌, String, ◌≡◌, Bool, true, false, ◌&&◌, not, Option, none, some, List, [],
  ◌∷◌, ◌++◌, map, keep, take, length, ltb, if◌then◌else◌, any, nat_eq,
}
use sagaflow.Errors.{Error, Result, ok, err, wrap, message}
use sagaflow.Contracts.{Time}
use sagaflow.Envelope.Headers.{HeaderMap}
use sagaflow.Envelope.{Message}
use sagaflow.Database.{OutboxRow, mark_published, prune_outbox, is_pending, has_id}
use sagaflow.Database.Order.{order_by}
use sagaflow.Session.{
  Session, Environment, Tx, pure, lift, ◌>>=◌, ◌>>◌, view, write, arrive, statement, autocommit,
  rollback, begin, commit, annotate, in_context,
}
use sagaflow.Outbox.{HeaderJson}

abbrev pub batch_size : ℕ
batch_size = 100

-- In nanoseconds.
abbrev pub retention : ℕ
retention = 7 * 24 * 3_600 * 1_000_000_000

pub record Claimed : Type 0 where
  pub id : ℕ
  pub message : Message

unfoldable pub ids : List Claimed → List ℕ
ids claimed = map (λ (c : Claimed). c.id) claimed

unfoldable pub messages : List Claimed → List Message
messages claimed = map (λ (c : Claimed). c.message) claimed

-- `claimSQL`, past the rows that are locked.
unfoldable pub claimable : List ℕ → List OutboxRow → List OutboxRow
claimable locked rows = take batch_size (
    order_by (λ (r : OutboxRow). r.id)
      (keep (λ (r : OutboxRow). is_pending r.published_at && not (has_id r.id locked)) rows))

-- A transaction that is not committed is rolled back when `Drain` returns.
abbrev pub undo_unless_ok : Result ℕ × Session → Result ℕ × Session
undo_unless_ok (ok n, s) = (ok n, s)
undo_unless_ok (err e, s) = (err e, rollback s)

module _ (hj : HeaderJson) where
  -- The loop of `claim` over the rows.
  unfoldable pub read_claimed : List OutboxRow → Result (List Claimed)
  read_claimed [] = ok []
  read_claimed (r ∷ rows) =
      let rest = read_claimed rows in
      elim (in_context "outbox: unmarshal headers" (hj.unmarshal r.headers_json)) [
        | err e ↦ err e
        | ok h ↦ elim rest [
          | err e ↦ err e
          | ok cs ↦ ok (
              record {
                id = r.id;
                message = record { topic = r.topic; key = r.key; payload = r.payload; headers = h };
              }
              ∷ cs)
        ]
      ]

  module _ (env : Environment) where
    open env use {locked_elsewhere, broker}

    abbrev pub select_claimable : Tx (List OutboxRow)
    select_claimable s =
        let rows = claimable (locked_elsewhere s.step) (view s).outbox in
        (ok rows, record s { locked = map (λ (r : OutboxRow). r.id) rows })

    unfoldable pub claim : Tx (List Claimed)
    claim = do
      rows ← annotate "outbox: claim" (statement env select_claimable)
      lift (read_claimed rows)

    -- `Publisher`, as kafka.Producer behaves: an error does not say how much was sent.
    unfoldable pub publish : List Message → Tx (Unit {0})
    publish msgs s =
        let s' = arrive env s in
        elim (broker s.step) [
          | none ↦ (ok tt, record s' { sent = s'.sent ++ msgs })
          | some n ↦ (err (message "produce failed"), record s' { sent = s'.sent ++ take n msgs })
        ]

    abbrev pub mark_rows : List ℕ → Tx (Unit {0})
    mark_rows published s = (ok tt, write (mark_published published s.started ∷ []) s)

    -- `Drain` after its claim.
    unfoldable pub publish_claimed : List Claimed → Tx ℕ
    publish_claimed [] s = (ok 0, rollback s)
    publish_claimed (c ∷ cs) s =
        (do
          annotate "outbox: publish" (publish (messages (c ∷ cs)))
          annotate "outbox: mark published" (statement env (mark_rows (ids (c ∷ cs))))
          annotate "outbox: commit mark" (commit env (length (c ∷ cs))))
          s

    unfoldable pub drain : Tx ℕ
    drain s =
        undo_unless_ok
          ((do annotate "outbox: begin" (begin env); claimed ← claim; publish_claimed claimed) s)

    -- `drainAll`, with fuel for its rounds: `false` says that the fuel ran out. The next round is taken
    -- if the last one filled its batch.
    unfoldable pub drain_all : ℕ → Session → Bool × Session
    drain_all zero s = (false, s)
    drain_all (suc fuel) s =
        let (r, s') = drain s in
        elim r [
          | err e ↦ (true, s')
          | ok n ↦ elim (ltb n batch_size) [ true ↦ (true, s') | false ↦ drain_all fuel s' ]
        ]

    -- The number of rows deleted is only logged, and left out.
    unfoldable pub prune : Time → Tx (Unit {0})
    prune age s =
        annotate "outbox: prune"
          (autocommit env (λ t. (ok tt, write (prune_outbox t.started age ∷ []) t))) s

    -- What ends the wait between two rounds of `Run`.
    abbrev pub after_prune : Session → Session
    after_prune s = (prune retention s).1

pub data Wake : Type 0 where
  stop woken polled prune_due : Wake

module _ (hj : HeaderJson) (env : Environment) where
  -- The loop of `Run`, over the wake-ups that happen.
  unfoldable pub lead : ℕ → List Wake → Session → Session
  lead fuel [] s = s
  lead fuel (w ∷ ws) s =
      let s' = (drain_all hj env fuel s).1 in
      elim w [
        | stop ↦ s'
        | woken ↦ lead fuel ws s'
        | polled ↦ lead fuel ws s'
        | prune_due ↦ lead fuel ws (after_prune hj env s')
      ]
