-- ===== src/Outbox.antt =====
-- internal/platform/outbox/outbox.go: messages written in the transaction that they announce.
pub mod Poller
use sagaflow.Base.{ℕ, suc, ◌+◌, String, ◌≡◌, Option, none, some, List, [], ◌∷◌, ◌++◌, map, length}
use sagaflow.Errors.{Error, Result, ok, err, wrap}
use sagaflow.Envelope.Headers.{HeaderMap}
use sagaflow.Envelope.{Message, validate}
use sagaflow.Database.{Bytes, OutboxRow, insert_outbox, notify}
use sagaflow.Session.{
  Session, Environment, Tx, pure, lift, ◌>>=◌, ◌>>◌, write, statement, annotate, in_context,
}

-- encoding/json and jsonb on a map of headers.
pub record HeaderJson : Type 0 where
  pub marshal : HeaderMap → Result Bytes
  pub unmarshal : Bytes → Result HeaderMap
  pub jsonb : Bytes → Bytes

module _ (hj : HeaderJson) where
  -- The row of a message, but for its id.
  abbrev pub row_of : Message → Bytes → ℕ → OutboxRow
  row_of m h id = record {
    id = id;
    topic = m.topic;
    key = m.key;
    payload = m.payload;
    headers_json = hj.jsonb h;
    published_at = none;
  }

  -- The loop of `Enqueue` over the messages; the rows take their ids in the order of the messages.
  unfoldable pub rows_from : ℕ → List Message → Result (List OutboxRow)
  rows_from id [] = ok []
  rows_from id (m ∷ msgs) =
      let rest = rows_from (suc id) msgs in
      elim (in_context "outbox: message" (validate m)) [
        | err e ↦ err e
        | ok u ↦ elim (in_context "outbox: marshal headers" (hj.marshal m.headers)) [
          | err e ↦ err e
          | ok h ↦ elim rest [ err e ↦ err e | ok rows ↦ ok (row_of m h id ∷ rows) ]
        ]
      ]

  module _ (env : Environment) where
    -- `enqueueSQL`
    unfoldable pub insert_messages : List OutboxRow → Tx (Unit {0})
    insert_messages rows s =
        (ok tt, write (map insert_outbox rows) (record s { serial = s.serial + length rows }))

    abbrev pub notify_outbox : Tx (Unit {0})
    notify_outbox s = (ok tt, write (notify ∷ []) s)

    unfoldable pub enqueue : List Message → Tx (Unit {0})
    enqueue [] s = pure tt s
    enqueue (m ∷ msgs) s =
        (do
          rows ← lift (rows_from s.serial (m ∷ msgs))
          annotate "outbox" (statement env (insert_messages rows))
          annotate "outbox" (statement env notify_outbox))
          s
