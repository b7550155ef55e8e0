-- ===== src/EventStore.antt =====
-- internal/platform/eventstore: append and load with optimistic concurrency.
pub mod Rows
pub mod Streams
pub mod Appends
use sagaflow.Base.{
  ℕ, zero, suc, ◌+◌, String, ◌≡◌, Bool, true, false, ◌||◌, List, [], ◌∷◌, ◌++◌, ◌==◌, if◌then◌else◌,
  map, any, length,
}
use sagaflow.Errors.{Error, Result, ok, err, wrap, sentinel, version_conflict, errors_is}
use sagaflow.Database.{EventRow, Write, insert_event, stream_of, has_version}
use sagaflow.Database.Order.{order_by}
use sagaflow.Session.{
  Session, Environment, Tx, pure, lift, ◌>>=◌, ◌>>◌, view, write, statement, in_context,
}
use sagaflow.Codec.{Event, Json}
use Rows.{Recorded, Columns, columns, rows_from, read_rows}

abbrev pub any_taken : String → List EventRow → List EventRow → Bool
any_taken id stored rows = any (λ (r : EventRow). has_version id r.version stored) rows

-- A unique violation is translated, any other error is wrapped.
unfoldable pub translate : Result (Unit {0}) → Result (Unit {0})
translate (ok u) = ok u
translate (err e) =
    if errors_is e version_conflict then err e else err (wrap "eventstore: append" e)

-- `SELECT DISTINCT stream_id FROM events`, in the order of the streams' first rows: what `Streams`
-- returns is in the order of the names.
unfoldable pub distinct_streams : List EventRow → List String
distinct_streams [] = []
distinct_streams (r ∷ rows) =
    let rest = distinct_streams rows in
    if any (λ id. id == r.stream_id) rest then rest else r.stream_id ∷ rest

abbrev pub translated : Result (Unit {0}) × Session → Result (Unit {0}) × Session
translated (r, s) = (translate r, s)

module _ (json : Json) where
  -- `appendSQL`: one row with a (stream, version) that is taken fails the whole statement.
  unfoldable pub insert_rows : String → ℕ → List Columns → Tx (Unit {0})
  insert_rows id version cs s =
      let rows = rows_from json id version s.serial s.started cs in
      let s' = record s { serial = s.serial + length cs } in
      if any_taken id (view s).events rows
      then (err (sentinel version_conflict), s')
      else (ok tt, write (map insert_event rows) s')

  module _ (env : Environment) where
    unfoldable pub append : String → ℕ → List Event → Tx (Unit {0})
    append id expected [] s = pure tt s
    append id expected (e ∷ evts) s =
        (do
          cs ← lift (columns json (e ∷ evts))
          λ t. translated (statement env (insert_rows id expected cs) t))
          s

    -- `loadSQL`
    abbrev pub select_stream : String → Tx (List EventRow)
    select_stream id s =
        (ok (order_by (λ (r : EventRow). r.version) (stream_of id (view s).events)), s)

    unfoldable pub load : String → Tx (List Recorded)
    load id = do
      rows ← (λ s. statement env (select_stream id) s)
      lift (in_context "eventstore: load" (read_rows json rows))
