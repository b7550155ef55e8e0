-- ===== src/EventStore/Rows.antt =====
-- internal/platform/eventstore/eventstore.go: events as rows and back, outside the database.
use sagaflow.Base.{ℕ, suc, String, List, [], ◌∷◌, ◌==◌, if◌then◌else◌}
use sagaflow.Errors.{Result, ok, err, message, ◌>>=◌, ◌>>◌}
use sagaflow.Contracts.{Time}
use sagaflow.Database.{Bytes, EventRow}
use sagaflow.Session.{in_context}
use sagaflow.Codec.{Event, Json}

-- `validate`
unfoldable pub validate : Event → Result (Unit {0})
validate e =
    if e.type_name == ""
    then err (message "no type")
    else elim e.data_json [ [] ↦ err (message "no data") | b ∷ bs ↦ ok tt ]

pub record Recorded : Type 0 where
  pub event : Event
  pub stream_id : String
  pub version : ℕ
  pub global_seq : ℕ
  pub recorded_at : Time

-- What the statement takes of an event: the columns type, data and meta.
pub record Columns : Type 0 where
  pub type_name : String
  pub data_json : Bytes
  pub meta_json : Bytes

module _ (json : Json) where
  open json use {marshal_meta, unmarshal_meta, jsonb}

  -- The loop of `Append` over the events.
  unfoldable pub columns : List Event → Result (List Columns)
  unfolding validate
  columns [] = ok []
  columns (e ∷ evts) =
      let rest = columns evts in
      do
        in_context "eventstore: event" (validate e)
        m ← in_context "eventstore: marshal meta" (marshal_meta e.meta)
        cs ← rest
        ok (record { type_name = e.type_name; data_json = e.data_json; meta_json = m } ∷ cs)

  -- The row of `appendSQL` that is inserted behind `version`.
  abbrev pub row_at : String → ℕ → ℕ → Time → Columns → EventRow
  row_at id version seq now c = record {
    global_seq = seq;
    stream_id = id;
    version = suc version;
    type_name = c.type_name;
    data_json = jsonb c.data_json;
    meta_json = jsonb c.meta_json;
    recorded_at = now;
  }

  -- The rows of `appendSQL`, at the versions after `version`.
  unfoldable pub rows_from : String → ℕ → ℕ → Time → List Columns → List EventRow
  rows_from id version seq now [] = []
  rows_from id version seq now (c ∷ cs) =
      row_at id version seq now c ∷ rows_from id (suc version) (suc seq) now cs

  -- The body of the loop of `Load`.
  unfoldable pub read_row : EventRow → Result Recorded
  read_row r = do
    m ← in_context "eventstore: unmarshal meta" (unmarshal_meta r.meta_json)
    ok (record {
      event = record { type_name = r.type_name; data_json = r.data_json; meta = m };
      stream_id = r.stream_id;
      version = r.version;
      global_seq = r.global_seq;
      recorded_at = r.recorded_at;
    })

  unfoldable pub read_rows : List EventRow → Result (List Recorded)
  unfolding read_row
  read_rows [] = ok []
  read_rows (r ∷ rows) = let rest = read_rows rows in (do e ← read_row r; es ← rest; ok (e ∷ es))
