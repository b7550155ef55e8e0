-- ===== src/Examples/World.antt =====
-- Concrete libraries, brokers and tables that the examples run the code on.
use Prim.Native.Nat.{◌/◌, ◌%◌}
use sagaflow.Base.{
  pos, clamped, ℕ, suc, ◌+◌, ◌*◌, refl, true, false, Option, none, some, List, [], ◌∷◌, arith,
  nat_eq, if◌then◌else◌,
}
use sagaflow.Envelope.Headers.{HeaderMap}
use sagaflow.Errors.{Result, ok, err, message, sentinel, permanent}
use sagaflow.Contracts.{Time, Timestamp, Timestamps, HoldSeat, ReleaseSeatHold, seat_hold_expired}
use sagaflow.Envelope.{Envelope, Message, headers}
use sagaflow.Database.{Bytes, EventRow, Db, Write, insert_event, notify}
use sagaflow.Session.{Session, Environment, works}
use sagaflow.Codec.{no_meta, Json}
use sagaflow.Outbox.{HeaderJson}
use sagaflow.Kafka.Wire.{KgoRecord, Record, MapWalk}
use sagaflow.Kafka.Consumer.{Runtime, ConsumerConfig, Client}
use sagaflow.Inventory.Commands.{Deps}

abbrev instant : Option Timestamp → Time
instant none = 0
instant (some t) = clamped t.seconds * 1_000_000_000 + t.nanos

abbrev pub timestamps : Timestamps
timestamps = record {
  as_time = instant;
  new_timestamp = λ t. record { seconds = pos (t / 1_000_000_000); nanos = t % 1_000_000_000 };
  as_time-new = λ t. omega arith;
}

abbrev pub walk_in_order : MapWalk
walk_in_order = record {
  walk = λ h. h;
  walk-IsMap = λ h m. m;
  has-walk = λ h k m. refl;
  get-walk = λ h k m. refl;
}

abbrev pub hold_request : HoldSeat
hold_request = record {
  hold_id = "h1";
  booking_id = "b1";
  seat_id = "A1";
  expires_at = some (record { seconds = pos 60; nanos = 0 });
}

abbrev pub release_request : ReleaseSeatHold
release_request = record { hold_id = "h1"; booking_id = "b1"; seat_id = "A1"; reason = "paid" }

abbrev pub envelope : Envelope
envelope = record {
  id = "e1";
  source = "/booking";
  type_name = "sagaflow.inventory.v1.HoldSeat";
  subject = "A1";
  correlation_id = "b1";
  causation_id = "";
  trace_parent = "";
}

abbrev pub envelope_message : Message
envelope_message = record {
  topic = "inventory.commands";
  key = "A1";
  payload = 7 ∷ [];
  headers = headers envelope;
}

-- The calls of the handler so far, and the time waited.
pub record Trace : Type 0 where
  pub calls : ℕ
  pub waited : ℕ

-- The record at offset 0 fails for good, the one at offset 1 fails while it is new.
abbrev handled : Record → Trace → Result (Unit {0})
handled r t =
    if nat_eq r.offset 0
    then err (sentinel permanent)
    else if nat_eq r.offset 1
    then (if nat_eq t.calls 0 then err (message "busy") else ok tt)
    else ok tt

abbrev pub runtime : Runtime Trace
runtime = record {
  handler = λ r t. (handled r t, record t { calls = suc t.calls });
  produce_sync = λ records t. (ok tt, t);
  map_walk = walk_in_order;
  cancelled = λ t. false;
  random = λ d t. (0, t);
  interrupted = λ w t. (false, record t { waited = t.waited + w });
  error_text = λ e. "error";
  itoa = λ n. "0";
}

abbrev pub config : ConsumerConfig
config = record {
  has_handler = true;
  group = "inventory";
  has_dlq = false;
  max_attempts = 5;
  base_backoff = 100_000_000;
}

abbrev pub new_trace : Trace
new_trace = record { calls = 0; waited = 0 }

abbrev pub client : Client Trace
client = record { world = new_trace; marks = []; rebalance_blocked = false }

abbrev pub record_at : ℕ → KgoRecord
record_at n = record {
  topic = "inventory.commands";
  key = "A1";
  value = 7 ∷ [];
  headers = headers envelope;
  partition = 0;
  offset = n;
}

-- An encoder that keeps nothing of a message but that it is there.
abbrev pub lossy_json : Json
lossy_json = record {
  marshal = λ m. ok (1 ∷ []);
  registered = λ name. true;
  unmarshal = λ name b.
      ok (seat_hold_expired (record { hold_id = "h0"; booking_id = "b0"; seat_id = "A1" }));
  marshal_meta = λ m. ok (1 ∷ []);
  unmarshal_meta = λ b. ok no_meta;
  jsonb = λ b. b;
}

-- Headers that are kept as an empty object; no text is no JSON.
abbrev read_headers : Bytes → Result HeaderMap
read_headers [] = err (message "unexpected end of JSON input")
read_headers (b ∷ bs) = ok []

abbrev pub header_json : HeaderJson
header_json = record {
  marshal = λ h. ok (123 ∷ 125 ∷ []);
  unmarshal = read_headers;
  jsonb = λ b. b;
}

abbrev pub rival : EventRow
rival = record {
  global_seq = 100;
  stream_id = "A1";
  version = 1;
  type_name = "sagaflow.inventory.v1.SeatHoldExpired";
  data_json = 1 ∷ [];
  meta_json = 1 ∷ [];
  recorded_at = 5;
}

abbrev rival_writes : ℕ → List Write
rival_writes n = if nat_eq n 3 then insert_event rival ∷ notify ∷ [] else []

-- Another transaction commits an event of the seat between the load and the append of the first try.
abbrev pub environment : Environment
environment = record {
  fault = λ n. works;
  others = rival_writes;
  clock = λ n. n;
  uuid = λ n. "id";
  locked_elsewhere = λ n. [];
  broker = λ n. none;
}

abbrev pub deps : Deps
deps = record {
  timestamps = timestamps;
  json = lossy_json;
  header_json = header_json;
  frame = λ m. ok (1 ∷ []);
  env = environment;
}

abbrev pub empty_tables : Db
empty_tables = record {
  events = [];
  inbox = [];
  outbox = [];
  timers = [];
  availability = [];
  notified = 0;
}

abbrev pub connection : Session
connection = record {
  committed = empty_tables;
  pending = [];
  locked = [];
  serial = 0;
  step = 0;
  started = 0;
  log = [];
  sent = [];
}
