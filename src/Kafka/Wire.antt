-- ===== src/Kafka/Wire.antt =====
-- internal/platform/kafka: messages as Kafka records (producer.go) and back (`toRecord` of
-- consumer.go). A `[]byte` made from a Go string is kept as that string.
use sagaflow.Base.{ℕ, String, ◌≡◌, refl, List, [], ◌∷◌, ◌∙◌, map, ap}
use sagaflow.Errors.{Result, ok, err, wrap}
use sagaflow.Envelope.Headers.{HeaderMap, get, put_all, has, IsMap, get-put_all, get_if_has}
use sagaflow.Envelope.{Envelope, Message, headers, parse}
use sagaflow.Envelope.RoundTrip.{IsNamed, headers-IsMap, parse-headers}

-- kgo.Record, as far as the code uses it.
pub record KgoRecord : Type 0 where
  pub topic : String
  pub key : String
  pub value : List ℕ
  pub headers : List (String × String)
  pub partition : ℕ
  pub offset : ℕ

-- `Record` of consumer.go.
pub record Record : Type 0 where
  pub topic : String
  pub key : String
  pub value : List ℕ
  pub headers : HeaderMap
  pub partition : ℕ
  pub offset : ℕ

-- The order in which Go's `range` walks a map: any, but each entry once.
pub record MapWalk : Type 0 where
  pub walk : HeaderMap → HeaderMap
  pub walk-IsMap : (h : HeaderMap) → IsMap h → IsMap (walk h)
  pub has-walk : (h : HeaderMap) (k : String) → IsMap h → has (walk h) k ≡ has h k
  pub get-walk : (h : HeaderMap) (k : String) → IsMap h → get (walk h) k ≡ get h k

-- `record`: the broker fills in the partition and the offset.
unfoldable pub wire_record : MapWalk → Message → KgoRecord
wire_record w m = record {
  topic = m.topic;
  key = m.key;
  value = m.payload;
  headers = w.walk m.headers;
  partition = 0;
  offset = 0;
}

unfoldable pub to_record : KgoRecord → Record
to_record kr = record {
  topic = kr.topic;
  key = kr.key;
  value = kr.value;
  headers = put_all kr.headers [];
  partition = kr.partition;
  offset = kr.offset;
}

-- `ProduceSync(…).FirstErr()` over the state of the broker.
abbrev pub ProduceSync : Type 0 → Type 0
ProduceSync S = List KgoRecord → S → Result (Unit {0}) × S

abbrev pub wrap_publish : {S : Type 0} → Result (Unit {0}) × S → Result (Unit {0}) × S
wrap_publish (ok u, s) = (ok u, s)
wrap_publish (err e, s) = (err (wrap "kafka: publish" e), s)

-- `Publish`
unfoldable pub publish :
    {S : Type 0} → ProduceSync S → MapWalk → List Message → S → Result (Unit {0}) × S
unfolding wire_record
publish produce_sync w [] s = (ok tt, s)
publish produce_sync w (m ∷ msgs) s = wrap_publish (produce_sync (map (wire_record w) (m ∷ msgs)) s)

-- Parsing reads a map by its keys only.
pub parse_ext : (h h' : HeaderMap) → ((k : String) → get h k ≡ get h' k) → parse h ≡ parse h'
unfolding parse
parse_ext h h' same = rw (
  same "ce_specversion",
  same "ce_id",
  same "ce_source",
  same "ce_type",
  same "ce_subject",
  same "ce_correlationid",
  same "ce_causationid",
  same "traceparent",
)

get-to_record :
    (w : MapWalk) (m : Message) (k : String)
    → IsMap m.headers
    → get (to_record (wire_record w m)).headers k ≡ get m.headers k
unfolding to_record wire_record
get-to_record w m k map_like =
    get-put_all (w.walk m.headers) [] k (w.walk-IsMap m.headers map_like)
    ∙ rw (w.has-walk m.headers k map_like, w.get-walk m.headers k map_like) (get_if_has m.headers k)

-- A message that carries the headers of an envelope with an id, a source and a type, in whatever
-- order the producer walks them, arrives with its key and its payload, and its envelope is read back
-- as it was.
pub wire_round_trip :
    (w : MapWalk) (e : Envelope) (m : Message)
    → IsNamed e
    → m.headers ≡ headers e
    → let r = to_record (wire_record w m) in
      (parse r.headers ≡ ok e) × (r.key ≡ m.key) × (r.value ≡ m.payload) × (r.topic ≡ m.topic)
unfolding to_record wire_record
wire_round_trip w e m named same = (
  parse_ext (to_record (wire_record w m)).headers (headers e)
        (λ k. get-to_record w m k (rw same (headers-IsMap e)) ∙ ap (λ h. get h k) same)
      ∙ (parse-headers e).1 named,
  refl,
  refl,
  refl,
)
