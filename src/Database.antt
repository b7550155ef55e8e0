-- ===== src/Database.antt =====
-- The tables of the inventory database, as the SQL of the packages under internal/platform and of
-- internal/inventory/projection.go reads and writes them. The migrations declare them. Rows stand in
-- the order of their insertion.
pub mod Order
pub mod Streams
use Prim.Native.Nat.{◌/◌}
use sagaflow.Base.{
  ℕ, zero, suc, ◌+◌, ◌*◌, ◌≤◌, String, ◌≡◌, refl, ◌∙◌, Bool, true, false, ◌&&◌, ◌||◌, not, Option,
  none, some, List, [], ◌∷◌, ◌++◌, ◌==◌, if◌then◌else◌, leb, ltb, nat_eq, keep, any, map, length,
}
use sagaflow.Contracts.{Time}

abbrev pub Bytes : Type 0
Bytes = List ℕ

-- A time that is written to a TIMESTAMPTZ column keeps its microseconds.
abbrev pub timestamptz : Time → Time
timestamptz t = t / 1000 * 1000

unfoldable pub to_microseconds : Option Time → Option Time
to_microseconds none = none
to_microseconds (some t) = some (timestamptz t)

pub record EventRow : Type 0 where
  pub global_seq : ℕ
  pub stream_id : String
  pub version : ℕ
  pub type_name : String
  pub data_json : Bytes
  pub meta_json : Bytes
  pub recorded_at : Time

pub record InboxRow : Type 0 where
  pub consumer : String
  pub source : String
  pub event_id : String
  pub handled_at : Time

pub record OutboxRow : Type 0 where
  pub id : ℕ
  pub topic : String
  pub key : String
  pub payload : Bytes
  pub headers_json : Bytes
  pub published_at : Option Time

pub record TimerRow : Type 0 where
  pub id : ℕ
  pub fire_at : Time
  pub subject : String
  pub token : String
  pub fired_at : Option Time

pub record AvailabilityRow : Type 0 where
  pub seat_id : String
  pub status : String
  pub hold_id : String
  pub booking_id : String
  pub expires_at : Option Time
  pub version : ℕ

-- `notified` counts the notifications delivered on the outbox channel.
pub record Db : Type 0 where
  pub events : List EventRow
  pub inbox : List InboxRow
  pub outbox : List OutboxRow
  pub timers : List TimerRow
  pub availability : List AvailabilityRow
  pub notified : ℕ

abbrev pub empty_db : Db
empty_db = record {
  events = [];
  inbox = [];
  outbox = [];
  timers = [];
  availability = [];
  notified = 0;
}

-- What a transaction writes, in the order in which it writes it. A prune deletes what is marked and
-- was marked before the time given; `age` is added to the mark, so that no time is subtracted. A clearing
-- of the availability view deletes the rows of the seats named.
pub data Write : Type 0 where
  insert_event : EventRow → Write
  insert_inbox : InboxRow → Write
  insert_outbox : OutboxRow → Write
  mark_published : List ℕ → Time → Write
  insert_timer : TimerRow → Write
  mark_fired : ℕ → Time → Write
  upsert_availability : AvailabilityRow → Write
  clear_availability : List String → Write
  notify : Write
  prune_inbox prune_outbox prune_timers : Time → Time → Write

abbrev pub is_pending : Option Time → Bool
is_pending none = true
is_pending (some t) = false

abbrev pub marked_before : Option Time → Time → Time → Bool
marked_before none now age = false
marked_before (some t) now age = ltb (t + age) now

-- As `marked_before`, with `<=` in the place of `<`.
abbrev pub marked_by : Option Time → Time → Time → Bool
marked_by none now age = false
marked_by (some t) now age = leb (t + age) now

abbrev pub has_id : ℕ → List ℕ → Bool
has_id n ids = any (nat_eq n) ids

abbrev pub has_text : String → List String → Bool
has_text x texts = any (λ y. x == y) texts

-- `UPDATE outbox SET published_at = now() WHERE id = ANY(ids)`
unfoldable pub publish_rows : List ℕ → Time → List OutboxRow → List OutboxRow
publish_rows ids now [] = []
publish_rows ids now (r ∷ rows) =
    (if has_id r.id ids then record r { published_at = some now } else r)
    ∷ publish_rows ids now rows

-- `UPDATE timers SET fired_at = now() WHERE id = id AND fired_at IS NULL`
unfoldable pub fire_rows : ℕ → Time → List TimerRow → List TimerRow
fire_rows id now [] = []
fire_rows id now (r ∷ rows) =
    (if nat_eq r.id id && is_pending r.fired_at then record r { fired_at = some now } else r)
    ∷ fire_rows id now rows

-- `INSERT … ON CONFLICT (seat_id) DO UPDATE … WHERE seat_availability.version < excluded.version`
unfoldable pub upsert_row : AvailabilityRow → List AvailabilityRow → List AvailabilityRow
upsert_row new [] = new ∷ []
upsert_row new (r ∷ rows) =
    if r.seat_id == new.seat_id
    then (if ltb r.version new.version then new else r) ∷ rows
    else r ∷ upsert_row new rows

unfoldable pub perform : Db → Write → Db
unfolding publish_rows fire_rows upsert_row keep
perform d (insert_event r) = record d { events = d.events ++ r ∷ [] }
perform d (insert_inbox r) = record d { inbox = d.inbox ++ r ∷ [] }
perform d (insert_outbox r) = record d { outbox = d.outbox ++ r ∷ [] }
perform d (mark_published ids now) = record d { outbox = publish_rows ids now d.outbox }
perform d (insert_timer r) = record d { timers = d.timers ++ r ∷ [] }
perform d (mark_fired id now) = record d { timers = fire_rows id now d.timers }
perform d (upsert_availability r) = record d { availability = upsert_row r d.availability }
perform d (clear_availability seats) = record d {
  availability = keep (λ r. not (has_text r.seat_id seats)) d.availability;
}
perform d notify = record d { notified = suc d.notified }
perform d (prune_inbox now age) = record d {
  inbox = keep (λ r. not (ltb (r.handled_at + age) now)) d.inbox;
}
perform d (prune_outbox now age) = record d {
  outbox = keep (λ r. not (marked_before r.published_at now age)) d.outbox;
}
perform d (prune_timers now age) = record d {
  timers = keep (λ r. not (marked_by r.fired_at now age)) d.timers;
}

unfoldable pub perform_all : Db → List Write → Db
perform_all d [] = d
perform_all d (w ∷ ws) = perform_all (perform d w) ws

-- The rows of one stream, and the unique keys.
abbrev pub in_stream : String → EventRow → Bool
in_stream id r = r.stream_id == id

unfoldable pub stream_of : String → List EventRow → List EventRow
stream_of id rows = keep (in_stream id) rows

abbrev pub has_version : String → ℕ → List EventRow → Bool
has_version id v rows = any (λ (r : EventRow). r.stream_id == id && nat_eq r.version v) rows

abbrev pub consumed : String → String → String → List InboxRow → Bool
consumed consumer source id rows =
    any (λ (r : InboxRow). r.consumer == consumer && r.source == source && r.event_id == id) rows

abbrev pub pending_timer : ℕ → List TimerRow → Bool
pending_timer id rows = any (λ (r : TimerRow). nat_eq r.id id && is_pending r.fired_at) rows
