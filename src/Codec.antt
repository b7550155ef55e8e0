-- ===== src/Codec.antt =====
-- internal/platform/codec: stored events. What protojson, encoding/json and Postgres's jsonb do is a
-- parameter.
use sagaflow.Base.{String, Bool, if◌then◌else◌}
use sagaflow.Errors.{Result, ok, err, wrap, sentinel, unknown_type, ◌>>=◌}
use sagaflow.Contracts.{
  ProtoMessage, hold_seat, release_seat_hold, seat_held, seat_hold_released, seat_hold_expired,
  seat_unavailable, foreign,
}
use sagaflow.Database.{Bytes}
use sagaflow.Session.{in_context}

-- eventstore.Meta
pub record Meta : Type 0 where
  pub trace_id : String
  pub correlation_id : String
  pub causation_id : String

abbrev pub no_meta : Meta
no_meta = record { trace_id = ""; correlation_id = ""; causation_id = "" }

-- eventstore.Event
pub record Event : Type 0 where
  pub type_name : String
  pub data_json : Bytes
  pub meta : Meta

-- The encoders: `marshal` and `unmarshal` are protojson's, at the type of that name; `registered` is
-- whether `FindMessageByName` finds it; `jsonb` is what a jsonb column gives back.
pub record Json : Type 0 where
  pub marshal : ProtoMessage → Result Bytes
  pub registered : String → Bool
  pub unmarshal : String → Bytes → Result ProtoMessage
  pub marshal_meta : Meta → Result Bytes
  pub unmarshal_meta : Bytes → Result Meta
  pub jsonb : Bytes → Bytes

-- The full name of a message's type, from the package and the message of its .proto file.
unfoldable pub type_name : ProtoMessage → String
type_name (hold_seat m) = "sagaflow.inventory.v1.HoldSeat"
type_name (release_seat_hold m) = "sagaflow.inventory.v1.ReleaseSeatHold"
type_name (seat_held m) = "sagaflow.inventory.v1.SeatHeld"
type_name (seat_hold_released m) = "sagaflow.inventory.v1.SeatHoldReleased"
type_name (seat_hold_expired m) = "sagaflow.inventory.v1.SeatHoldExpired"
type_name (seat_unavailable m) = "sagaflow.inventory.v1.SeatUnavailable"
type_name (foreign name) = name

module _ (json : Json) where
  open json use {marshal, registered, unmarshal, jsonb}

  -- A `proto.Message` that is nil does not occur.
  unfoldable pub encode : ProtoMessage → Meta → Result Event
  encode m meta = do
    b ← in_context "codec: marshal" (marshal m)
    ok (record { type_name = type_name m; data_json = b; meta = meta })

  unfoldable pub decode : Event → Result ProtoMessage
  decode e =
      if registered e.type_name
      then in_context "codec: unmarshal" (unmarshal e.type_name e.data_json)
      else err (wrap "unknown event type" (sentinel unknown_type))
