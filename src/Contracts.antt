-- ===== src/Contracts.antt =====
-- contracts/sagaflow/inventory/v1: the six messages, and `proto.Message` as any of them or a message
-- of another package.
use sagaflow.Base.{ℕ, ℤ, String, Option, ◌≡◌, some}

-- A `time.Time`, in nanoseconds after Go's zero time (1 January of year 1, UTC).
abbrev pub Time : Type 0
Time = ℕ

abbrev pub zero_time : Time
zero_time = 0

-- google.protobuf.Timestamp, in seconds after 1970
pub record Timestamp : Type 0 where
  pub seconds : ℤ
  pub nanos : ℕ

pub record HoldSeat : Type 0 where
  pub hold_id : String
  pub booking_id : String
  pub seat_id : String
  pub expires_at : Option Timestamp

pub record ReleaseSeatHold : Type 0 where
  pub hold_id : String
  pub booking_id : String
  pub seat_id : String
  pub reason : String

pub record SeatHeld : Type 0 where
  pub hold_id : String
  pub booking_id : String
  pub seat_id : String
  pub expires_at : Option Timestamp

pub record SeatHoldReleased : Type 0 where
  pub hold_id : String
  pub booking_id : String
  pub seat_id : String
  pub reason : String

pub record SeatHoldExpired : Type 0 where
  pub hold_id : String
  pub booking_id : String
  pub seat_id : String

pub record SeatUnavailable : Type 0 where
  pub hold_id : String
  pub booking_id : String
  pub seat_id : String
  pub reason : String

-- `foreign` is a message of any other type, by its full name.
pub data ProtoMessage : Type 0 where
  hold_seat : HoldSeat → ProtoMessage
  release_seat_hold : ReleaseSeatHold → ProtoMessage
  seat_held : SeatHeld → ProtoMessage
  seat_hold_released : SeatHoldReleased → ProtoMessage
  seat_hold_expired : SeatHoldExpired → ProtoMessage
  seat_unavailable : SeatUnavailable → ProtoMessage
  foreign : String → ProtoMessage

-- What the code relies on of timestamppb: `AsTime`, which takes a nil pointer too, and `New`.
pub record Timestamps : Type 0 where
  pub as_time : Option Timestamp → Time
  pub new_timestamp : Time → Timestamp
  pub as_time-new : (t : Time) → as_time (some (new_timestamp t)) ≡ t
