-- ===== src/Seat.antt =====
-- internal/inventory/seat.go: a seat stream folded, and the pure decisions.
pub mod Lock
pub mod History
pub mod Retry
use sagaflow.Base.{
  ℕ, zero, suc, ◌+◌, String, ◌≡◌, refl, Bool, true, false, ◌&&◌, Option, none, some, List, [], ◌∷◌,
  ◌++◌, ◌==◌, if◌then◌else◌, not, ◌||◌,
}
use Prim.Native.String.{◌++◌ as concat}
use sagaflow.Errors.{Result, ok, err, wrap, sentinel, unknown_event, unknown_command, ◌>>=◌}
use sagaflow.Contracts.{
  Time, zero_time, HoldSeat, ReleaseSeatHold, SeatHeld, SeatHoldReleased, ProtoMessage, hold_seat,
  release_seat_hold, seat_held, seat_hold_released, seat_hold_expired, seat_unavailable, foreign,
  Timestamps,
}

pub data Status : Type 0 where
  free held : Status

-- `String`; the `unknown` after the switch is for an integer that no code makes.
unfoldable pub status_string : Status → String
status_string free = "free"
status_string held = "held"

abbrev pub is_held : Status → Bool
is_held free = false
is_held held = true

pub record SeatState : Type 0 where
  pub version : ℕ
  pub status : Status
  pub hold_id : String
  pub booking_id : String
  pub expires_at : Time

-- Go's zero value.
abbrev pub zero_seat : SeatState
zero_seat = record {
  version = 0;
  status = free;
  hold_id = "";
  booking_id = "";
  expires_at = zero_time;
}

abbrev freed : SeatState → SeatState
freed s = record s {
  version = suc s.version;
  status = free;
  hold_id = "";
  booking_id = "";
  expires_at = zero_time;
}

pub record Timer : Type 0 where
  pub fire_at : Time
  pub token : String

pub record Outcome : Type 0 where
  pub events : List ProtoMessage
  pub replies : List ProtoMessage
  pub timers : List Timer

abbrev nothing : Outcome
nothing = record { events = []; replies = []; timers = [] }

abbrev reply : ProtoMessage → Outcome
reply m = record { events = []; replies = m ∷ []; timers = [] }

unfoldable pub messages : Outcome → List ProtoMessage
messages o = o.events ++ o.replies

-- The test `s.Status == StatusHeld && s.HoldID == id`.
abbrev pub holds : SeatState → String → Bool
holds s id = is_held s.status && s.hold_id == id

unfoldable pub release : SeatState → ReleaseSeatHold → Outcome
release s cmd =
    let released = seat_hold_released (record {
      hold_id = cmd.hold_id;
      booking_id = cmd.booking_id;
      seat_id = cmd.seat_id;
      reason = cmd.reason;
    }) in
    if not (is_held s.status) || not (s.hold_id == cmd.hold_id)
    then reply released
    else record { events = released ∷ []; replies = []; timers = [] }

unfoldable pub expire : SeatState → String → String → Outcome
expire s seat id = if not (is_held s.status) || not (s.hold_id == id) then nothing else record {
  events =
      seat_hold_expired (record { hold_id = s.hold_id; booking_id = s.booking_id; seat_id = seat })
      ∷ [];
  replies = [];
  timers = [];
}

-- `SeatID`: the stream that a command targets.
unfoldable pub target_seat : ProtoMessage → Result String
target_seat (hold_seat c) = ok c.seat_id
target_seat (release_seat_hold c) = ok c.seat_id
target_seat _ = err (wrap "unknown command" (sentinel unknown_command))

module _ (ts : Timestamps) where
  open ts use {as_time, new_timestamp}

  unfoldable pub apply : SeatState → ProtoMessage → Result SeatState
  apply s (seat_held e) = ok (record s {
    version = suc s.version;
    status = held;
    hold_id = e.hold_id;
    booking_id = e.booking_id;
    expires_at = as_time e.expires_at;
  })
  apply s (seat_hold_released e) = ok (freed s)
  apply s (seat_hold_expired e) = ok (freed s)
  apply s _ = err (wrap "unknown seat event" (sentinel unknown_event))

  abbrev in_fold : Result SeatState → Result SeatState
  in_fold (ok s) = ok s
  in_fold (err e) = err (wrap "inventory: fold event" e)

  -- The loop of `Fold`, from the state `s`.
  unfoldable pub fold_from : SeatState → List ProtoMessage → Result SeatState
  fold_from s [] = ok s
  fold_from s (e ∷ evts) = in_fold (apply s e) >>= λ next. fold_from next evts

  unfoldable pub fold : List ProtoMessage → Result SeatState
  fold evts = fold_from zero_seat evts

  -- `held`: the SeatHeld that describes the live hold.
  unfoldable pub announce : SeatState → String → SeatHeld
  announce s seat = record {
    hold_id = s.hold_id;
    booking_id = s.booking_id;
    seat_id = seat;
    expires_at = some (new_timestamp s.expires_at);
  }

  unfoldable pub hold : SeatState → HoldSeat → Outcome
  unfolding status_string announce
  hold s cmd =
      if holds s cmd.hold_id
      then reply (seat_held (announce s cmd.seat_id))
      else if is_held s.status
      then reply (
          seat_unavailable (record {
            hold_id = cmd.hold_id;
            booking_id = cmd.booking_id;
            seat_id = cmd.seat_id;
            reason = concat "seat is " (status_string s.status);
          }))
      else record {
        events =
            seat_held (record {
              hold_id = cmd.hold_id;
              booking_id = cmd.booking_id;
              seat_id = cmd.seat_id;
              expires_at = cmd.expires_at;
            })
            ∷ [];
        replies = [];
        timers = (record { fire_at = as_time cmd.expires_at; token = cmd.hold_id }) ∷ [];
      }

  unfoldable pub decide : SeatState → ProtoMessage → Result Outcome
  unfolding hold release
  decide s (hold_seat c) = ok (hold s c)
  decide s (release_seat_hold c) = ok (release s c)
  decide s _ = err (wrap "unknown command" (sentinel unknown_command))
