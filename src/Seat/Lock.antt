-- ===== src/Seat/Lock.antt =====
-- internal/inventory/seat.go, as an exclusive lock: what the decisions and the fold do to the holder
-- of the seat.
use sagaflow.Base.{◌+◌, String, ◌≡◌, Option, none, some, ◌==◌, if◌then◌else◌, arith, length}
use sagaflow.Errors.{Result, ok, err}
use sagaflow.Contracts.{
  Time, HoldSeat, ReleaseSeatHold, ProtoMessage, hold_seat, release_seat_hold, Timestamps,
}
use sagaflow.Seat.{SeatState, is_held, Outcome, apply, fold_from, hold, release, expire, decide}

-- Who has the seat, and until when.
pub record Holder : Type 0 where
  pub hold_id : String
  pub booking_id : String
  pub until : Time

abbrev pub holder : SeatState → Option Holder
holder s =
    if is_held s.status
    then some (record { hold_id = s.hold_id; booking_id = s.booking_id; until = s.expires_at })
    else none

-- The lock: taken only when nobody has it.
abbrev pub take_lock : Option Holder → Holder → Option Holder
take_lock none h = some h
take_lock (some g) h = some g

-- The lock: given back only under the id that took it.
abbrev pub give_back : Option Holder → String → Option Holder
give_back none id = none
give_back (some g) id = if g.hold_id == id then none else some g

-- What a seat is asked: a command, or the deadline of a hold.
pub data Request : Type 0 where
  command : ProtoMessage → Request
  deadline : String → String → Request

module _ (ts : Timestamps) where
  open ts use {as_time}

  abbrev pub requested : HoldSeat → Holder
  requested c = record {
    hold_id = c.hold_id;
    booking_id = c.booking_id;
    until = as_time c.expires_at;
  }

  -- The lock after a request.
  abbrev pub lock_step : Option Holder → Request → Option Holder
  lock_step l (command (hold_seat c)) = take_lock l (requested c)
  lock_step l (command (release_seat_hold c)) = give_back l c.hold_id
  lock_step l (command _) = l
  lock_step l (deadline seat id) = give_back l id

  -- The decision for a request.
  unfoldable pub answer : SeatState → Request → Result Outcome
  unfolding decide expire
  answer s (command m) = decide ts s m
  answer s (deadline seat id) = ok (expire s seat id)

  -- The state after an outcome's events; a fold that fails leaves the state.
  unfoldable pub settle : SeatState → Outcome → SeatState
  unfolding fold_from apply
  settle s o = elim (fold_from ts s o.events) [ ok s' ↦ s' | err _ ↦ s ]

  abbrev Refines : SeatState → Request → Outcome → Type 0
  Refines s r o =
      (fold_from ts s o.events ≡ ok (settle s o))
      × (holder (settle s o) ≡ lock_step (holder s) r)
      × ((settle s o).version ≡ s.version + length o.events)

  hold-Refines : (s : SeatState) (c : HoldSeat) → Refines s (command (hold_seat c)) (hold ts s c)
  unfolding hold settle
  hold-Refines s c = ground arith

  release-Refines :
      (s : SeatState) (c : ReleaseSeatHold)
      → Refines s (command (release_seat_hold c)) (release s c)
  unfolding release settle
  release-Refines s c = ground arith

  expire-Refines :
      (s : SeatState) (seat id : String) → Refines s (deadline seat id) (expire s seat id)
  unfolding expire settle
  expire-Refines s seat id = ground arith

  -- A decision's events, folded onto the state it was taken from, give a state whose holder is the
  -- lock's after the request, and whose version grew by the number of the events.
  pub answer-refines :
      (s : SeatState) (r : Request) (o : Outcome)
      → answer s r ≡ ok o
      → (fold_from ts s o.events ≡ ok (settle s o))
        × (holder (settle s o) ≡ lock_step (holder s) r)
        × ((settle s o).version ≡ s.version + length o.events)
  unfolding answer
  answer-refines s (command (hold_seat c)) o h = ground (arith, hold-Refines s c)
  answer-refines s (command (release_seat_hold c)) o h = ground (arith, release-Refines s c)
  answer-refines s (command _) o h = cc
  answer-refines s (deadline seat id) o h = ground (arith, expire-Refines s seat id)
