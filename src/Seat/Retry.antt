-- ===== src/Seat/Retry.antt =====
-- internal/inventory/seat.go: what a command does when it comes again under a new ce_id, and when a
-- release and a deadline meet.
use sagaflow.Base.{
  String, ◌≡◌, false, none, [], ◌∷◌, eq_refl, arith, length, ◌≤◌, ◌⊎◌, suc, Bool-cases, inl, inr,
  if◌then◌else◌,
}
use sagaflow.Errors.{ok}
use sagaflow.Contracts.{
  HoldSeat, ReleaseSeatHold, ProtoMessage, hold_seat, release_seat_hold, seat_held, Timestamps,
}
use sagaflow.Seat.{
  SeatState, is_held, holds, Outcome, hold, release, expire, decide, announce, messages,
}
use sagaflow.Seat.Lock.{holder, settle}

module _ (ts : Timestamps) where
  open ts use {as_time, as_time-new}

  -- Every command that is decided is answered by exactly one message. It asks for no more deadlines
  -- than it appends events, and for none unless the seat was free.
  pub decide-answers :
      (s : SeatState) (m : ProtoMessage) (o : Outcome)
      → decide ts s m ≡ ok o
      → (length (messages o) ≡ 1)
        × (length o.timers ≤ length o.events)
        × ((o.timers ≡ []) ⊎ (holder s ≡ none))
  unfolding decide messages
  decide-answers s (hold_seat c) o h = ground arith
  decide-answers s (release_seat_hold c) o h = ground arith
  decide-answers s _ o h = cc

  -- A hold that was taken and is asked for again appends nothing and schedules nothing; its one reply
  -- is a SeatHeld, and folding that reply would give the same holder.
  pub hold-again :
      (s : SeatState) (c : HoldSeat)
      → is_held s.status ≡ false
      → let s' = settle ts s (hold ts s c) in
        let o = hold ts s' c in
        (o.events ≡ [])
        × (o.timers ≡ [])
        × (o.replies ≡ seat_held (announce ts s' c.seat_id) ∷ [])
        × (holder (settle ts s' (record { events = o.replies; replies = []; timers = [] }))
            ≡ holder s')
  unfolding hold settle
  hold-again s c free = ground (arith, eq_refl c.hold_id, as_time-new (as_time c.expires_at))

  -- A release is answered whatever the seat is doing, by the same message; the release that follows
  -- it appends nothing, so a release that is retried comes to an end.
  pub release-again :
      (s : SeatState) (c : ReleaseSeatHold)
      → let s' = settle ts s (release s c) in
        (messages (release s' c) ≡ messages (release s c))
        × ((release s' c).events ≡ [])
        × (holds s' c.hold_id ≡ false)
  unfolding release settle messages
  release-again s c = ground arith

  -- A release and the deadline of the same hold end in the same state, in either order. If nobody or
  -- another hold has the seat, that state is the one they found. If this hold has it, the seat is free
  -- then, with one event more, and the second of the two appends nothing.
  pub release-expire_comm :
      (s : SeatState) (c : ReleaseSeatHold) (seat : String)
      → let released = settle ts s (release s c) in
        let expired = settle ts s (expire s seat c.hold_id) in
        let both = settle ts released (expire released seat c.hold_id) in
        (both ≡ settle ts expired (release expired c))
        × ((expire released seat c.hold_id).events ≡ [])
        × ((release expired c).events ≡ [])
        × (if holds s c.hold_id
            then (holder both ≡ none) × (both.version ≡ suc s.version)
            else both ≡ s)
  unfolding release expire settle
  release-expire_comm s c seat = (ground arith, ground arith, ground arith, final_state)
    where
      final_state :
          let released = settle ts s (release s c) in
          let both = settle ts released (expire released seat c.hold_id) in
          if holds s c.hold_id
          then (holder both ≡ none) × (both.version ≡ suc s.version)
          else both ≡ s
      final_state = elim (Bool-cases (holds s c.hold_id)) [
        | inl y ↦ rw y (ground arith)
        | inr n ↦ rw n (ground arith)
      ]
