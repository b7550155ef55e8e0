-- ===== src/Seat/History.antt =====
-- internal/inventory/seat.go over a whole life of a seat: the log that the decisions write, and what
-- replaying it gives.
use sagaflow.Base.{
  String, ◌≡◌, refl, Option, none, some, List, [], ◌∷◌, ◌++◌, eq_iff, if◌then◌else◌, arith, inl,
  inr,
}
use sagaflow.Errors.{Result, ok, err, ◌>>=◌, Result-cases}
use sagaflow.Contracts.{
  ProtoMessage, hold_seat, release_seat_hold, seat_held, seat_hold_released, seat_hold_expired,
  Timestamps,
}
use sagaflow.Seat.{SeatState, zero_seat, is_held, Outcome, apply, fold_from, fold}
use sagaflow.Seat.Lock.{Request, command, deadline, answer, settle, answer-refines}

-- A log in which every hold starts on a free seat, and ends by a release or an expiry of that hold
-- before the next one starts. The index is the live hold.
abbrev pub IsExclusive : Option String → List ProtoMessage → Type 0
IsExclusive live [] = Unit
IsExclusive none (seat_held e ∷ log) = IsExclusive (some e.hold_id) log
IsExclusive (some id) (seat_hold_released e ∷ log) = (e.hold_id ≡ id) × IsExclusive none log
IsExclusive (some id) (seat_hold_expired e ∷ log) = (e.hold_id ≡ id) × IsExclusive none log
IsExclusive live (m ∷ log) = ⊥

abbrev pub live_hold : SeatState → Option String
live_hold s = if is_held s.status then some s.hold_id else none

module _ (ts : Timestamps) where
  pub fold_from-append :
      (s : SeatState) (xs ys : List ProtoMessage)
      → fold_from ts s (xs ++ ys) ≡ (fold_from ts s xs >>= λ s'. fold_from ts s' ys)
  unfolding fold_from
  fold_from-append s [] ys = refl
  fold_from-append s (x ∷ xs) ys = elim (Result-cases (apply ts s x)) [
    | inl (t, e) ↦ rw (e, fold_from) (fold_from-append t xs ys)
    | inr (e', e) ↦ rw (e, fold_from)
  ]

  -- The events that a seat's answers write, request by request. A refused message changes nothing.
  abbrev written : Result Outcome → List ProtoMessage
  written (ok o) = o.events
  written (err e) = []

  abbrev moved : SeatState → Result Outcome → SeatState
  moved s (ok o) = settle ts s o
  moved s (err e) = s

  pub log_of : SeatState → List Request → List ProtoMessage
  unfolding answer
  log_of s [] = []
  log_of s (r ∷ rs) = written (answer ts s r) ++ log_of (moved s (answer ts s r)) rs

  pub final : SeatState → List Request → SeatState
  unfolding answer settle
  final s [] = s
  final s (r ∷ rs) = final (moved s (answer ts s r)) rs

  -- Replaying the log of a life gives the state that the life ended in.
  replay-log_of :
      (s : SeatState) (rs : List Request) → fold_from ts s (log_of s rs) ≡ ok (final s rs)
  unfolding log_of final
  replay-log_of s [] = unfold fold_from in refl
  replay-log_of s (r ∷ rs) = elim (Result-cases (answer ts s r)) [
    | inl (o, e) ↦
        rw e
          (rw (fold_from-append, (answer-refines ts s r o e).0) (replay-log_of (settle ts s o) rs))
    | inr (x, e) ↦ rw e (replay-log_of s rs)
  ]

  -- One answer prolongs an exclusive log.
  answer-IsExclusive :
      (s : SeatState) (r : Request) (o : Outcome) (log : List ProtoMessage)
      → answer ts s r ≡ ok o
      → IsExclusive (live_hold (settle ts s o)) log
      → IsExclusive (live_hold s) (o.events ++ log)
  unfolding answer settle
  answer-IsExclusive s (command (hold_seat c)) o log e h = ground (arith)
  answer-IsExclusive s (command (release_seat_hold c)) o log e h =
      ground (arith, eq_iff s.hold_id c.hold_id)
  answer-IsExclusive s (command _) o log e h = cc
  answer-IsExclusive s (deadline seat id) o log e h = ground (arith, eq_iff s.hold_id id)

  log_of-IsExclusive' :
      (s : SeatState) (rs : List Request) → IsExclusive (live_hold s) (log_of s rs)
  unfolding log_of
  log_of-IsExclusive' s [] = tt
  log_of-IsExclusive' s (r ∷ rs) = elim (Result-cases (answer ts s r)) [
    | inl (o, e) ↦ rw e (answer-IsExclusive s r o _ e (log_of-IsExclusive' (settle ts s o) rs))
    | inr (x, e) ↦ rw e (log_of-IsExclusive' s rs)
  ]

  -- From a seat with no history, whatever it is asked in whatever order, the log is exclusive and
  -- folds to the seat's state.
  pub log_of-IsExclusive :
      (rs : List Request)
      → IsExclusive none (log_of zero_seat rs)
        × (fold ts (log_of zero_seat rs) ≡ ok (final zero_seat rs))
  unfolding fold
  log_of-IsExclusive rs = (log_of-IsExclusive' zero_seat rs, replay-log_of zero_seat rs)
