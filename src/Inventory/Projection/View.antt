-- ===== src/Inventory/Projection/View.antt =====
-- internal/inventory/projection.go: what is read back of a projected seat, and the order of upserts.
use sagaflow.Base.{
  ℕ, String, ◌≡◌, refl, sym, ap, subst, Option, none, some, List, [], ◌∷◌, ◌==◌, if◌then◌else◌, ltb,
  inl, inr, Bool-cases, arith, eq_refl,
}
use sagaflow.Errors.{ok}
use sagaflow.Database.{AvailabilityRow, timestamptz, to_microseconds, upsert_row}
use sagaflow.Seat.{Status, free, held, SeatState, status_string}
use sagaflow.Inventory.Projection.{
  deadline, availability_row, parse_status, expires_at_of, find_row, read_availability,
}

parse_status-string : (s : Status) → parse_status (status_string s) ≡ ok s
unfolding parse_status status_string
parse_status-string free = refl
parse_status-string held = refl

deadline_read : (t : ℕ) → expires_at_of (to_microseconds (deadline t)) ≡ timestamptz t
unfolding deadline expires_at_of to_microseconds
deadline_read t = ground arith

-- What is read of the row that a state is projected to is that state, with its deadline to the microsecond.
pub read_availability-row :
    (seat : String) (s : SeatState)
    → read_availability (some (availability_row seat s))
      ≡ ok (
          some (record {
            seat_id = seat;
            status = s.status;
            hold_id = s.hold_id;
            booking_id = s.booking_id;
            expires_at = timestamptz s.expires_at;
            version = s.version;
          }))
unfolding read_availability parse_status expires_at_of
read_availability-row seat s = rw (parse_status-string s.status, deadline_read s.expires_at) refl

abbrev pub newest : AvailabilityRow → Option AvailabilityRow → AvailabilityRow
newest new none = new
newest new (some r) = if ltb r.version new.version then new else r

find_row-same :
    (new : AvailabilityRow) (rows : List AvailabilityRow)
    → find_row new.seat_id (upsert_row new rows) ≡ some (newest new (find_row new.seat_id rows))
unfolding find_row upsert_row
find_row-same new [] = rw (eq_refl new.seat_id) refl
find_row-same new (r ∷ rows) = elim (Bool-cases (r.seat_id == new.seat_id)) [
  | inl y ↦ elim (Bool-cases (ltb r.version new.version)) [
    | inl older ↦ rw (y, older, eq_refl new.seat_id) refl
    | inr newer ↦ rw (y, newer, find_row, y) refl
  ]
  | inr n ↦ rw (n, find_row, n) (find_row-same new rows)
]

pub find_row-upsert_row :
    (seat : String) (new : AvailabilityRow) (rows : List AvailabilityRow)
    → new.seat_id ≡ seat
    → find_row seat (upsert_row new rows) ≡ some (newest new (find_row seat rows))
find_row-upsert_row seat new rows here =
    subst (λ id. find_row id (upsert_row new rows) ≡ some (newest new (find_row id rows))) here
      (find_row-same new rows)

newest_swap :
    (a b : AvailabilityRow) (o : Option AvailabilityRow)
    → ¬ (a.version ≡ b.version)
    → newest a (some (newest b o)) ≡ newest b (some (newest a o))
newest_swap a b none other = ground (arith, other)
newest_swap a b (some r) other = ground (arith, other)

-- Two projections of one seat at different versions leave the same row, in whichever order they
-- are written.
pub upsert_row-either_order :
    (a b : AvailabilityRow) (rows : List AvailabilityRow)
    → a.seat_id ≡ b.seat_id
    → ¬ (a.version ≡ b.version)
    → find_row a.seat_id (upsert_row a (upsert_row b rows))
      ≡ find_row a.seat_id (upsert_row b (upsert_row a rows))
upsert_row-either_order a b rows same other =
    rw
      (
        find_row-upsert_row a.seat_id a (upsert_row b rows) refl,
        find_row-upsert_row a.seat_id b rows (sym same),
        find_row-upsert_row a.seat_id b (upsert_row a rows) (sym same),
        find_row-upsert_row a.seat_id a rows refl,
      )
      (ap some (newest_swap a b (find_row a.seat_id rows) other))
