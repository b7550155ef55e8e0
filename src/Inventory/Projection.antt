-- ===== src/Inventory/Projection.antt =====
-- internal/inventory/projection.go: the availability view, derived again from the streams.
pub mod Resting
pub mod View
pub mod Upserts
pub mod Overlap
pub mod Derived
pub mod Rebuilt
use Prim.Native.String.{◌++◌ as concat}
use sagaflow.Base.{
  ℕ, zero, suc, String, ◌≡◌, Bool, true, false, ◌&&◌, Option, none, some, List, [], ◌∷◌, ◌==◌,
  if◌then◌else◌, nat_eq, keep, map,
}
use sagaflow.Errors.{Error, Result, ok, err, message}
use sagaflow.Contracts.{Time, zero_time, Timestamps}
use sagaflow.Database.{AvailabilityRow, to_microseconds, upsert_availability, clear_availability}
use sagaflow.Session.{
  Session, Environment, Tx, pure, lift, ◌>>=◌, ◌>>◌, view, write, statement, with_tx, annotate,
}
use sagaflow.Codec.{Json}
use sagaflow.EventStore.{distinct_streams}
use sagaflow.Seat.{Status, free, held, SeatState, status_string}
use sagaflow.Inventory.Store.{load_seat}

pub record Availability : Type 0 where
  pub seat_id : String
  pub status : Status
  pub hold_id : String
  pub booking_id : String
  pub expires_at : Time
  pub version : ℕ

-- `deadline`: the zero time is stored as NULL.
unfoldable pub deadline : Time → Option Time
deadline t = if nat_eq t zero_time then none else some t

-- The arguments of `upsertAvailabilitySQL`.
abbrev pub availability_row : String → SeatState → AvailabilityRow
availability_row seat s = record {
  seat_id = seat;
  status = status_string s.status;
  hold_id = s.hold_id;
  booking_id = s.booking_id;
  expires_at = to_microseconds (deadline s.expires_at);
  version = s.version;
}

unfoldable pub parse_status : String → Result Status
unfolding status_string
parse_status s =
    if s == status_string free
    then ok free
    else if s == status_string held
    then ok held
    else err (message "inventory: unknown status in seat_availability")

-- `if until != nil { a.ExpiresAt = *until }`, from the zero value
unfoldable pub expires_at_of : Option Time → Time
expires_at_of none = zero_time
expires_at_of (some t) = t

module _ (json : Json) (ts : Timestamps) (env : Environment) where
  abbrev upsert : AvailabilityRow → Tx (Unit {0})
  upsert r s = (ok tt, write (upsert_availability r ∷ []) s)

  -- `project`, once the seat is loaded.
  abbrev write_projection : String → SeatState → Tx (Unit {0})
  write_projection seat state s =
      if nat_eq state.version 0
      then (ok tt, s)
      else annotate "inventory: project" (statement env (upsert (availability_row seat state))) s

  unfoldable pub project : String → Tx (Unit {0})
  project seat = do (state, last) ← load_seat json ts env seat; write_projection seat state

  unfoldable pub project_in_tx : String → Tx (Unit {0})
  project_in_tx seat = with_tx env (project seat)

  -- The loop of `Rebuild`.
  unfoldable pub project_all : List String → Tx (Unit {0})
  project_all [] s = (ok tt, s)
  project_all (id ∷ ids) s = (do project id; λ s'. project_all ids s') s

  abbrev select_streams : Tx (List String)
  select_streams s = (ok (distinct_streams (view s).events), s)

  -- The rows that the statement sees.
  abbrev delete_all : Tx (Unit {0})
  delete_all s = (
    ok tt,
    write (clear_availability (map (λ (r : AvailabilityRow). r.seat_id) (view s).availability) ∷ [])
        s,
  )

  unfoldable pub rebuild : Tx (Unit {0})
  rebuild = with_tx env (do
    ids ← annotate "inventory: project" (statement env select_streams)
    annotate "inventory: project" (statement env delete_all)
    project_all ids)

-- `availabilitySQL`: the row of the seat, `seat_id` being the key.
unfoldable pub find_row : String → List AvailabilityRow → Option AvailabilityRow
find_row seat [] = none
find_row seat (r ∷ rows) = if r.seat_id == seat then some r else find_row seat rows

abbrev with_status : AvailabilityRow → Result Status → Result (Option Availability)
with_status r (err e) = err e
with_status r (ok status) = ok (
    some (record {
      seat_id = r.seat_id;
      status = status;
      hold_id = r.hold_id;
      booking_id = r.booking_id;
      expires_at = expires_at_of r.expires_at;
      version = r.version;
    }))

-- What `LoadAvailability` makes of the row that it finds; `none` is its `false`.
unfoldable pub read_availability : Option AvailabilityRow → Result (Option Availability)
unfolding parse_status expires_at_of
read_availability none = ok none
read_availability (some r) = with_status r (parse_status r.status)

module _ (env : Environment) where
  abbrev select_row : String → Tx (Option AvailabilityRow)
  select_row seat s = (ok (find_row seat s.committed.availability), s)

  unfoldable pub load_availability : String → Tx (Option Availability)
  load_availability seat = do
    row ← annotate "inventory: project" (statement env (select_row seat))
    lift (read_availability row)

  -- `HeldSeats`, with SQL's LIKE and its order on texts for parameters.
  module _ (like : String → String → Bool) (sort_text : List String → List String) where
    abbrev select_held : String → Tx (List String)
    select_held prefix s = (
      ok (
          sort_text (
            map (λ (r : AvailabilityRow). r.seat_id)
              (keep
                (λ (r : AvailabilityRow).
                  r.status == status_string held && like r.seat_id (concat prefix "%"))
                s.committed.availability))),
      s,
    )

    unfoldable pub held_seats : String → Tx (List String)
    held_seats prefix s = annotate "inventory: project" (statement env (select_held prefix)) s
