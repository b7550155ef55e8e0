-- ===== src/Examples/Services.antt =====
-- The theorems on the projection, the timers and the service, at concrete inputs.
use sagaflow.Base.{◌≡◌, refl, nat_eq, if◌then◌else◌, some, List, [], ◌∷◌, any, arith, keep}
use sagaflow.Errors.{Result, ok, err, message, sentinel, canceled}
use sagaflow.Database.{
  to_microseconds, upsert_row, upsert_availability, perform_all, perform, stream_of,
}
use sagaflow.EventStore.{distinct_streams, load}
use sagaflow.Seat.{SeatState, free, held, fold, fold_from, apply, status_string}
use sagaflow.Inventory.Projection.{
  availability_row, read_availability, find_row, rebuild, project_all, project, deadline,
}
use sagaflow.Inventory.Projection.View.{read_availability-row, upsert_row-either_order}
use sagaflow.Inventory.Service.{Loop, outbox_poller, timer_scheduler, run}
use sagaflow.Inventory.Service.Ends.{first_failure, run-first_failure}
use sagaflow.Session.{
  Session, Environment, with_tx, begin, statement, annotate, commit, arrive, admit_all, admissible,
}
use sagaflow.Inventory.Projection.Derived.{IsDerived}
use sagaflow.Inventory.Projection.Rebuilt.{rebuild_derives}
use sagaflow.Inventory.Store.{load_seat, decode_all}
use sagaflow.EventStore.Rows.{read_rows, read_row}
use sagaflow.Database.Order.{order_by, insert_by}
use sagaflow.Codec.{decode}
use sagaflow.Examples.World.{connection, empty_tables, rival, lossy_json, timestamps, environment}

abbrev ends : List (Loop × Result (Unit {0}))
ends =
    (outbox_poller, err (sentinel canceled))
    ∷ (timer_scheduler, err (message "connection lost"))
    ∷ []

run-first_failure_example : run ends ≡ first_failure ends
run-first_failure_example = run-first_failure ends

abbrev held_state : SeatState
held_state = record {
  version = 3;
  status = held;
  hold_id = "h1";
  booking_id = "b1";
  expires_at = 60789;
}

abbrev freed_state : SeatState
freed_state = record { version = 4; status = free; hold_id = ""; booking_id = ""; expires_at = 0 }

read_availability-row_example :
    read_availability (some (availability_row "A1" held_state))
    ≡ ok (
        some (record {
          seat_id = "A1";
          status = held;
          hold_id = "h1";
          booking_id = "b1";
          expires_at = 60000;
          version = 3;
        }))
read_availability-row_example = read_availability-row "A1" held_state

upsert_row-either_order_example :
    let a = availability_row "A1" held_state in
    let b = availability_row "A1" freed_state in
    find_row "A1" (upsert_row a (upsert_row b [])) ≡ find_row "A1" (upsert_row b (upsert_row a []))
upsert_row-either_order_example =
    upsert_row-either_order (availability_row "A1" held_state) (availability_row "A1" freed_state)
      [] refl (λ e. omega (arith, e))

abbrev one_event : Session
one_event = record connection { committed = record empty_tables { events = rival ∷ [] } }

-- Another transaction projects the seat between the delete and the loop, from a stream that is further on.
abbrev overlapping : Environment
overlapping = record environment {
  others =
      λ n. if nat_eq n 3 then upsert_availability (availability_row "A1" held_state) ∷ [] else [];
}

abbrev after_rebuild : Session
after_rebuild = (rebuild lossy_json timestamps overlapping one_event).1

rebuilds : rebuild lossy_json timestamps overlapping one_event ≡ (ok tt, after_rebuild)
unfolding rebuild with_tx begin statement annotate commit project_all distinct_streams perform_all
    arrive admit_all any project load_seat load read_rows order_by stream_of keep perform decode_all
    decode fold insert_by upsert_row read_row deadline to_microseconds apply fold_from status_string
    admissible
rebuilds = refl

rebuild_derives_example :
    IsDerived lossy_json timestamps overlapping "A1"
      (rival ∷ [])
      after_rebuild.committed.events
      (find_row "A1" after_rebuild.committed.availability)
rebuild_derives_example =
    rebuild_derives lossy_json timestamps overlapping one_event after_rebuild rebuilds "A1"
