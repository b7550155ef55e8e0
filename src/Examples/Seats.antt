-- ===== src/Examples/Seats.antt =====
-- The theorems on seats and on the command handler, at concrete inputs.
use sagaflow.Base.{
  ◌++◌, ◌≡◌, ◌≤◌, ◌+◌, refl, false, none, List, [], ◌∷◌, length, keep, ◌⊎◌, any, ℕ, nat_eq,
  Bool-cases, inl, inr, true, subst, sym, ◌∙◌, All, suc, if◌then◌else◌,
}
use sagaflow.Errors.{Result, ok, err, message, ok-injective}
use sagaflow.Contracts.{
  ProtoMessage, hold_seat, release_seat_hold, seat_held, seat_hold_released, seat_hold_expired,
  seat_unavailable,
}
use sagaflow.Database.{Bytes, stream_of, consumed, Write}
use sagaflow.Session.Quiet.{IsOrdered}
use sagaflow.Seat.{
  SeatState, zero_seat, target_seat, messages, holds, hold, release, expire, decide, announce, fold,
  fold_from, Outcome,
}
use sagaflow.Seat.Lock.{
  Request, command, deadline, holder, lock_step, answer, settle, answer-refines,
}
use sagaflow.Seat.History.{IsExclusive, log_of, final, log_of-IsExclusive}
use sagaflow.Seat.Retry.{decide-answers, hold-again, release-again, release-expire_comm}
use sagaflow.Session.{Session, Environment}
use sagaflow.Inventory.Commands.{handle, apply_command, consumer_name, Deps}
use sagaflow.Inventory.Commands.Writes.{Written, apply_command-Written}
use sagaflow.Inventory.Commands.Linear.{handle-Ended}
use sagaflow.Inventory.Commands.Ending.{Ended, Committed}
use sagaflow.Inventory.Commands.Handling.{decide_for, meta_for}
use sagaflow.Inventory.Commands.Redelivered.{prunes_inbox}
use sagaflow.Inventory.Expiry.{expiry_meta, fire}
use sagaflow.Inventory.Expiry.Linear.{expire_for, fire_one-Ended}
use sagaflow.Codec.{no_meta}
use sagaflow.Inventory.Commands.Calm.{IsCalm, Encodes}
use sagaflow.Inventory.Commands.Completing.{handle_completes}
use sagaflow.Inventory.Commands.Loading.{read_seat}
use sagaflow.EventStore.Rows.{read_rows}
use sagaflow.Database.Order.{order_by}
use sagaflow.Inventory.Store.{decode_all}
use sagaflow.Examples.World.{
  lossy_json, timestamps, hold_request, release_request, deps, envelope, environment, connection,
}
use sagaflow.Inventory.Commands.Once.{handle_once}
use sagaflow.Inventory.Commands.Noting.{notes_message, on_inbox}
use sagaflow.Session.Repeated.{Covered}
use sagaflow.Session.Repeated.Series.{has_writes, again_and_again}
use sagaflow.Timers
use sagaflow.Timers.Scheduler.{fire_one}

connection-IsOrdered : IsOrdered connection
unfolding stream_of keep
connection-IsOrdered = record { stored = λ id. tt; seen = λ id. tt }

handle-Ended_example :
    Ended deps
      (decide_for deps (hold_seat hold_request))
      (meta_for envelope)
      "A1"
      connection
      (handle deps envelope (hold_seat hold_request) connection)
unfolding target_seat
handle-Ended_example =
    handle-Ended deps envelope (hold_seat hold_request) "A1" connection connection-IsOrdered refl
      refl

no_prune : (k : ℕ) → any prunes_inbox (environment.others k) ≡ false
unfolding any
no_prune k = elim (Bool-cases (nat_eq k 3)) [ inl y ↦ rw y refl | inr n ↦ rw n refl ]

handle_once_example :
    let t =
      again_and_again 2 (λ u. (handle deps envelope (hold_seat hold_request) u).1) connection in
    (new : List (List Write)) × (t.log ≡ [] ++ new)
    × All (Covered (notes_message envelope) on_inbox prunes_inbox) new
    × (length (keep has_writes new) ≤ 1)
handle_once_example = handle_once deps envelope no_prune (hold_seat hold_request) 2 connection refl

-- The four events are the messages that the topic's serde has registered.
abbrev frame_event : ProtoMessage → Result Bytes
frame_event (seat_held m) = ok (0 ∷ 1 ∷ [])
frame_event (seat_hold_released m) = ok (0 ∷ 2 ∷ [])
frame_event (seat_hold_expired m) = ok (0 ∷ 3 ∷ [])
frame_event (seat_unavailable m) = ok (0 ∷ 4 ∷ [])
frame_event _ = err (message "not registered")

abbrev calm_deps : Deps
calm_deps = record deps { frame = frame_event; env = record environment { others = λ k. [] } }

calm_deps-IsCalm : IsCalm calm_deps
calm_deps-IsCalm = record {
  answered = λ k. refl;
  alone = λ k. refl;
  marshals_meta = λ m. (1 ∷ [], refl);
  marshals_headers = λ h. (123 ∷ 125 ∷ [], refl);
}

abbrev granted : Outcome
granted = hold timestamps zero_seat hold_request

granted-decide : decide timestamps zero_seat (hold_seat hold_request) ≡ ok granted
unfolding decide
granted-decide = refl

granted-Encodes : Encodes calm_deps granted
unfolding hold messages
granted-Encodes = record { stores = ((1, [], refl), tt); frames = ((0, 1 ∷ [], refl), tt) }

decided-Encodes :
    (o : Outcome)
    → decide timestamps zero_seat (hold_seat hold_request) ≡ ok o
    → Encodes calm_deps o
decided-Encodes o h =
    subst (Encodes calm_deps) (ok-injective (sym granted-decide ∙ h)) granted-Encodes

reads_new_seat : read_seat lossy_json timestamps [] ≡ ok (zero_seat, no_meta)
unfolding read_seat read_rows order_by decode_all fold fold_from
reads_new_seat = refl

handle_completes_example :
    let p = handle calm_deps envelope (hold_seat hold_request) connection in
    (p.0 ≡ ok tt)
    × Committed calm_deps
        (decide_for calm_deps (hold_seat hold_request))
        (meta_for envelope)
        "A1"
        connection
        p.1
unfolding stream_of keep target_seat
handle_completes_example =
    handle_completes calm_deps calm_deps-IsCalm envelope refl refl (hold_seat hold_request) "A1"
      refl refl zero_seat no_meta decided-Encodes connection connection-IsOrdered refl
      reads_new_seat

abbrev due_timer : Timers.Timer
due_timer = record { id = 1; fire_at = 60; subject = "A1"; token = "h0" }

fire_one-Ended_example :
    Ended deps
      (expire_for due_timer)
      expiry_meta
      "A1"
      connection
      (fire_one environment (fire deps) due_timer connection)
fire_one-Ended_example = fire_one-Ended deps due_timer connection connection-IsOrdered refl

abbrev held_seat : SeatState
held_seat = settle timestamps zero_seat granted

abbrev life : List Request
life =
    command (hold_seat hold_request)
    ∷ command (release_seat_hold release_request)
    ∷ deadline "A1" "h1"
    ∷ []

granted-answer : answer timestamps zero_seat (command (hold_seat hold_request)) ≡ ok granted
unfolding answer
granted-answer = refl

answer-refines_example :
    (fold_from timestamps zero_seat granted.events ≡ ok held_seat)
    × (holder held_seat
        ≡ lock_step timestamps (holder zero_seat) (command (hold_seat hold_request)))
    × (held_seat.version ≡ zero_seat.version + length granted.events)
answer-refines_example =
    answer-refines timestamps zero_seat (command (hold_seat hold_request)) granted granted-answer

log_of-IsExclusive_example :
    IsExclusive none (log_of timestamps zero_seat life)
    × (fold timestamps (log_of timestamps zero_seat life) ≡ ok (final timestamps zero_seat life))
log_of-IsExclusive_example = log_of-IsExclusive timestamps life

decide-answers_example :
    (length (messages granted) ≡ 1)
    × (length granted.timers ≤ length granted.events)
    × ((granted.timers ≡ []) ⊎ (holder zero_seat ≡ none))
decide-answers_example =
    decide-answers timestamps zero_seat (hold_seat hold_request) granted granted-decide

hold-again_example :
    let o = hold timestamps held_seat hold_request in
    (o.events ≡ [])
    × (o.timers ≡ [])
    × (o.replies ≡ seat_held (announce timestamps held_seat "A1") ∷ [])
    × (holder
          (settle timestamps held_seat (record { events = o.replies; replies = []; timers = [] }))
        ≡ holder held_seat)
hold-again_example = hold-again timestamps zero_seat hold_request refl

release-again_example :
    let s = settle timestamps held_seat (release held_seat release_request) in
    (messages (release s release_request) ≡ messages (release held_seat release_request))
    × ((release s release_request).events ≡ [])
    × (holds s "h1" ≡ false)
release-again_example = release-again timestamps held_seat release_request

release-expire_comm_example :
    let released = settle timestamps held_seat (release held_seat release_request) in
    let expired = settle timestamps held_seat (expire held_seat "A1" "h1") in
    let both = settle timestamps released (expire released "A1" "h1") in
    (both ≡ settle timestamps expired (release expired release_request))
    × ((expire released "A1" "h1").events ≡ [])
    × ((release expired release_request).events ≡ [])
    × (if holds held_seat "h1"
        then (holder both ≡ none) × (both.version ≡ suc held_seat.version)
        else both ≡ held_seat)
release-expire_comm_example = release-expire_comm timestamps held_seat release_request "A1"

abbrev after_body : Session
after_body = (apply_command deps envelope (hold_seat hold_request) "A1" connection).1

body_succeeds :
    apply_command deps envelope (hold_seat hold_request) "A1" connection ≡ (ok tt, after_body)
unfolding apply_command sagaflow.Inventory.Store.load_seat sagaflow.EventStore.load
    sagaflow.Session.statement sagaflow.EventStore.Rows.read_rows sagaflow.Database.Order.order_by
    stream_of keep sagaflow.Database.perform_all sagaflow.Session.arrive sagaflow.Session.admit_all
    sagaflow.Inventory.Store.decode_all fold fold_from decide sagaflow.Inventory.Store.append_seat
    sagaflow.Inventory.Store.encode_all sagaflow.Codec.encode sagaflow.Base.any
    sagaflow.Codec.type_name sagaflow.Database.perform sagaflow.Envelope.headers
    sagaflow.Envelope.validate sagaflow.EventStore.Rows.columns sagaflow.EventStore.Rows.rows_from
    sagaflow.EventStore.Rows.validate sagaflow.EventStore.append sagaflow.EventStore.insert_rows
    sagaflow.EventStore.translate sagaflow.Inventory.Commands.outgoing
    sagaflow.Inventory.Commands.schedule_timers sagaflow.Inventory.Commands.wrap_message
    sagaflow.Outbox.enqueue sagaflow.Outbox.insert_messages sagaflow.Outbox.rows_from hold messages
    sagaflow.Session.admissible sagaflow.Session.annotate sagaflow.Session.draw
    sagaflow.Timers.schedule
body_succeeds = refl

apply_command-Written_example :
    Written deps envelope (hold_seat hold_request) "A1" [] after_body.pending
apply_command-Written_example =
    apply_command-Written deps envelope (hold_seat hold_request) "A1" connection after_body
      body_succeeds
