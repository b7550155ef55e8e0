-- ===== src/Examples/Groups.antt =====
-- The theorems on a consumer group, at concrete inputs.
use sagaflow.Base.{
  ◌++◌, ◌≡◌, ◌≤◌, refl, false, List, [], ◌∷◌, length, keep, any, ℕ, nat_eq, Bool-cases, inl, inr,
  All, map, ◌⊎◌,
}
use sagaflow.Errors.{Error, Result, ok, err}
use sagaflow.Envelope.{Envelope, parse}
use sagaflow.Kafka.Wire.{to_record}
use sagaflow.Inventory.Commands.{handle}
use sagaflow.Inventory.Consumers.Permanence.{IsPermanentOnly, IsClassified, commands-IsClassified}
use sagaflow.Contracts.{ProtoMessage, hold_seat}
use sagaflow.Database.{Bytes, Write, stream_of}
use sagaflow.Session.{Session}
use sagaflow.Session.Resting.{IsAtRest}
use sagaflow.Session.Repeated.Series.{Calls, start, then_call}
use sagaflow.Outbox.Poller
use sagaflow.Timers.Scheduler
use sagaflow.Inventory.Expiry.{fire}
use sagaflow.Inventory.Service.Resting.{
  LoopRun, consumes_commands, polls_outbox, fires_timers, service_ordered,
}
use sagaflow.Kafka.Consumer.{Client, Fetch, run}
use sagaflow.Inventory.Commands.Redelivered.{prunes_inbox}
use sagaflow.Inventory.Consumers.{commands, commands_runtime, beside}
use sagaflow.Inventory.Consumers.Once.{Handled, notes, consumer_once}
use sagaflow.Examples.World.{
  header_json, Trace, runtime, config, new_trace, record_at, environment, deps, connection,
  hold_request, envelope,
}

-- The same command arrives twice.
abbrev fetches : List (Fetch Trace)
fetches =
    record { closed = false; records = record_at 0 ∷ record_at 1 ∷ []; meanwhile = λ t. t }
    ∷ record { closed = false; records = record_at 2 ∷ []; meanwhile = λ t. t }
    ∷ []

abbrev new_client : Client (Session × Trace)
new_client = record { world = (connection, new_trace); marks = []; rebalance_blocked = false }

abbrev unframe : Bytes → Result ProtoMessage
unframe b = ok (hold_seat hold_request)

no_prune : (k : ℕ) → any prunes_inbox (environment.others k) ≡ false
unfolding any
no_prune k = elim (Bool-cases (nat_eq k 3)) [ inl y ↦ rw y refl | inr n ↦ rw n refl ]

consumer_once_example :
    let t =
      (run
        (commands_runtime deps unframe runtime)
        config
        (map beside fetches)
        new_client).world.0 in
    (new : List (List Write)) × (t.log ≡ [] ++ new)
    × All Handled new
    × (length (keep (any (notes envelope.source envelope.id)) new) ≤ 1)
consumer_once_example =
    consumer_once deps unframe no_prune envelope.source envelope.id runtime config fetches
      new_client refl

connection-IsAtRest : IsAtRest connection
unfolding stream_of keep
connection-IsAtRest = record { ordered = λ id. tt; none_pending = refl }

-- The commands are consumed, then the outbox is polled and the timers are fired.
abbrev consumed_commands : Session
consumed_commands =
    (run (commands_runtime deps unframe runtime) config (map beside fetches) new_client).world.0

abbrev polled_outbox : Session
polled_outbox = Poller.lead header_json environment 2 (Poller.woken ∷ []) consumed_commands

abbrev loop_runs :
    Calls
      (LoopRun deps unframe runtime config)
      connection
      (Scheduler.run environment (fire deps) (Scheduler.elapsed ∷ []) polled_outbox)
loop_runs =
    then_call
      (then_call (then_call start (consumes_commands fetches new_client refl))
        (polls_outbox 2 (Poller.woken ∷ [])))
      (fires_timers (Scheduler.elapsed ∷ []))

service_ordered_example :
    IsAtRest (Scheduler.run environment (fire deps) (Scheduler.elapsed ∷ []) polled_outbox)
service_ordered_example = service_ordered deps unframe runtime config loop_runs connection-IsAtRest

commands-IsClassified_example :
    let r = to_record (record_at 1) in
    let (x, t) = commands deps unframe r connection in
    ((e : Error) × (parse r.headers ≡ err e) × (t ≡ connection) × IsPermanentOnly x)
    ⊎ ((incoming : Envelope) × (parse r.headers ≡ ok incoming)
        × (((e : Error) × (unframe r.value ≡ err e) × (t ≡ connection) × IsPermanentOnly x)
            ⊎ ((cmd : ProtoMessage) × (unframe r.value ≡ ok cmd)
                × (t ≡ (handle deps incoming cmd connection).1)
                × IsClassified (handle deps incoming cmd connection).0 x)))
commands-IsClassified_example =
    commands-IsClassified deps unframe (to_record (record_at 1)) connection
