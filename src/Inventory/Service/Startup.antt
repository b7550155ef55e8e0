-- ===== src/Inventory/Service/Startup.antt =====
-- internal/inventory/wire.go: building the service and closing it, and cmd/inventory/main.go's `run`.
pub mod Leaks
pub mod Closing
use sagaflow.Base.{ℕ, String, Bool, true, false, Option, none, some, List, [], ◌∷◌, if◌then◌else◌}
use Prim.Native.String.{◌++◌ as concat}
use sagaflow.Errors.{Error, Result, ok, err, wrap}
use sagaflow.Contracts.{ProtoMessage}
use sagaflow.Io.{Io, annotate, ◌>>=◌, ◌>>◌, continue}
use sagaflow.Process.{
  Drivers, Process, new_registry_client, on_world, drop_pool, drop_producer, drop_consumer,
}
use sagaflow.Pg.{open_pool, migrate}
use sagaflow.Kafka.Admin.{partition_count, ensure_topics, new_producer, open_consumer}
use sagaflow.Kafka.Consumer.{ConsumerConfig}
use sagaflow.Schema.{Registry, Serde, new_topic_serde}
use sagaflow.Schemactl.{
  new_hold_seat, new_release_seat_hold, new_seat_held, new_seat_hold_released,
  new_seat_hold_expired, new_seat_unavailable,
}
use sagaflow.Inventory.Commands.{commands_topic, events_topic, consumer_name}
use sagaflow.Inventory.Service.{Loop, run}

pub record Config : Type 0 where
  pub dsn : String
  pub brokers : List String
  pub registry : String

abbrev pub replication : ℕ
replication = 1

abbrev pub projection_consumer : String
projection_consumer = "inventory.projection"

abbrev pub service_topics : List String
service_topics =
    commands_topic ∷ concat commands_topic ".dlq" ∷ events_topic ∷ concat events_topic ".dlq" ∷ []

abbrev pub command_prototypes : List ProtoMessage
command_prototypes = new_hold_seat ∷ new_release_seat_hold ∷ []

abbrev pub event_prototypes : List ProtoMessage
event_prototypes =
    new_seat_held ∷ new_seat_hold_released ∷ new_seat_hold_expired ∷ new_seat_unavailable ∷ []

-- The fields of the service that are not nil. The poller and the scheduler hold nothing of their own.
pub record Service : Type 0 where
  pub has_pool : Bool
  pub has_producer : Bool
  pub commands : Option ConsumerConfig
  pub events : Option ConsumerConfig

abbrev pub no_service : Service
no_service = record { has_pool = false; has_producer = false; commands = none; events = none }

-- The process and the service that is being built.
pub record Building (S : Type 0) : Type 0 where
  pub process : Process S
  pub service : Service

-- The config of a consumer of this service: `MaxAttempts` and `BaseBackoff` are left out.
abbrev pub consumer_of : String → ConsumerConfig
consumer_of group = record {
  has_handler = true;
  group = group;
  has_dlq = true;
  max_attempts = 0;
  base_backoff = 0;
}

abbrev pub failure : Option Error → Result (Unit {0})
failure none = ok tt
failure (some e) = err e

module _ {S : Type 0} where
  abbrev pub on_process : {A : Type 0} → Io (Process S) A → Io (Building S) A
  on_process m b = let (r, p) = m b.process in (r, record b { process = p })

  abbrev pub set_producer : Io (Building S) (Unit {0})
  set_producer b = (ok tt, record b { service = record (b.service) { has_producer = true } })

  abbrev pub set_commands : ConsumerConfig → Io (Building S) (Unit {0})
  set_commands cfg b = (ok tt, record b { service = record (b.service) { commands = some cfg } })

  abbrev pub set_events : ConsumerConfig → Io (Building S) (Unit {0})
  set_events cfg b = (ok tt, record b { service = record (b.service) { events = some cfg } })

  abbrev close_consumer : Option ConsumerConfig → Process S → Process S
  close_consumer none p = p
  close_consumer (some cfg) p = drop_consumer p

  -- `Close`: the consumers, then the producer, then the pool.
  unfoldable pub close : Service → Process S → Process S
  close s p =
      let p₂ = close_consumer s.events (close_consumer s.commands p) in
      let p₃ = if s.has_producer then drop_producer p₂ else p₂ in
      if s.has_pool then drop_pool p₃ else p₃

  abbrev pub close_if_failed : Result (Unit {0}) × Building S → Result Service × Process S
  close_if_failed (ok u, b) = (ok b.service, b.process)
  close_if_failed (err e, b) = (err e, close b.service b.process)

module _ {S : Type 0} (drivers : Drivers S) (registry : Registry S) where
  open drivers use {call}

  unfoldable pub serdes : String → Io S (Serde × Serde)
  serdes url = do
    annotate "inventory: schema registry client" (call (new_registry_client url))
    commands ← new_topic_serde registry commands_topic command_prototypes
    events ← new_topic_serde registry events_topic event_prototypes
    λ w. (ok (commands, events), w)

  unfoldable pub connect : Config → Io (Building S) (Unit {0})
  connect cfg = do
    made ← on_process (on_world (serdes cfg.registry))
    on_process (ensure_topics drivers cfg.brokers partition_count replication service_topics)
    on_process (new_producer drivers cfg.brokers)
    set_producer
    commands ← on_process (open_consumer drivers cfg.brokers (consumer_of consumer_name))
    set_commands commands
    events ← on_process (open_consumer drivers cfg.brokers (consumer_of projection_consumer))
    set_events events

  unfoldable pub new : Config → Io (Process S) Service
  new cfg = do
    migrate drivers cfg.dsn
    open_pool drivers cfg.dsn
    λ p.
        close_if_failed
          (connect cfg (record { process = p; service = record no_service { has_pool = true } }))

  -- `run` of cmd/inventory, given how the loops end: it closes the service on every way out.
  unfoldable pub run_command : Config → List (Loop × Result (Unit {0})) → Io (Process S) (Unit {0})
  run_command cfg ends = do service ← new cfg; λ p. (failure (run ends), close service p)
