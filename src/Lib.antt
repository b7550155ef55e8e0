-- ===== src/Lib.antt =====
-- Sagaflow: an inventory service that holds seats for bookings. It is event-sourced on Postgres and
-- speaks to its clients by Kafka messages.
--
-- How the parts interact. A Kafka consumer (internal/platform/kafka) takes a record, reads its envelope
-- (internal/platform/envelope) and hands the command to the handler (internal/inventory/commands.go).
-- The handler does everything in one transaction (internal/platform/pg): it notes the message in the
-- inbox (internal/platform/inbox), folds the seat's stream (internal/inventory/seat.go over
-- internal/platform/eventstore and internal/platform/codec), decides, appends the events, schedules the
-- deadline (internal/platform/timers) and leaves the answers in the outbox (internal/platform/outbox).
-- The outbox poller publishes what was committed; the timer scheduler fires deadlines, which
-- internal/inventory/expiry.go turns into events; internal/inventory/projection.go keeps a view of
-- the seats from the events; internal/inventory/wire.go runs the four loops.
-- cmd/schemactl registers the schemas of the messages (internal/platform/schema) before cmd/inventory
-- starts the service, which only looks them up.
--
-- The files, and what they model:
--   Base, Base/*           shared names, tests and lists; an int64
--   Errors                 Go's error values and errors.Is; ErrUnknownEvent, ErrVersionConflict, …
--   Contracts              contracts/sagaflow/inventory/v1: the messages; time.Time and timestamppb
--   Envelope, Envelope/*   internal/platform/envelope/envelope.go
--   Kafka/Wire             internal/platform/kafka/producer.go, and toRecord of consumer.go
--   Kafka/Consumer, */     internal/platform/kafka/consumer.go
--   Seat, Seat/*           internal/inventory/seat.go, and the lock that it implements
--   Database, Database/*   the tables, as internal/inventory/migrations makes them, and the statements
--   Session, Session/*     a connection under READ COMMITTED; WithTx of internal/platform/pg/pg.go
--   Codec                  internal/platform/codec/codec.go
--   EventStore, */         internal/platform/eventstore
--   Inbox                  internal/platform/inbox/inbox.go
--   Outbox, Outbox/Poller, */ internal/platform/outbox/outbox.go and poller.go
--   Timers, Timers/*       internal/platform/timers/timers.go and scheduler.go
--   Inventory/Store        internal/inventory/store.go
--   Inventory/Commands, */ internal/inventory/commands.go, and what one handled command commits
--   Inventory/Expiry, */   internal/inventory/expiry.go, and what firing one timer commits
--   Inventory/Projection, */ internal/inventory/projection.go
--   Inventory/Consumers, */ internal/inventory/consumers.go, and the consumer built on it by connect of wire.go
--   Inventory/Service, */  internal/inventory/wire.go: Run, and what its loops do one after the other
--   Io, Io/Ends            Go code over the state of what it calls, and rules for how it ends
--   Process, Pg            what a process holds open; Open and Migrate of internal/platform/pg
--   Kafka/Admin            internal/platform/kafka/admin.go, NewProducer and NewConsumer's client
--   Schema, Schema/*       internal/platform/schema
--   Schemactl, */Ready     cmd/schemactl/main.go, and what it leaves for the service to find
--   Inventory/Service/Startup, */ New, connect, serdes and Close of wire.go; cmd/inventory/main.go
--   Examples, Examples/*   concrete runs
-- A Go function keeps its name, in small letters; what one loop or one branch does is a definition of
-- its own where a proof needs its name.
--
-- State. Code that talks to Postgres is a function of a Session: what is committed, what its
-- transaction has written, and a counter of statements. An Environment says for each statement
-- whether it fails, or takes effect and loses its answer, and what other transactions commit just
-- before it; those obey the unique indexes and the row locks. The consumer is a function of a Client
-- and of the state of everything that it calls.
--
-- Numbers. Versions, ids and times are natural numbers; times and durations are in nanoseconds. What is
-- written to a TIMESTAMPTZ column is cut to the microsecond. The seconds of a message's Timestamp and the
-- waits between two tries are int64: the shift and the sum of the backoff wrap round at 64 bits. A shifted
-- base that is not positive makes rand.Int64N panic, and a sum past 2^63 is a negative wait, which ends at once.
--
-- Loops. The tries of a record and of a command are recursion on the number of tries left, and the
-- poll loops go over the list of polls or wake-ups that happen. Only drainAll has fuel: each round
-- of it takes up to 100 rows that are pending, and the model reports whether the fuel ran out; one
-- round more than there are pending rows is enough while no other transaction writes to the outbox.
--
-- Parameters, with the laws of them that the proofs use: timestamppb, protojson and encoding/json, jsonb,
-- the order in which Go walks a map, rand.Int64N, LIKE and the order of texts of Postgres, the Kafka
-- client, the framing of the schema registry.
--
-- Not modelled: what the drivers do inside (pgx, tern, franz-go, its registry client), which are parameters
-- that may fail at every call; the goroutines of Run and of listen, whose wake-ups and ends are inputs;
-- main of both commands, which reads flags and the environment; generated code other than the messages'
-- fields; tests and what supports them. Only the constant part of an error's text is kept. Messages to
-- the log are left out.
mod Base
pub mod Errors
pub mod Io
pub mod Contracts
pub mod Envelope
pub mod Database
pub mod Session
pub mod Codec
pub mod EventStore
pub mod Inbox
pub mod Outbox
pub mod Timers
pub mod Schema
pub mod Schemactl
pub mod Process
pub mod Pg
pub mod Seat
pub mod Kafka
pub mod Inventory
mod Examples
