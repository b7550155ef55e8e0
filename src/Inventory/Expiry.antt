-- ===== src/Inventory/Expiry.antt =====
-- internal/inventory/expiry.go: freeing holds whose deadlines have passed.
pub mod Linear
pub mod Claiming
pub mod Once
pub mod Scheduled
pub mod Resting
use sagaflow.Base.{String, List, [], ◌∷◌}
use sagaflow.Contracts.{ProtoMessage}
use sagaflow.Envelope.{Envelope}
use sagaflow.Session.{Tx, pure, ◌>>=◌, ◌>>◌}
use sagaflow.Codec.{Meta}
use sagaflow.Outbox.{enqueue}
use sagaflow.Timers.{Timer}
use sagaflow.Seat.{SeatState, Outcome, messages, expire}
use sagaflow.Inventory.Store.{load_seat, append_seat}
use sagaflow.Inventory.Commands.{Deps, source_name, outgoing}

abbrev pub expiry_meta : Meta → Meta
expiry_meta origin = record {
  trace_id = "";
  correlation_id = origin.correlation_id;
  causation_id = "";
}

abbrev pub expiry_template : Meta → String → Envelope
expiry_template origin seat = record {
  id = "";
  source = source_name;
  type_name = "";
  subject = seat;
  correlation_id = origin.correlation_id;
  causation_id = "";
  trace_parent = "";
}

module _ (d : Deps) where
  open d use {timestamps, json, header_json, env}

  -- `Fire` once its decision has events.
  unfoldable pub publish_expiry : Timer → SeatState → Meta → Outcome → Tx (Unit {0})
  publish_expiry t state origin decision = do
    append_seat json env t.subject state.version decision.events (expiry_meta origin)
    msgs ← outgoing d (expiry_template origin t.subject) (messages decision)
    enqueue header_json env msgs

  abbrev pub unless_nothing : List ProtoMessage → Tx (Unit {0}) → Tx (Unit {0})
  unless_nothing [] m = pure tt
  unless_nothing (e ∷ es) m = m

  unfoldable pub fire : Timer → Tx (Unit {0})
  fire t = do
    (state, origin) ← load_seat json timestamps env t.subject
    let decision = expire state t.subject t.token
    unless_nothing decision.events (publish_expiry t state origin decision)
