-- ===== src/Inventory/Commands.antt =====
-- internal/inventory/commands.go: one command, one seat, one transaction.
pub mod Quiet
pub mod Growing
pub mod Loading
pub mod Decided
pub mod Appending
pub mod Keeping
pub mod Failing
pub mod Running
pub mod Handling
pub mod Ending
pub mod Linear
pub mod Redelivered
pub mod Noting
pub mod Once
pub mod Calm
pub mod Completing
pub mod Steps
pub mod Writes
use sagaflow.Base.{
  ℕ, zero, suc, String, ◌≡◌, Bool, true, false, Option, none, some, List, [], ◌∷◌, if◌then◌else◌,
}
use sagaflow.Errors.{Error, Result, ok, err, wrap, version_conflict, errors_is}
use sagaflow.Contracts.{ProtoMessage, Timestamps}
use sagaflow.Envelope.{Envelope, Message, headers}
use sagaflow.Database.{Bytes}
use sagaflow.Session.{Session, Environment, Tx, pure, lift, ◌>>=◌, ◌>>◌, draw, with_tx, in_context}
use sagaflow.Codec.{Meta, Json, type_name}
use sagaflow.Inbox.{mark_consumed}
use sagaflow.Outbox.{HeaderJson, enqueue}
use sagaflow.Timers.{schedule}
use sagaflow.Seat.{SeatState, Outcome, Timer, messages, decide, target_seat}
use sagaflow.Inventory.Store.{load_seat, append_seat}

abbrev pub commands_topic : String
commands_topic = "inventory.commands"

abbrev pub events_topic : String
events_topic = "inventory.events"

abbrev pub source_name : String
source_name = "/sagaflow/inventory"

abbrev pub consumer_name : String
consumer_name = "inventory.commands"

abbrev pub conflict_retries : ℕ
conflict_retries = 3

-- What the handler is built from and calls: `frame` is its `Encoder`.
pub record Deps : Type 0 where
  pub timestamps : Timestamps
  pub json : Json
  pub header_json : HeaderJson
  pub frame : ProtoMessage → Result Bytes
  pub env : Environment

abbrev pub reply_template : Envelope → String → Envelope
reply_template incoming seat = record {
  id = "";
  source = source_name;
  type_name = "";
  subject = seat;
  correlation_id = incoming.correlation_id;
  causation_id = incoming.id;
  trace_parent = incoming.trace_parent;
}

abbrev pub command_meta : Envelope → Meta
command_meta incoming = record {
  trace_id = "";
  correlation_id = incoming.correlation_id;
  causation_id = incoming.id;
}

abbrev pub is_conflict : {A : Type 0} → Result A → Bool
is_conflict (ok a) = false
is_conflict (err e) = errors_is e version_conflict

module _ (d : Deps) where
  open d use {timestamps, json, header_json, frame, env}

  unfoldable pub schedule_timers : String → List Timer → Tx (Unit {0})
  schedule_timers seat [] s = (ok tt, s)
  schedule_timers seat (t ∷ ts) s =
      (do schedule env t.fire_at seat t.token; λ s'. schedule_timers seat ts s') s

  -- The envelope of one message: the template's, but for the id and the type.
  abbrev stamped : Envelope → String → ProtoMessage → Envelope
  stamped tmpl id m = record tmpl { id = id; type_name = type_name m }

  -- The body of the loop of `outgoing`.
  unfoldable pub wrap_message : Envelope → ProtoMessage → Tx Message
  wrap_message tmpl m = do
    payload ← lift (in_context "inventory: frame" (frame m))
    n ← draw
    pure (record {
      topic = events_topic;
      key = tmpl.subject;
      payload = payload;
      headers = headers (stamped tmpl (env.uuid n) m);
    })

  unfoldable pub outgoing : Envelope → List ProtoMessage → Tx (List Message)
  outgoing tmpl [] s = (ok [], s)
  outgoing tmpl (m ∷ ms) s =
      (do out ← wrap_message tmpl m; rest ← (λ s'. outgoing tmpl ms s'); pure (out ∷ rest)) s

  -- The transaction's body after the inbox.
  unfoldable pub apply_command : Envelope → ProtoMessage → String → Tx (Unit {0})
  apply_command incoming cmd seat = do
    (state, last) ← load_seat json timestamps env seat
    decision ← lift (decide timestamps state cmd)
    append_seat json env seat state.version decision.events (command_meta incoming)
    schedule_timers seat decision.timers
    msgs ← outgoing (reply_template incoming seat) (messages decision)
    enqueue header_json env msgs

  unfoldable pub consume_command : Envelope → ProtoMessage → String → Tx (Unit {0})
  consume_command incoming cmd seat = do
    first ← mark_consumed env consumer_name incoming.source incoming.id
    if first then apply_command incoming cmd seat else pure tt

  unfoldable pub apply_in_one_transaction : Envelope → ProtoMessage → Tx (Unit {0})
  apply_in_one_transaction incoming cmd = do
    seat ← lift (target_seat cmd)
    with_tx env (consume_command incoming cmd seat)

  -- The loop of `Handle`: `left` tries follow this one.
  unfoldable pub handle_from : ℕ → Envelope → ProtoMessage → Tx (Unit {0})
  handle_from zero incoming cmd s =
      let (r, s') = apply_in_one_transaction incoming cmd s in
      (if is_conflict r then in_context "inventory: after retries" r else r, s')
  handle_from (suc left) incoming cmd s =
      let (r, s') = apply_in_one_transaction incoming cmd s in
      elim (is_conflict r) [ true ↦ handle_from left incoming cmd s' | false ↦ (r, s') ]

  unfoldable pub handle : Envelope → ProtoMessage → Tx (Unit {0})
  handle = handle_from conflict_retries
