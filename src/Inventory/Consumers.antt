-- ===== src/Inventory/Consumers.antt =====
-- internal/inventory/consumers.go: the handlers of the two consumer groups, and which of their
-- failures are permanent.
pub mod Resting
pub mod Permanence
pub mod Once
use sagaflow.Base.{String, ◌≡◌, Bool, true, false, List, [], ◌∷◌, ◌==◌, if◌then◌else◌}
use sagaflow.Errors.{
  Error, Result, ok, err, wrap, join, sentinel, permanent, unknown_command, errors_is,
}
use sagaflow.Contracts.{ProtoMessage}
use sagaflow.Envelope.{Envelope, parse}
use sagaflow.Database.{Bytes}
use sagaflow.Session.{Session, Tx, lift, ◌>>=◌, ◌>>◌}
use sagaflow.Kafka.Wire.{Record}
use sagaflow.Kafka.Consumer.{Runtime, Fetch}
use sagaflow.Inventory.Commands.{Deps, handle}
use sagaflow.Inventory.Projection.{project_in_tx}

-- `fmt.Errorf("%w: %v", kafka.ErrPermanent, err)`: the cause is kept as text only.
unfoldable pub as_permanent {ℓ} : {A : Type ℓ} → Result A → Result A
as_permanent (ok a) = ok a
as_permanent (err e) = err (wrap "permanent" (sentinel permanent))

-- What `Commands` returns for what `Handle` returned.
unfoldable pub classify : Result (Unit {0}) → Result (Unit {0})
classify (ok u) = ok u
classify (err e) = if errors_is e unknown_command then err (join (sentinel permanent) e) else err e

module _ (d : Deps) (unframe : Bytes → Result ProtoMessage) where
  abbrev apply_record : Envelope → ProtoMessage → Tx (Unit {0})
  apply_record incoming cmd s = let (r, s') = handle d incoming cmd s in (classify r, s')

  unfoldable pub commands : Record → Tx (Unit {0})
  commands r = do
    incoming ← lift (as_permanent (parse r.headers))
    cmd ← lift (as_permanent (unframe r.value))
    apply_record incoming cmd

module _ (d : Deps) where
  abbrev project_subject : Envelope → Tx (Unit {0})
  project_subject incoming s =
      if incoming.subject == ""
      then (err (wrap "names no seat in ce_subject" (sentinel permanent)), s)
      else project_in_tx d.json d.timestamps d.env incoming.subject s

  unfoldable pub projections : Record → Tx (Unit {0})
  projections r = do incoming ← lift (as_permanent (parse r.headers)); project_subject incoming

-- The poll, for a consumer with a connection.
abbrev pub beside : {W : Type 0} → Fetch W → Fetch (Session × W)
beside f = record {
  closed = f.closed;
  records = f.records;
  meanwhile = λ (s, w). (s, f.meanwhile w);
}

-- The runtime of a consumer whose handler works on a connection, which what else the consumer calls
-- does not.
abbrev with_connection : {W : Type 0} → (Record → Tx (Unit {0})) → Runtime W → Runtime (Session × W)
with_connection handler rt = record {
  handler = λ r (s, w). let (result, s') = handler r s in (result, (s', w));
  produce_sync = λ rs (s, w). let (result, w') = rt.produce_sync rs w in (result, (s, w'));
  map_walk = rt.map_walk;
  cancelled = λ (s, w). rt.cancelled w;
  random = λ n (s, w). let (m, w') = rt.random n w in (m, (s, w'));
  interrupted = λ n (s, w). let (stop, w') = rt.interrupted n w in (stop, (s, w'));
  error_text = rt.error_text;
  itoa = rt.itoa;
}

abbrev pub commands_runtime :
    {W : Type 0} → Deps → (Bytes → Result ProtoMessage) → Runtime W → Runtime (Session × W)
commands_runtime d unframe rt = with_connection (commands d unframe) rt

abbrev pub projections_runtime : {W : Type 0} → Deps → Runtime W → Runtime (Session × W)
projections_runtime d rt = with_connection (projections d) rt
