-- ===== src/Schemactl.antt =====
-- cmd/schemactl/main.go: registering the schemas of the messages.
pub mod Ready
use sagaflow.Base.{String, List, [], ◌∷◌, none}
use sagaflow.Errors.{Result, ok}
use sagaflow.Contracts.{
  ProtoMessage, hold_seat, release_seat_hold, seat_held, seat_hold_released, seat_hold_expired,
  seat_unavailable,
}
use sagaflow.Codec.{type_name}
use sagaflow.Io.{Io, pure, annotate, ◌>>=◌, ◌>>◌}
use sagaflow.Schema.{Registry, subject, ensure_backward_compatibility}

-- The empty messages: `&inventoryv1.HoldSeat{}` and the others.
abbrev pub new_hold_seat : ProtoMessage
new_hold_seat =
    hold_seat (record { hold_id = ""; booking_id = ""; seat_id = ""; expires_at = none })

abbrev pub new_release_seat_hold : ProtoMessage
new_release_seat_hold =
    release_seat_hold (record { hold_id = ""; booking_id = ""; seat_id = ""; reason = "" })

abbrev pub new_seat_held : ProtoMessage
new_seat_held =
    seat_held (record { hold_id = ""; booking_id = ""; seat_id = ""; expires_at = none })

abbrev pub new_seat_hold_released : ProtoMessage
new_seat_hold_released =
    seat_hold_released (record { hold_id = ""; booking_id = ""; seat_id = ""; reason = "" })

abbrev pub new_seat_hold_expired : ProtoMessage
new_seat_hold_expired = seat_hold_expired (record { hold_id = ""; booking_id = ""; seat_id = "" })

abbrev pub new_seat_unavailable : ProtoMessage
new_seat_unavailable =
    seat_unavailable (record { hold_id = ""; booking_id = ""; seat_id = ""; reason = "" })

pub record Binding : Type 0 where
  pub topic : String
  pub file : String
  pub msg : ProtoMessage

abbrev bind : String → String → ProtoMessage → Binding
bind topic file msg = record { topic = topic; file = file; msg = msg }

abbrev pub bindings : List Binding
bindings =
    bind "inventory.commands" "proto/sagaflow/inventory/v1/hold_seat.proto" new_hold_seat
    ∷ bind "inventory.commands" "proto/sagaflow/inventory/v1/release_seat_hold.proto"
        new_release_seat_hold
    ∷ bind "inventory.events" "proto/sagaflow/inventory/v1/seat_held.proto" new_seat_held
    ∷ bind "inventory.events" "proto/sagaflow/inventory/v1/seat_hold_released.proto"
        new_seat_hold_released
    ∷ bind "inventory.events" "proto/sagaflow/inventory/v1/seat_hold_expired.proto"
        new_seat_hold_expired
    ∷ bind "inventory.events" "proto/sagaflow/inventory/v1/seat_unavailable.proto"
        new_seat_unavailable
    ∷ []

module _ {S : Type 0} (registry : Registry S) (new_client : String → Io S (Unit {0}))
    (read_file : String → Io S String) where
  unfoldable pub register : Binding → Io S (Unit {0})
  unfolding subject
  register b = do
    text ← annotate "read" (read_file b.file)
    id ← annotate "register" (registry.create_schema (subject b.topic (type_name b.msg)) text)
    pure tt

  -- The loop of `run`.
  unfoldable pub register_bindings : List Binding → Io S (Unit {0})
  register_bindings [] w = (ok tt, w)
  register_bindings (b ∷ bs) w = (do register b; λ w'. register_bindings bs w') w

  unfoldable pub run : String → Io S (Unit {0})
  run url = do
    annotate "sr client" (new_client url)
    ensure_backward_compatibility registry
    register_bindings bindings
