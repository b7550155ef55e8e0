-- ===== src/Examples/Envelopes.antt =====
-- The theorems on envelopes, records and stored events, at concrete inputs.
use sagaflow.Base.{◌≡◌, ◌↔◌, refl, [], ◌∷◌}
use sagaflow.Errors.{ok}
use sagaflow.Envelope.{headers, parse, spec_version}
use sagaflow.Envelope.Headers.{get}
use sagaflow.Envelope.RoundTrip.{IsNamed, Says, parse-headers, parse-eq_ok}
use sagaflow.Kafka.Wire.{wire_record, to_record, wire_round_trip}
use sagaflow.Examples.World.{envelope, envelope_message, walk_in_order}

envelope-IsNamed : IsNamed envelope
envelope-IsNamed = (λ h. cc, λ h. cc, λ h. cc)

parse-headers_example : (parse (headers envelope) ≡ ok envelope) ↔ IsNamed envelope
parse-headers_example = parse-headers envelope

parse-eq_ok_example : (parse (headers envelope) ≡ ok envelope) ↔ (
    (get (headers envelope) "ce_specversion" ≡ spec_version)
    × Says (headers envelope) envelope
    × IsNamed envelope)
parse-eq_ok_example = parse-eq_ok (headers envelope) envelope

wire_round_trip_example :
    let r = to_record (wire_record walk_in_order envelope_message) in
    (parse r.headers ≡ ok envelope)
    × (r.key ≡ "A1")
    × (r.value ≡ 7 ∷ [])
    × (r.topic ≡ "inventory.commands")
wire_round_trip_example =
    wire_round_trip walk_in_order envelope envelope_message envelope-IsNamed refl
