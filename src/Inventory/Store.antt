-- ===== src/Inventory/Store.antt =====
-- internal/inventory/store.go: seat streams in the event store.
use sagaflow.Base.{ℕ, String, List, [], ◌∷◌}
use sagaflow.Errors.{Error, Result, ok, err, wrap}
use sagaflow.Errors
use sagaflow.Contracts.{ProtoMessage, Timestamps}
use sagaflow.Session.{Environment, Tx, pure, lift, ◌>>=◌, in_context}
use sagaflow.Codec.{Meta, no_meta, Event, Json, encode, decode}
use sagaflow.EventStore.Rows.{Recorded}
use sagaflow.EventStore.{load, append}
use sagaflow.Seat.{SeatState, fold}

-- The metadata of the last event.
abbrev pub last_meta : Meta → List Recorded → Meta
last_meta m [] = m
last_meta m (r ∷ rs) = last_meta r.event.meta rs

module _ (json : Json) where
  unfoldable pub decode_all : List Recorded → Result (List ProtoMessage)
  decode_all [] = ok []
  decode_all (r ∷ rs) =
      let rest = decode_all rs in
      Errors.◌>>=◌ (in_context "inventory: decode" (decode json r.event))
        (λ m. Errors.◌>>=◌ rest (λ ms. ok (m ∷ ms)))

  unfoldable pub encode_all : Meta → List ProtoMessage → Result (List Event)
  encode_all meta [] = ok []
  encode_all meta (m ∷ ms) =
      let rest = encode_all meta ms in
      Errors.◌>>=◌ (in_context "inventory: encode" (encode json m meta))
        (λ e. Errors.◌>>=◌ rest (λ es. ok (e ∷ es)))

  module _ (ts : Timestamps) (env : Environment) where
    unfoldable pub load_seat : String → Tx (SeatState × Meta)
    load_seat seat = do
      recorded ← load json env seat
      msgs ← lift (decode_all recorded)
      state ← lift (fold ts msgs)
      pure (state, last_meta no_meta recorded)

  module _ (env : Environment) where
    unfoldable pub append_seat : String → ℕ → List ProtoMessage → Meta → Tx (Unit {0})
    append_seat seat expected [] meta s = pure tt s
    append_seat seat expected (m ∷ ms) meta s =
        (do stored ← lift (encode_all meta (m ∷ ms)); append json env seat expected stored) s
