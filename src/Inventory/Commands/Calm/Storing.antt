-- ===== src/Inventory/Commands/Calm/Storing.antt =====
-- internal/inventory/store.go and the event store where nothing goes wrong: the events of a decision are
-- appended.
use sagaflow.Base.{
  ℕ, suc, ◌+◌, ◌<◌, ◌≤◌, String, ◌≡◌, refl, ◌∙◌, ap, subst, false, ◌||◌, not, List, [], ◌∷◌, ◌++◌,
  any, length, All, ◌==◌, nat_eq, arith, inl, inr, Bool-cases,
}
use sagaflow.Errors.{ok, ok-injective}
use sagaflow.Contracts.{ProtoMessage, Time, HoldSeat, ReleaseSeatHold, hold_seat, release_seat_hold}
use sagaflow.Database.{EventRow, stream_of, has_version}
use sagaflow.Database.Streams.{events-perform_all, IsSequential, has_version-stream_of}
use sagaflow.Session.{Session, view}
use sagaflow.Codec.{Meta, Event, Json, type_name, encode}
use sagaflow.Seat.{SeatState, Outcome, decide, hold, holds, is_held, release}
use sagaflow.Inventory.Commands.{Deps}
use mathlib.Core.List.{append-nil}
use sagaflow.EventStore.Rows.{Columns, columns, validate, rows_from}
use sagaflow.EventStore.{append, insert_rows, translate, any_taken}
use sagaflow.Inventory.Store.{encode_all, append_seat}
use sagaflow.Inventory.Commands.Calm.{Storable, IsCalm, Goes, statement-calm, Sees}

-- Messages whose types have names.
abbrev pub Named : List ProtoMessage → Type 0
Named ms = All (λ m. (type_name m == "") ≡ false) ms

module _ (d : Deps) (calm : IsCalm d) where
  open d use {json, timestamps, header_json, frame, env}

  -- They can be stored.
  prepared :
      (meta : Meta) (ms : List ProtoMessage)
      → Named ms
      → Storable d ms
      → (evts : List Event) × (cols : List Columns) × (encode_all json meta ms ≡ ok evts)
        × (columns json evts ≡ ok cols)
  unfolding encode_all columns encode validate
  prepared meta [] named stores = ([], [], refl, refl)
  prepared meta (m ∷ ms) named stores =
      let (b, bs, e) = stores.0 in
      let (c, k) = calm.marshals_meta meta in
      let (evts, cols, encodes, prepares) = prepared meta ms named.1 stores.1 in
      (
        record { type_name = type_name m; data_json = b ∷ bs; meta = meta } ∷ evts,
        record { type_name = type_name m; data_json = b ∷ bs; meta_json = c } ∷ cols,
        rw (e, encodes) refl,
        rw (named.0, k, prepares) refl,
      )

above_free :
    (n v : ℕ) (rows : List EventRow)
    → IsSequential n rows
    → n + length rows < v
    → any (λ (r : EventRow). nat_eq r.version v) rows ≡ false
unfolding any
above_free n v [] h above = refl
above_free n v (r ∷ rows) h above = ground (arith, above_free (suc n) v rows h.1, h.0, above)

free_above :
    (json : Json) (seat : String) (E : List EventRow) (v seq : ℕ) (now : Time) (cols : List Columns)
    → IsSequential 0 (stream_of seat E)
    → length (stream_of seat E) ≤ v
    → any_taken seat E (rows_from json seat v seq now cols) ≡ false
unfolding any rows_from
free_above json seat E v seq now [] h long = refl
free_above json seat E v seq now (c ∷ cols) h long =
    let free : has_version seat (suc v) E ≡ false =
      has_version-stream_of seat (suc v) E
      ∙ above_free 0 (suc v) (stream_of seat E) h (omega (arith, long)) in
    rw free (free_above json seat E (suc v) (suc seq) now cols h (omega (arith, long)))

module _ (d : Deps) (calm : IsCalm d) where
  open d use {json, timestamps, header_json, frame, env}

  append-Goes :
      (seat : String) (E : List EventRow) (evts : List Event) (cols : List Columns) (s : Session)
      → IsSequential 0 (stream_of seat E)
      → columns json evts ≡ ok cols
      → Sees d calm E s
      → Goes (λ u t. Unit {0}) (append json env seat (length (stream_of seat E)) evts s)
  unfolding append insert_rows translate
  append-Goes seat E [] cols s h prepares sees = tt
  append-Goes seat E (e ∷ evts) cols s h prepares sees =
      let seen : (view s).events ≡ E =
        events-perform_all s.committed s.pending
        ∙ ap (λ l. s.committed.events ++ l) sees.1
        ∙ append-nil s.committed.events
        ∙ sees.0 in
      rw prepares (
        rw (statement-calm d calm (insert_rows json seat (length (stream_of seat E)) cols) s) (
          rw seen (
            rw
              (free_above json seat E (length (stream_of seat E)) s.serial s.started cols h
                (omega arith))
              tt)))

  pub append_seat-Goes :
      (seat : String) (E : List EventRow) (meta : Meta) (ms : List ProtoMessage) (s : Session)
      → IsSequential 0 (stream_of seat E)
      → Named ms
      → Storable d ms
      → Sees d calm E s
      → Goes (λ u t. Unit {0}) (append_seat json env seat (length (stream_of seat E)) ms meta s)
  unfolding append_seat
  append_seat-Goes seat E meta [] s h named stores sees = tt
  append_seat-Goes seat E meta (m ∷ ms) s h named stores sees =
      let (evts, cols, encodes, prepares) = prepared d calm meta (m ∷ ms) named stores in
      rw encodes (append-Goes seat E evts cols s h prepares sees)

  hold-Named : (state : SeatState) (c : HoldSeat) → Named (hold timestamps state c).events
  unfolding hold type_name
  hold-Named state c = elim (Bool-cases (holds state c.hold_id)) [
    | inl again ↦ rw again tt
    | inr other ↦ elim (Bool-cases (is_held state.status)) [
      | inl taken ↦ rw (other, taken) tt
      | inr free ↦ rw (other, free) (refl, tt)
    ]
  ]

  release-Named : (state : SeatState) (c : ReleaseSeatHold) → Named (release state c).events
  unfolding release type_name
  release-Named state c =
      elim (Bool-cases (not (is_held state.status) || not (state.hold_id == c.hold_id))) [
        | inl stale ↦ rw stale tt
        | inr live ↦ rw live (refl, tt)
      ]

  pub decide-Named :
      (state : SeatState) (cmd : ProtoMessage) (outcome : Outcome)
      → decide timestamps state cmd ≡ ok outcome
      → Named outcome.events
  unfolding decide
  decide-Named state (hold_seat c) outcome h =
      subst (λ (o : Outcome). Named o.events) (ok-injective h) (hold-Named state c)
  decide-Named state (release_seat_hold c) outcome h =
      subst (λ (o : Outcome). Named o.events) (ok-injective h) (release-Named state c)
  decide-Named state _ outcome h = cc
