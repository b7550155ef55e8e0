-- ===== src/Inventory/Commands/Keeping.antt =====
-- internal/inventory/store.go: what the transaction has decided after `AppendSeat`, and that it stays
-- decided.
use sagaflow.Base.{String, ◌≡◌, refl, ◌∙◌, List, [], ◌∷◌, inl}
use sagaflow.Errors.{Result, ok}
use sagaflow.Contracts.{ProtoMessage}
use sagaflow.Database.{stream_of}
use sagaflow.Database.Streams.{inserted}
use sagaflow.Session.{Session, statement, lift}
use sagaflow.Session.Inversion.{tx-ok, lift-ok, statement-ok}
use sagaflow.Session.Quiet.{IsOrdered, Quiet}
use sagaflow.Codec.{Event, Meta}
use sagaflow.EventStore.Rows.{columns}
use sagaflow.EventStore.{append, insert_rows}
use sagaflow.Seat.{SeatState, Outcome}
use sagaflow.Inventory.Store.{encode_all, append_seat}
use sagaflow.Inventory.Commands.{Deps}
use sagaflow.Inventory.Commands.Loading.{read_seat}
use sagaflow.Inventory.Commands.Decided.{Decided, Decided-Quiet}
use sagaflow.Inventory.Commands.Appending.{written}
use sagaflow.EventStore.Appends.{translated-ok, insert_rows-ok}

module _ (d : Deps) (choose : SeatState → Result Outcome) (meta_of : Meta → Meta)
    (seat : String) where
  open d use {json, timestamps, header_json, env}

  -- A session that keeps what the transaction has decided.
  pub record Keeps (s t : Session) : Type 0 where
    pub log : t.log ≡ s.log
    pub ordered : IsOrdered t
    pub decided : Decided d choose meta_of seat t

  pub Keeps-Quiet : {s t u : Session} → Keeps s t → Quiet t u → Keeps s u
  Keeps-Quiet k q = record {
    log = q.log ∙ k.log;
    ordered = q.ordered k.ordered;
    decided = Decided-Quiet d choose meta_of seat q k.ordered k.decided;
  }

  module _ (state : SeatState) (outcome : Outcome) (origin : Meta) (s : Session)
      (ordered : IsOrdered s) (no_rows : inserted s.pending ≡ [])
      (reads : read_seat json timestamps (stream_of seat s.committed.events) ≡ ok (state, origin))
      (decides : choose state ≡ ok outcome) where
    append-Keeps :
        (evts : List Event) (t : Session)
        → encode_all json (meta_of origin) outcome.events ≡ ok evts
        → append json env seat state.version evts s ≡ (ok tt, t)
        → Keeps s t
    unfolding append
    append-Keeps [] t encodes h =
        let same = (lift-ok (ok tt) s t tt h).1 in
        rw same (record { log = refl; ordered = ordered; decided = inl no_rows })
    append-Keeps (e ∷ evts) t encodes h =
        let (cols, s₁, h₁, k₁) = tx-ok (lift (columns json (e ∷ evts))) _ s t tt h in
        let (prepares, same) = lift-ok _ s s₁ cols h₁ in
        let inside =
          translated-ok (statement env (insert_rows json seat state.version cols) s) t
            (rw same at k₁) in
        let (vacant, after) =
          insert_rows-ok json seat state.version cols _ t
            (statement-ok env (insert_rows json seat state.version cols) s t tt inside) in
        let a =
          written d choose meta_of seat state outcome origin s ordered no_rows reads decides
            (e ∷ evts) cols t encodes prepares vacant after in
        record { log = a.log; ordered = a.ordered_after; decided = a.decided }

    pub append_seat-Keeps :
        (evts : List ProtoMessage) (t : Session)
        → outcome.events ≡ evts
        → append_seat json env seat state.version evts (meta_of origin) s ≡ (ok tt, t)
        → Keeps s t
    unfolding append_seat
    append_seat-Keeps [] t same h =
        let unchanged = (lift-ok (ok tt) s t tt h).1 in
        rw unchanged (record { log = refl; ordered = ordered; decided = inl no_rows })
    append_seat-Keeps (m ∷ ms) t same h =
        let (evts, s₁, h₁, k₁) =
          tx-ok (lift (encode_all json (meta_of origin) (m ∷ ms))) _ s t tt h in
        let (encodes, here) = lift-ok _ s s₁ evts h₁ in
        append-Keeps evts t (rw same encodes) (rw here at k₁)
