-- ===== src/Inventory/Commands/Appending.antt =====
-- internal/inventory/store.go: `AppendSeat` after `LoadSeat` in one transaction. An append that
-- succeeds found the stream as long as it was when it was read, so it was the same stream.
use mathlib.Core.List.{append-nil}
use sagaflow.Base.{
  suc, ◌+◌, String, ◌≡◌, refl, sym, ◌∙◌, ap, Bool, false, List, [], ◌∷◌, ◌++◌, arith, length,
  length-append, inl, inr, map, any,
}
use sagaflow.Errors.{Result, ok}
use sagaflow.Database.{EventRow, insert_event, stream_of, has_version}
use sagaflow.Database.Streams.{
  inserted, inserted-append, inserted-rows, events-perform_all, stream_of-append, nil_of_length,
  length-lt_of_free,
}
use sagaflow.Session.{Session, view, arrive, write}
use sagaflow.Session.Quiet.{IsOrdered, Quiet, arrive-Quiet}
use sagaflow.Codec.{Event, Meta}
use sagaflow.EventStore.Rows.{Columns, columns, row_at, rows_from}
use sagaflow.EventStore.{any_taken}
use sagaflow.Seat.{SeatState, Outcome}
use sagaflow.Inventory.Store.{encode_all}
use sagaflow.Inventory.Commands.{Deps}
use sagaflow.Inventory.Commands.Loading.{read_seat, version-read_seat}
use sagaflow.Inventory.Commands.Decided.{Decided, same_rows}
use sagaflow.EventStore.Appends.{AllSequential-rows_from}

free_head :
    (p : EventRow → Bool) (r : EventRow) (rows : List EventRow)
    → any p (r ∷ rows) ≡ false
    → p r ≡ false
unfolding any
free_head p r rows h = ground (arith, h)

module _ (d : Deps) (choose : SeatState → Result Outcome) (meta_of : Meta → Meta)
    (seat : String) where
  open d use {json, timestamps, env}

  -- `AppendSeat` on the state that was read: if it succeeds, what is pending was decided from the
  -- stream as it is now.
  module _ (state : SeatState) (outcome : Outcome) (origin : Meta) (s : Session)
      (ordered : IsOrdered s) (no_rows : inserted s.pending ≡ [])
      (reads : read_seat json timestamps (stream_of seat s.committed.events) ≡ ok (state, origin))
      (decides : choose state ≡ ok outcome) where
    abbrev stored : List EventRow
    stored = (arrive env s).committed.events

    abbrev rows_for : List Columns → List EventRow
    rows_for = rows_from json seat state.version (arrive env s).serial (arrive env s).started

    arrived : Quiet s (arrive env s)
    arrived = arrive-Quiet env s

    seen : (view (arrive env s)).events ≡ stored
    seen =
        events-perform_all (arrive env s).committed (arrive env s).pending
        ∙ ap (λ l. stored ++ l) (same_rows d choose meta_of seat arrived ∙ no_rows)
        ∙ append-nil stored

    -- A free next version means that the stream has not grown since it was read.
    unchanged :
        has_version seat (suc state.version) (view (arrive env s)).events ≡ false
        → stream_of seat stored ≡ stream_of seat s.committed.events
    unchanged vacant =
        let N = stream_of seat arrived.new_events in
        let parts =
          ap (stream_of seat) arrived.grows
          ∙ stream_of-append seat s.committed.events arrived.new_events in
        let none_new : N ≡ [] = nil_of_length N (
          omega (
            arith,
            length-lt_of_free seat (suc state.version) stored
                ((arrived.ordered ordered).stored seat) (omega arith) (rw seen at vacant),
            version-read_seat json timestamps (stream_of seat s.committed.events) state origin
                (ordered.stored seat) reads,
            ap (length {A = EventRow}) parts,
            length-append (stream_of seat s.committed.events) N,
          )) in
        parts
        ∙ ap (λ l. stream_of seat s.committed.events ++ l) none_new
        ∙ append-nil (stream_of seat s.committed.events)

    -- What an append that succeeded leaves behind.
    pub record Appended (t : Session) : Type 0 where
      pub log : t.log ≡ s.log
      pub ordered_after : IsOrdered t
      pub decided : Decided d choose meta_of seat t

    written_rows :
        (cols : List Columns)
        → inserted ((arrive env s).pending ++ map insert_event (rows_for cols)) ≡ rows_for cols
    written_rows cols =
        inserted-append (arrive env s).pending (map insert_event (rows_for cols))
        ∙ ap (λ l. l ++ inserted (map insert_event (rows_for cols)))
            (same_rows d choose meta_of seat arrived ∙ no_rows)
        ∙ inserted-rows (rows_for cols)

    pub written :
        (evts : List Event) (cols : List Columns) (t : Session)
        → encode_all json (meta_of origin) outcome.events ≡ ok evts
        → columns json evts ≡ ok cols
        → any_taken seat (view (arrive env s)).events (rows_for cols) ≡ false
        → t
          ≡ write
              (map insert_event (rows_for cols))
              (record (arrive env s) { serial = (arrive env s).serial + length cols })
        → Appended t
    unfolding rows_from
    written evts [] t encodes prepares vacant same = rw same (record {
      log = arrived.log;
      ordered_after = record {
        stored = (arrived.ordered ordered).stored;
        seen = rw (append-nil (arrive env s).pending) (arrived.ordered ordered).seen;
      };
      decided = inl (written_rows []);
    })
    written evts (c ∷ cs) t encodes prepares vacant same =
        let free : has_version seat (suc state.version) (view (arrive env s)).events ≡ false =
          free_head (λ r. has_version seat r.version (view (arrive env s)).events) _ _ vacant in
        let still = unchanged free in
        let v : state.version ≡ length (stream_of seat stored) =
          version-read_seat json timestamps (stream_of seat s.committed.events) state origin
            (ordered.stored seat) reads
          ∙ ap (length {A = EventRow}) (sym still) in
        let all_rows = written_rows (c ∷ cs) in
        rw same (record {
          log = arrived.log;
          ordered_after = record {
            stored = (arrived.ordered ordered).stored;
            seen =
                rw (all_rows, v)
                  (AllSequential-rows_from json seat stored (arrive env s).serial
                    (arrive env s).started (c ∷ cs) (arrived.ordered ordered).stored);
          };
          decided = inr (record {
            state = state;
            outcome = outcome;
            origin = origin;
            events = evts;
            cols = c ∷ cs;
            seq = (arrive env s).serial;
            now = (arrive env s).started;
            first = row_at json seat state.version (arrive env s).serial (arrive env s).started c;
            others =
                rows_from json seat (suc state.version) (suc (arrive env s).serial)
                  (arrive env s).started cs;
            reads = rw still reads;
            decides = decides;
            encodes = encodes;
            prepares = prepares;
            are_rows =
                all_rows
                ∙ ap
                    (λ n.
                      rows_from json seat n (arrive env s).serial (arrive env s).started (c ∷ cs))
                    v;
            starts = all_rows;
            in_seat = refl;
            next = ap suc v;
          });
        })
