-- ===== src/Inventory/Commands/Decided.antt =====
-- internal/inventory/commands.go and expiry.go: whatever other transactions commit between the
-- statements of a transaction that loads a seat, decides by `choose` and appends, the events that it commits were decided from the stream that they end.
use mathlib.Core.List.{append-nil}
use sagaflow.Base.{
  ℕ, suc, String, ◌≡◌, ◌∙◌, ap, subst, List, [], ◌∷◌, ◌++◌, arith, length, length-append, inl, inr,
  ◌⊎◌,
}
use sagaflow.Errors.{Result, ok}
use sagaflow.Database.{EventRow, stream_of}
use sagaflow.Database.Streams.{
  inserted, inserted-append, AllSequential, IsSequential, IsSequential-split, stream_of-append,
  stream_of-cons, nil_of_length,
}
use sagaflow.Session.{Session}
use sagaflow.Session.Quiet.{IsOrdered, Quiet}
use sagaflow.Codec.{Event, Meta}
use sagaflow.EventStore.Rows.{Columns, columns, rows_from}
use sagaflow.Seat.{SeatState, Outcome}
use sagaflow.Inventory.Store.{encode_all}
use sagaflow.Inventory.Commands.{Deps}
use sagaflow.Inventory.Commands.Loading.{read_seat}

module _ (d : Deps) (choose : SeatState → Result Outcome) (meta_of : Meta → Meta)
    (seat : String) where
  open d use {json, timestamps, env}

  -- The rows are the events decided on the state that the stream of the seat reads as, encoded, at the
  -- versions after the end of that stream; there is at least one.
  pub record IsDecision (stored rows : List EventRow) : Type 0 where
    pub state : SeatState
    pub outcome : Outcome
    pub origin : Meta
    pub events : List Event
    pub cols : List Columns
    pub seq : ℕ
    pub now : ℕ
    pub first : EventRow
    pub others : List EventRow
    pub reads : read_seat json timestamps (stream_of seat stored) ≡ ok (state, origin)
    pub decides : choose state ≡ ok outcome
    pub encodes : encode_all json (meta_of origin) outcome.events ≡ ok events
    pub prepares : columns json events ≡ ok cols
    pub are_rows : rows ≡ rows_from json seat (length (stream_of seat stored)) seq now cols
    pub starts : rows ≡ first ∷ others
    pub in_seat : first.stream_id ≡ seat
    pub next : first.version ≡ suc (length (stream_of seat stored))

  abbrev pub Decided : Session → Type 0
  Decided s = (inserted s.pending ≡ []) ⊎ IsDecision s.committed.events (inserted s.pending)

  -- Rows of the seat that wait at the next version keep the seat's stream from growing.
  frozen :
      (stored new rows others : List EventRow) (first : EventRow)
      → AllSequential ((stored ++ new) ++ rows)
      → rows ≡ first ∷ others
      → first.stream_id ≡ seat
      → first.version ≡ suc (length (stream_of seat stored))
      → stream_of seat (stored ++ new) ≡ stream_of seat stored
  frozen stored new rows others first ordered starts in_seat next =
      let C = stream_of seat stored in
      let N = stream_of seat new in
      let whole : IsSequential 0 ((C ++ N) ++ first ∷ stream_of seat others) =
        subst (IsSequential 0)
          (stream_of-append seat (stored ++ new) rows
            ∙ ap (λ l. l ++ stream_of seat rows) (stream_of-append seat stored new)
            ∙ ap (λ l. (C ++ N) ++ stream_of seat l) starts
            ∙ ap (λ l. (C ++ N) ++ l) (stream_of-cons seat first others in_seat))
          (ordered seat) in
      let at_end = (IsSequential-split 0 (C ++ N) (first ∷ stream_of seat others) whole).1 in
      let nothing_new : N ≡ [] =
        nil_of_length N (omega (arith, at_end.0, next, length-append C N)) in
      stream_of-append seat stored new ∙ ap (λ l. C ++ l) nothing_new ∙ append-nil C

  pub same_rows : {s t : Session} → Quiet s t → inserted t.pending ≡ inserted s.pending
  same_rows {s} q =
      ap inserted q.writes
      ∙ inserted-append s.pending q.new_writes
      ∙ ap (λ l. inserted s.pending ++ l) q.no_events
      ∙ append-nil (inserted s.pending)

  pub Decided-Quiet : {s t : Session} → Quiet s t → IsOrdered s → Decided s → Decided t
  Decided-Quiet {s} {t} q o (inl none_in) = inl (same_rows q ∙ none_in)
  Decided-Quiet {s} {t} q o (inr x) =
      let ordered : AllSequential ((s.committed.events ++ q.new_events) ++ inserted s.pending) =
        subst AllSequential
          (ap (λ l. l ++ inserted t.pending) q.grows
            ∙ ap (λ l. (s.committed.events ++ q.new_events) ++ l) (same_rows q))
          (q.ordered o).seen in
      let still : stream_of seat t.committed.events ≡ stream_of seat s.committed.events =
        ap (stream_of seat) q.grows
        ∙ frozen s.committed.events q.new_events (inserted s.pending) x.others x.first ordered
            x.starts x.in_seat x.next in
      inr (record {
        state = x.state;
        outcome = x.outcome;
        origin = x.origin;
        events = x.events;
        cols = x.cols;
        seq = x.seq;
        now = x.now;
        first = x.first;
        others = x.others;
        reads = rw still x.reads;
        decides = x.decides;
        encodes = x.encodes;
        prepares = x.prepares;
        are_rows = same_rows q ∙ rw still x.are_rows;
        starts = same_rows q ∙ x.starts;
        in_seat = x.in_seat;
        next = rw still x.next;
      })
