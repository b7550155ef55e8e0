-- ===== src/Inventory/Projection/Rebuilt.antt =====
-- internal/inventory/projection.go: what `Rebuild` leaves in the view.
use mathlib.Core.List.{append-nil}
use sagaflow.Base.{
  All, String, ◌≡◌, refl, sym, ◌∙◌, ap, subst, false, List, [], ◌∷◌, ◌++◌, ◌==◌, any, keep, inl,
  inr, Bool-cases, arith,
}
use sagaflow.Errors.{ok, ok-injective}
use sagaflow.Contracts.{Timestamps}
use sagaflow.Database.{AvailabilityRow, EventRow, clear_availability, perform_all, stream_of}
use sagaflow.Database.Streams.{inserted, events-perform_all}
use sagaflow.Session.{Session, Environment, Tx, view, arrive, statement, annotate, ◌>>=◌, ◌>>◌}
use sagaflow.Session.Inversion.{
  tx-ok, lift-ok, statement-ok, annotate-ok, arrive-pending, with_tx-ok, opened,
}
use sagaflow.Codec.{Json, no_meta}
use sagaflow.EventStore.{distinct_streams}
use sagaflow.EventStore.Streams.{distinct_streams_complete}
use sagaflow.Seat.{zero_seat, fold, fold_from}
use sagaflow.EventStore.Rows.{read_rows}
use sagaflow.Database.Order.{order_by}
use sagaflow.Inventory.Commands.Loading.{read_seat}
use sagaflow.Inventory.Store.{decode_all}
use sagaflow.Inventory.Projection.{find_row, project_all, rebuild, select_streams, delete_all}
use sagaflow.Inventory.Projection.Upserts.{
  upserts, left_by, upserts-none, clearing, seats_of, availability-clearing, no_events-clearing,
}
use sagaflow.Inventory.Projection.Overlap.{left_by-Theirs, seats_of-Ours, Ours, Theirs, arrive-Ours}
use sagaflow.Inventory.Projection.Derived.{
  Extends, Extends-refl, Extends-trans, IsDerived, widened, arrive-Extends, AllDiffer,
  project_all-Looped,
}

module _ (json : Json) (ts : Timestamps) (env : Environment) where
  distinct-AllDiffer : (rows : List EventRow) → AllDiffer json ts env (distinct_streams rows)
  unfolding distinct_streams any
  distinct-AllDiffer [] = tt
  distinct-AllDiffer (r ∷ rows) =
      let rest = distinct_streams rows in
      elim (Bool-cases (any (λ id. id == r.stream_id) rest)) [
        | inl listed ↦ rw listed (distinct-AllDiffer rows)
        | inr new ↦ rw new (new, distinct-AllDiffer rows)
      ]

  -- A stream of which there is no event reads as the seat that nothing has happened to.
  empty_stream :
      (seat : String) (rows : List EventRow)
      → any (λ (r : EventRow). r.stream_id == seat) rows ≡ false
      → stream_of seat rows ≡ []
  unfolding stream_of keep any
  empty_stream seat [] h = refl
  empty_stream seat (r ∷ rows) h = ground (arith, h, empty_stream seat rows)

  reads_empty : read_seat json ts [] ≡ ok (zero_seat, no_meta)
  unfolding read_seat read_rows order_by decode_all fold fold_from
  reads_empty = refl

  seen_events : (s : Session) → inserted s.pending ≡ [] → (view s).events ≡ s.committed.events
  seen_events s none_in =
      events-perform_all s.committed s.pending
      ∙ ap (λ l. s.committed.events ++ l) none_in
      ∙ append-nil s.committed.events

  -- The transaction of `Rebuild`.
  abbrev body : Tx (Unit {0})
  body = do
    ids ← annotate "inventory: project" (statement env (select_streams json ts env))
    annotate "inventory: project" (statement env (delete_all json ts env))
    project_all json ts env ids

  body-IsDerived :
      (seat : String) (s v : Session) (u : Unit {0})
      → s.pending ≡ []
      → body s ≡ (ok u, v)
      → (seats : List String) × (rows : List AvailabilityRow) × (v.pending ≡ clearing seats rows)
        × All (Ours env seats) v.committed.availability
        × ((base : List AvailabilityRow)
            → Theirs env seat (find_row seat base)
            → IsDerived json ts env seat s.committed.events v.committed.events
                (find_row seat (upserts base rows)))
  unfolding perform_all
  body-IsDerived seat s v u none_in h =
      let (ids, s₁, h₁, k₁) =
        tx-ok (annotate "inventory: project" (statement env (select_streams json ts env))) _ s v u
          h in
      let (listed, here) = lift-ok _ (arrive env s) s₁ ids (
        statement-ok env (select_streams json ts env) s s₁ ids (
          annotate-ok "inventory: project" (statement env (select_streams json ts env)) s s₁ ids
            h₁)) in
      let (u₂, s₂, h₂, k₂) =
        tx-ok (annotate "inventory: project" (statement env (delete_all json ts env)))
          (λ x. project_all json ts env ids) s₁ v u k₁ in
      let cleared =
        (lift-ok (ok tt) (delete_all json ts env (arrive env s₁)).1 s₂ u₂ (
          statement-ok env (delete_all json ts env) s₁ s₂ u₂ (
            annotate-ok "inventory: project" (statement env (delete_all json ts env)) s₁ s₂ u₂
              h₂))).1 in
      let pending₁ : s₁.pending ≡ [] =
        ap (λ (x : Session). x.pending) here ∙ arrive-pending env s ∙ none_in in
      let seats = seats_of (view (arrive env s₁)).availability in
      let pending₂ : s₂.pending ≡ clearing seats [] =
        ap (λ (x : Session). x.pending) cleared
        ∙ ap (λ l. l ++ clear_availability seats ∷ []) (arrive-pending env s₁ ∙ pending₁) in
      let rows_then : (view (arrive env s)).events ≡ s₁.committed.events =
        seen_events (arrive env s) (ap inserted (arrive-pending env s ∙ none_in))
        ∙ ap (λ (x : Session). x.committed.events) (sym here) in
      let ids_then : ids ≡ distinct_streams s₁.committed.events =
        sym (ok-injective listed) ∙ ap distinct_streams rows_then in
      let l =
        project_all-Looped json ts env seats seat ids [] s₂ v u
          (subst (AllDiffer json ts env) (sym ids_then) (distinct-AllDiffer s₁.committed.events))
          pending₂ k₂ in
      let first : Extends s.committed.events s₁.committed.events =
        subst (λ (x : Session). Extends s.committed.events x.committed.events) (sym here)
          (arrive-Extends json ts env s) in
      let second : Extends s₁.committed.events s₂.committed.events =
        subst (λ (x : Session). Extends s₁.committed.events x.committed.events) (sym cleared)
          (arrive-Extends json ts env s₁) in
      let seen : All (Ours env seats) s₂.committed.availability =
        subst (λ (x : Session). All (Ours env seats) x.committed.availability) (sym cleared)
          (subst
            (λ ws.
              All (Ours env (seats_of (perform_all (arrive env s₁).committed ws).availability))
                (arrive env s₁).committed.availability)
            (sym (arrive-pending env s₁ ∙ pending₁))
            (seats_of-Ours env (arrive env s₁).committed.availability)) in
      (
        seats,
        l.rows,
        l.pending,
        l.still seen,
        λ base theirs. elim (Bool-cases (any (λ x. x == seat) ids)) [
          | inl found ↦
              widened json ts env seat s.committed.events s₂.committed.events v.committed.events
                v.committed.events (find_row seat (upserts base l.rows))
                (Extends-trans s.committed.events s₁.committed.events s₂.committed.events first
                  second)
                (Extends-refl v.committed.events)
                (l.listed base found theirs (ap (find_row seat) (upserts-none base)))
          | inr absent ↦
              let gone : any (λ (r : EventRow). r.stream_id == seat) s₁.committed.events ≡ false =
                sym (distinct_streams_complete seat s₁.committed.events)
                ∙ ap (any (λ x. x == seat)) (sym ids_then)
                ∙ absent in
              record {
                stored = s₁.committed.events;
                since = first;
                until =
                    Extends-trans s₁.committed.events s₂.committed.events v.committed.events second
                      l.grown;
                state = zero_seat;
                origin = no_meta;
                reads =
                    ap (read_seat json ts) (empty_stream seat s₁.committed.events gone)
                    ∙ reads_empty;
                other = find_row seat base;
                theirs = theirs;
                found = l.others base absent ∙ ap (find_row seat) (upserts-none base);
              }
        ],
      )

  -- Where `Rebuild` succeeds, whatever stood in the view before and whatever other transactions commit
  -- before every statement, the row of every seat is what the seat's stream read as, with its deadline
  -- to the microsecond, at one moment of the rebuild: when the table of events held all that it held
  -- before, and nothing that it does not hold after it. A seat that had no events then has no row of the
  -- rebuild's. The one exception is a row of the seat that another transaction upserts during the rebuild:
  -- such a row stays where its version is not behind, or where the rebuild has no row of the seat.
  pub rebuild_derives :
      (s t : Session)
      → rebuild json ts env s ≡ (ok tt, t)
      → (seat : String)
      → IsDerived json ts env seat s.committed.events t.committed.events
          (find_row seat t.committed.availability)
  unfolding rebuild
  rebuild_derives s t h seat =
      let (v, runs, end) = with_tx-ok env body s t tt h in
      let (seats, rows, pending, ours, i) = body-IsDerived seat (opened env s) v tt refl runs in
      let left = left_by seats (arrive env v).committed.availability in
      let written : (arrive env v).pending ≡ clearing seats rows = arrive-pending env v ∙ pending in
      let last : t.committed.events ≡ (arrive env v).committed.events =
        ap (λ (x : Session). x.committed.events) end
        ∙ seen_events (arrive env v) (ap inserted written ∙ no_events-clearing seats rows) in
      let shown : find_row seat t.committed.availability ≡ find_row seat (upserts left rows) =
        ap (λ (x : Session). find_row seat x.committed.availability) end
        ∙ ap (λ ws. find_row seat (perform_all (arrive env v).committed ws).availability) written
        ∙ ap (find_row seat) (availability-clearing (arrive env v).committed seats rows) in
      rw shown (
        widened json ts env seat s.committed.events (opened env s).committed.events
          v.committed.events t.committed.events (find_row seat (upserts left rows))
          (arrive-Extends json ts env s)
          (subst (λ l. Extends v.committed.events l) (sym last) (arrive-Extends json ts env v))
          (i left (
            left_by-Theirs env seat seats (arrive env v).committed.availability
              (arrive-Ours env seats v ours))))
