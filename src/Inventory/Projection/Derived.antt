-- ===== src/Inventory/Projection/Derived.antt =====
-- internal/inventory/projection.go: what the loop of `Rebuild` leaves of one seat's row.
use mathlib.Core.List.{append-nil, append_assoc}
use sagaflow.Base.{
  All, false, String, ◌≡◌, refl, sym, ◌∙◌, ap, subst, true, false, Option, List, [], ◌∷◌, ◌++◌,
  ◌==◌, nat_eq, any, inl, inr, Bool-cases, eq_iff,
}
use sagaflow.Errors.{ok}
use sagaflow.Contracts.{Timestamps}
use sagaflow.Database.{AvailabilityRow, EventRow, upsert_availability, stream_of}
use sagaflow.Database.Streams.{inserted, events-perform_all}
use sagaflow.Session.{Session, Environment, view, arrive, statement}
use sagaflow.Session.Quiet.{arrive-Quiet}
use sagaflow.Session.Inversion.{tx-ok, lift-ok, statement-ok, annotate-ok, arrive-pending}
use sagaflow.Codec.{Json, Meta}
use sagaflow.Seat.{SeatState}
use sagaflow.Inventory.Commands.Loading.{read_seat, load_seat-ok}
use sagaflow.Inventory.Store.{load_seat}
use sagaflow.Inventory.Projection.{
  availability_row, find_row, project, project_all, write_projection, upsert,
}
use sagaflow.Inventory.Projection.Upserts.{
  upserts, clearing, clearing-last, no_events-clearing, projected, row_of, find_row-projected,
  find_row-projected_other, over,
}
use sagaflow.Inventory.Projection.Overlap.{Ours, Theirs, arrive-Ours}

-- `later` has the events of `earlier`, and perhaps others behind them.
abbrev pub Extends : List EventRow → List EventRow → Type 0
Extends earlier later = (new : List EventRow) × (later ≡ earlier ++ new)

pub Extends-refl : (a : List EventRow) → Extends a a
Extends-refl a = ([], sym (append-nil a))

pub Extends-trans : (a b c : List EventRow) → Extends a b → Extends b c → Extends a c
Extends-trans a b c (x, p) (y, q) = (x ++ y, q ∙ ap (λ l. l ++ y) p ∙ append_assoc a x y)

module _ (json : Json) (ts : Timestamps) (env : Environment) where
  -- The row that is found of a seat is what the seat's stream read as, written over no row or over one that
  -- another transaction wrote. It was read when `stored` was
  -- what the table of events held, which is `first` with what was committed since, and perhaps not all of
  -- `last`.
  pub record IsDerived (seat : String) (first last : List EventRow) (row : Option AvailabilityRow)
      : Type 0 where
    pub stored : List EventRow
    pub since : Extends first stored
    pub until : Extends stored last
    pub state : SeatState
    pub origin : Meta
    pub reads : read_seat json ts (stream_of seat stored) ≡ ok (state, origin)
    pub other : Option AvailabilityRow
    pub theirs : Theirs env seat other
    pub found : row ≡ over (row_of seat state) other

  pub widened :
      (seat : String) (a b c e : List EventRow) (r : Option AvailabilityRow)
      → Extends a b
      → Extends c e
      → IsDerived seat b c r
      → IsDerived seat a e r
  widened seat a b c e r since until i = record {
    stored = i.stored;
    since = Extends-trans a b i.stored since i.since;
    until = Extends-trans i.stored c e i.until until;
    state = i.state;
    origin = i.origin;
    reads = i.reads;
    other = i.other;
    theirs = i.theirs;
    found = i.found;
  }

  -- One step of the loop: the seat is read, and its row is written.
  record Projected (seats : List String) (seat : String) (rs : List AvailabilityRow) (s t : Session)
      : Type 0 where
    at_read : List EventRow
    since : Extends s.committed.events at_read
    until : Extends at_read t.committed.events
    state : SeatState
    origin : Meta
    reads : read_seat json ts (stream_of seat at_read) ≡ ok (state, origin)
    pending : t.pending ≡ clearing seats (rs ++ projected seat state)
    still :
        All (Ours env seats) s.committed.availability
        → All (Ours env seats) t.committed.availability

  pub arrive-Extends : (s : Session) → Extends s.committed.events (arrive env s).committed.events
  arrive-Extends s = let q = arrive-Quiet env s in (q.new_events, q.grows)

  -- The seats of the loop, each once.
  abbrev pub AllDiffer : List String → Type 0
  AllDiffer [] = Unit {0}
  AllDiffer (id ∷ ids) = (any (λ x. x == id) ids ≡ false) × AllDiffer ids

  -- What the loop leaves of one seat's row.
  pub record Looped (seats : List String) (seat : String) (ids : List String)
      (rs : List AvailabilityRow) (s t : Session) : Type 0 where
    pub rows : List AvailabilityRow
    pub pending : t.pending ≡ clearing seats rows
    pub still :
        All (Ours env seats) s.committed.availability
        → All (Ours env seats) t.committed.availability
    pub grown : Extends s.committed.events t.committed.events
    pub others :
        (base : List AvailabilityRow)
        → any (λ x. x == seat) ids ≡ false
        → find_row seat (upserts base rows) ≡ find_row seat (upserts base rs)
    pub listed :
        (base : List AvailabilityRow)
        → any (λ x. x == seat) ids ≡ true
        → Theirs env seat (find_row seat base)
        → find_row seat (upserts base rs) ≡ find_row seat base
        → IsDerived seat s.committed.events t.committed.events (find_row seat (upserts base rows))

module _ (json : Json) (ts : Timestamps) (env : Environment) where
  abbrev AllOurs : List String → Session → Type 0
  AllOurs seats s = All (Ours env seats) s.committed.availability

  write_projection-ok :
      (seats : List String) (seat : String) (state : SeatState) (rs : List AvailabilityRow)
      (s t : Session) (u : Unit {0})
      → s.pending ≡ clearing seats rs
      → write_projection json ts env seat state s ≡ (ok u, t)
      → Extends s.committed.events t.committed.events
        × (t.pending ≡ clearing seats (rs ++ projected seat state))
        × (All (Ours env seats) s.committed.availability
            → All (Ours env seats) t.committed.availability)
  write_projection-ok seats seat state rs s t u pending h =
      elim (Bool-cases (nat_eq state.version 0)) [
        | inl bare ↦
            let same = (lift-ok (ok tt) s t u (rw bare at h)).1 in
            (
              subst (λ (x : Session). Extends s.committed.events x.committed.events) (sym same)
                  (Extends-refl s.committed.events),
              rw bare (
                  ap (λ (x : Session). x.pending) same
                  ∙ pending
                  ∙ ap (clearing seats) (sym (append-nil rs))),
              λ a. subst (AllOurs seats) (sym same) a,
            )
        | inr lives ↦
            let row : AvailabilityRow = availability_row seat state in
            let same =
              (lift-ok (ok tt) (upsert json ts env row (arrive env s)).1 t u (
                statement-ok env (upsert json ts env row) s t u (
                  annotate-ok "inventory: project" (statement env (upsert json ts env row)) s t u
                    (rw lives at h)))).1 in
            (
              subst (λ (x : Session). Extends s.committed.events x.committed.events) (sym same)
                  (arrive-Extends json ts env s),
              rw lives (
                  ap (λ (x : Session). x.pending) same
                  ∙ ap (λ l. l ++ upsert_availability row ∷ []) (arrive-pending env s ∙ pending)
                  ∙ clearing-last seats rs row),
              λ a. subst (AllOurs seats) (sym same) (arrive-Ours env seats s a),
            )
      ]

  project-Projected :
      (seats : List String) (seat : String) (rs : List AvailabilityRow) (s t : Session)
      (u : Unit {0})
      → s.pending ≡ clearing seats rs
      → project json ts env seat s ≡ (ok u, t)
      → Projected json ts env seats seat rs s t
  unfolding project
  project-Projected seats seat rs s t u pending h =
      let ((state, origin), s₁, h₁, k₁) = tx-ok (load_seat json ts env seat) _ s t u h in
      let (here, reads) = load_seat-ok json ts env seat s s₁ state origin h₁ in
      let pending₁ : s₁.pending ≡ clearing seats rs =
        ap (λ (x : Session). x.pending) here ∙ arrive-pending env s ∙ pending in
      let seen : (view s₁).events ≡ s₁.committed.events =
        events-perform_all s₁.committed s₁.pending
        ∙ ap (λ ws. s₁.committed.events ++ inserted ws) pending₁
        ∙ ap (λ l. s₁.committed.events ++ l) (no_events-clearing seats rs)
        ∙ append-nil s₁.committed.events in
      let (grown, pending₂, view₂) = write_projection-ok seats seat state rs s₁ t u pending₁ k₁ in
      record {
        at_read = s₁.committed.events;
        since =
            subst (λ (x : Session). Extends s.committed.events x.committed.events) (sym here)
              (arrive-Extends json ts env s);
        until = grown;
        state = state;
        origin = origin;
        reads = subst (λ l. read_seat json ts (stream_of seat l) ≡ ok (state, origin)) seen reads;
        pending = pending₂;
        still = λ a. view₂ (subst (AllOurs seats) (sym here) (arrive-Ours env seats s a));
      }

  pub project_all-Looped :
      (seats : List String) (seat : String) (ids : List String) (rs : List AvailabilityRow)
      (s t : Session) (u : Unit {0})
      → AllDiffer json ts env ids
      → s.pending ≡ clearing seats rs
      → project_all json ts env ids s ≡ (ok u, t)
      → Looped json ts env seats seat ids rs s t
  unfolding project_all any
  project_all-Looped seats seat [] rs s t u d pending h =
      let same = (lift-ok (ok tt) s t u h).1 in
      record {
        rows = rs;
        pending = ap (λ (x : Session). x.pending) same ∙ pending;
        still = λ a. subst (AllOurs seats) (sym same) a;
        grown =
            subst (λ (x : Session). Extends s.committed.events x.committed.events) (sym same)
              (Extends-refl s.committed.events);
        others = λ base absent. refl;
        listed = λ base found theirs vacant. cc;
      }
  project_all-Looped seats seat (id ∷ ids) rs s t u d pending h =
      let (u₁, s₁, h₁, k₁) =
        tx-ok (project json ts env id) (λ x s'. project_all json ts env ids s') s t u h in
      let p = project-Projected seats id rs s s₁ u₁ pending h₁ in
      let l =
        project_all-Looped seats seat ids (rs ++ projected id p.state) s₁ t u d.1 p.pending k₁ in
      let forth : Extends s.committed.events s₁.committed.events =
        Extends-trans s.committed.events p.at_read s₁.committed.events p.since p.until in
      let grown : Extends s.committed.events t.committed.events =
        Extends-trans s.committed.events s₁.committed.events t.committed.events forth l.grown in
      elim (Bool-cases (id == seat)) [
        | inl same ↦
            let here : id ≡ seat = (eq_iff id seat).0 same in
            let gone : any (λ x. x == seat) ids ≡ false =
              subst (λ i. any (λ x. x == i) ids ≡ false) here d.0 in
            record {
              rows = l.rows;
              pending = l.pending;
              still = λ a. l.still (p.still a);
              grown = grown;
              others = λ base absent. let no = rw same at absent in cc;
              listed = λ base found theirs vacant. record {
                stored = p.at_read;
                since = p.since;
                until =
                    Extends-trans p.at_read s₁.committed.events t.committed.events p.until l.grown;
                state = p.state;
                origin = p.origin;
                reads =
                    subst (λ i. read_seat json ts (stream_of i p.at_read) ≡ ok (p.state, p.origin))
                      here p.reads;
                found =
                    l.others base gone
                    ∙ ap (λ i. find_row seat (upserts base (rs ++ projected i p.state))) here
                    ∙ find_row-projected base seat p.state rs
                    ∙ ap (over (row_of seat p.state)) vacant;
                other = find_row seat base;
                theirs = theirs;
              };
            }
        | inr other ↦
            let unmoved = λ (base : List AvailabilityRow).
              find_row-projected_other base seat id p.state rs other in
            record {
              rows = l.rows;
              pending = l.pending;
              still = λ a. l.still (p.still a);
              grown = grown;
              others = λ base absent. l.others base (rw other at absent) ∙ unmoved base;
              listed = λ base found theirs vacant.
                  widened json ts env seat s.committed.events s₁.committed.events t.committed.events
                    t.committed.events (find_row seat (upserts base l.rows)) forth
                    (Extends-refl t.committed.events)
                    (l.listed base (rw other at found) theirs (unmoved base ∙ vacant));
            }
      ]
